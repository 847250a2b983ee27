-- ===== src/Hub/Admin/Decisions.antt =====
-- What an operator's decision on a holder does to the issuance processes.
use ds_identity_hub_rs.Common.{
  ℕ, String, ◌≡◌, refl, ap, ◌∙◌, subst, ◌⊎◌, inl, inr, true, false, none, some, List, arith, ◌==◌,
  Bool-cases, Option-cases, Result, ok, err,
}
use ds_identity_hub_rs.Common.Assoc.Laws.{get-modify_all}
use ds_identity_hub_rs.External.{External}
use ds_identity_hub_rs.Hub.{AppState}
use ds_identity_hub_rs.Hub.Admin.{decided, is_moved, decide_holder}
use ds_identity_hub_rs.Issuer.Process.{
  ProcessState, state_eq, is_active, is_terminal, IssuanceProcess, transition,
}
use ds_identity_hub_rs.Issuer.Process
use ds_identity_hub_rs.Issuer.Holders
use ds_identity_hub_rs.Issuer.Holders.{Holder, HolderStatus}
use ds_identity_hub_rs.Issuer.Issued.{IssuedCredential}
use ds_identity_hub_rs.Hub.Delivery.{started, finish_process}
use ds_identity_hub_rs.State.Requests
use ds_identity_hub_rs.State.Requests.{RequestTable}
use mathlib.Core.Option

-- One step of an issuance process, as the handlers make them.
pub data Step : IssuanceProcess → IssuanceProcess → Type 0 where
  stays : (p : IssuanceProcess) → Step p p
  -- the operator's decisions
  approves :
      (p : IssuanceProcess) (now : ℕ)
      → p.state ≡ Process.submitted
      → Step p (transition p Process.approved now)
  rejects_waiting :
      (p : IssuanceProcess) (now : ℕ)
      → p.state ≡ Process.submitted
      → Step p (transition p Process.rejected now)
  rejects_queued :
      (p : IssuanceProcess) (now : ℕ)
      → p.state ≡ Process.approved
      → p.delivery_started ≡ false
      → Step p (transition p Process.rejected now)
  -- the delivery
  claims : (p : IssuanceProcess) → p.state ≡ Process.approved → Step p (started p)
  finishes :
      (p : IssuanceProcess) (outcome : Result (List IssuedCredential) String) (now : ℕ)
      → p.state ≡ Process.approved
      → p.delivery_started ≡ true
      → Step p (finish_process outcome now p)

-- A decision is either of these.
pub data IsDecision : HolderStatus → ProcessState → Type 0 where
  approval : IsDecision Holders.approved Process.approved
  rejection : IsDecision Holders.rejected Process.rejected

waiting :
    (p : IssuanceProcess) (holder_id : String)
    → is_moved holder_id Process.approved p ≡ true
    → p.state ≡ Process.submitted
unfolding is_moved
waiting p holder_id e = ground arith

stoppable :
    (p : IssuanceProcess) (holder_id : String)
    → is_moved holder_id Process.rejected p ≡ true
    → (p.state ≡ Process.submitted) ⊎ ((p.state ≡ Process.approved) × (p.delivery_started ≡ false))
unfolding is_moved
stoppable p holder_id e = ground arith

moved :
    (holder_id : String) (next : ProcessState) (now : ℕ) (p : IssuanceProcess)
    → is_moved holder_id next p ≡ true
    → transition p next now ≡ decided holder_id next now p
unfolding decided
moved holder_id next now p e = rw (e, decided)

unmoved :
    (holder_id : String) (next : ProcessState) (now : ℕ) (p : IssuanceProcess)
    → is_moved holder_id next p ≡ false
    → p ≡ decided holder_id next now p
unfolding decided
unmoved holder_id next now p e = rw (e, decided)

rejected-Step :
    (p : IssuanceProcess) (now : ℕ)
    → (p.state ≡ Process.submitted) ⊎ ((p.state ≡ Process.approved) × (p.delivery_started ≡ false))
    → Step p (transition p Process.rejected now)
rejected-Step p now (inl e) = rejects_waiting p now e
rejected-Step p now (inr (e, f)) = rejects_queued p now e f

-- Every decision moves every process by a step of the life cycle.
pub decided-Step :
    (holder_id : String) (next : ProcessState) (now : ℕ) (s : HolderStatus) (p : IssuanceProcess)
    → IsDecision s next
    → Step p (decided holder_id next now p)
decided-Step holder_id _ now _ p approval =
    elim (Bool-cases (is_moved holder_id Process.approved p)) [
      | inl e ↦
          subst (Step p) (moved holder_id Process.approved now p e)
            (approves p now (waiting p holder_id e))
      | inr e ↦ subst (Step p) (unmoved holder_id Process.approved now p e) (stays p)
    ]
decided-Step holder_id _ now _ p rejection =
    elim (Bool-cases (is_moved holder_id Process.rejected p)) [
      | inl e ↦
          subst (Step p) (moved holder_id Process.rejected now p e)
            (rejected-Step p now (stoppable p holder_id e))
      | inr e ↦ subst (Step p) (unmoved holder_id Process.rejected now p e) (stays p)
    ]

-- What holds of a process at every time: only a claimed one is delivered or fails, and a rejected
-- one was never claimed.
pub record IsConsistent (p : IssuanceProcess) : Type 0 where
  pub waits : p.state ≡ Process.submitted → p.delivery_started ≡ false
  pub delivers : p.state ≡ Process.delivered → p.delivery_started ≡ true
  pub fails : p.state ≡ Process.errored → p.delivery_started ≡ true
  pub rejects : p.state ≡ Process.rejected → p.delivery_started ≡ false

pub Step-IsConsistent : (p q : IssuanceProcess) → Step p q → IsConsistent p → IsConsistent q
unfolding transition finish_process
Step-IsConsistent p _ (stays _) h = h
Step-IsConsistent p _ (approves _ now e) h = record {
  waits = λ z. cc;
  delivers = λ z. cc;
  fails = λ z. cc;
  rejects = λ z. cc;
}
Step-IsConsistent p _ (rejects_waiting _ now e) h = record {
  waits = λ z. cc;
  delivers = λ z. cc;
  fails = λ z. cc;
  rejects = λ z. h.waits e;
}
Step-IsConsistent p _ (rejects_queued _ now e f) h = record {
  waits = λ z. cc;
  delivers = λ z. cc;
  fails = λ z. cc;
  rejects = λ z. f;
}
Step-IsConsistent p _ (claims _ e) h = record {
  waits = λ z. cc;
  delivers = λ z. refl;
  fails = λ z. refl;
  rejects = λ z. cc;
}
Step-IsConsistent p _ (finishes _ (ok rs) now e f) h = record {
  waits = λ z. cc;
  delivers = λ z. f;
  fails = λ z. f;
  rejects = λ z. cc;
}
Step-IsConsistent p _ (finishes _ (err m) now e f) h = record {
  waits = λ z. cc;
  delivers = λ z. f;
  fails = λ z. f;
  rejects = λ z. cc;
}

module _ (x : External) (s : AppState x) (holder_id : String) (now : ℕ) where
  decide_found :
      (decision : HolderStatus) (next : ProcessState) (h : Holder)
      → Holders.get s.holders holder_id ≡ some h
      → (decide_holder x s holder_id decision next now).0.requests
        ≡ Requests.modify_all s.requests (decided holder_id next now)
  unfolding decide_holder
  decide_found decision next h e = rw (e, decide_holder)

  decide_missing :
      (decision : HolderStatus) (next : ProcessState)
      → Holders.get s.holders holder_id ≡ none
      → (decide_holder x s holder_id decision next now).0 ≡ s
  unfolding decide_holder
  decide_missing decision next e = rw (e, decide_holder)

  -- A decision of the operator on a holder, known or not, keeps every process in the table and
  -- moves it by one step of the life cycle or none.
  pub decide_holder-Step :
      (decision : HolderStatus) (next : ProcessState) (id : String) (p : IssuanceProcess)
      → IsDecision decision next
      → Requests.get s.requests id ≡ some p
      → (q : IssuanceProcess) × (Requests.get
            (decide_holder x s holder_id decision next now).0.requests
            id
          ≡ some q)
        × Step p q
  decide_holder-Step decision next id p d e =
      elim (Option-cases (Holders.get s.holders holder_id)) [
        | inl missing ↦ (p, rw (decide_missing decision next missing) e, stays p)
        | inr (h, found) ↦ (
          decided holder_id next now p,
          rw (decide_found decision next h found) (
              unfold Requests.get Requests.modify_all in
              get-modify_all id (decided holder_id next now) s.requests.records
              ∙ ap (Option.map (decided holder_id next now)) (unfold Requests.get in e)),
          decided-Step holder_id next now decision p d,
        )
      ]

-- A decision leaves alone a process in a final state, a process of another holder, and a claimed
-- process that does not wait for approval.
pub decided-final :
    (holder_id : String) (next : ProcessState) (now : ℕ) (p : IssuanceProcess)
    → (is_terminal p.state ≡ true → decided holder_id next now p ≡ p)
      × ((p.holder_id == holder_id) ≡ false → decided holder_id next now p ≡ p)
      × (p.delivery_started ≡ true
          → state_eq p.state Process.submitted ≡ false
          → decided holder_id next now p ≡ p)
unfolding decided is_moved is_terminal is_active
decided-final holder_id next now p = ground arith

-- ===== src/Hub/Delivery/Runs.antt =====
-- The operator's decisions and the deliveries in any order, as the handlers make them on the table
-- (crates/identity-hub-http/src/{handlers,admin}.rs).
use ds_identity_hub_rs.Common.{
  ℕ, String, ◌≡◌, refl, sym, ap, ◌∙◌, inl, inr, true, false, Option, none, some, List, [], ◌∷◌,
  arith, ◌==◌, eq_iff, eq_refl, if◌then◌else◌, Bool-cases, Option-cases, some-injective, is_some,
  Result,
}
use ds_identity_hub_rs.Common.Assoc.{has}
use ds_identity_hub_rs.Common.Assoc.Laws.{get-modify, get-modify_all}
use ds_identity_hub_rs.Hub.Admin.{decided}
use ds_identity_hub_rs.Hub.Admin.Decisions.{IsDecision, IsConsistent}
use ds_identity_hub_rs.Hub.Delivery.{claim, started, finish_process}
use ds_identity_hub_rs.Hub.Delivery.Outcome.{claim-none, claim-some}
use ds_identity_hub_rs.Issuer.Process.{
  ProcessState, state_eq, is_terminal, is_active, IssuanceProcess,
}
use ds_identity_hub_rs.Issuer.Process
use ds_identity_hub_rs.Issuer.Holders.{HolderStatus}
use ds_identity_hub_rs.Issuer.Issued.{IssuedCredential}
use ds_identity_hub_rs.State.Requests
use ds_identity_hub_rs.State.Requests.{RequestTable}
use mathlib.Core.Option

abbrev pub drop_id : String → List String → List String
drop_id id [] = []
drop_id id (j ∷ js) = if j == id then drop_id id js else j ∷ drop_id id js

-- One step on the table, with the ids whose delivery runs. A process is delivered by one task, so
-- no second delivery begins while one runs; whether the process is still approved is the test of
-- `claim`.
pub data Move : RequestTable × List String → RequestTable × List String → Type 0 where
  decides :
      (t : RequestTable) (running : List String) (holder_id : String) (s : HolderStatus)
      (next : ProcessState) (now : ℕ)
      → IsDecision s next
      → Move (t, running) (Requests.modify_all t (decided holder_id next now), running)
  begins :
      (t t' : RequestTable) (running : List String) (id : String) (p : IssuanceProcess)
      → has id running ≡ false
      → claim t id ≡ (t', some p)
      → Move (t, running) (t', id ∷ running)
  declines :
      (t t' : RequestTable) (running : List String) (id : String)
      → claim t id ≡ (t', none)
      → Move (t, running) (t', running)
  ends :
      (t : RequestTable) (running : List String) (id : String)
      (outcome : Result (List IssuedCredential) String) (now : ℕ)
      → has id running ≡ true
      → Move (t, running) (Requests.modify t id (finish_process outcome now), drop_id id running)

pub data Run : RequestTable × List String → RequestTable × List String → Type 0 where
  done : (s : RequestTable × List String) → Run s s
  then_moves : (s u v : RequestTable × List String) → Move s u → Run u v → Run s v

-- Every process is consistent, and one whose delivery runs is approved and claimed.
abbrev pub IsSound : RequestTable × List String → Type 0
IsSound (t, running) =
    (id : String) (p : IssuanceProcess)
    → Requests.get t id ≡ some p
    → IsConsistent p
      × (has id running ≡ true → (p.state ≡ Process.approved) × (p.delivery_started ≡ true))

pub mapped {ℓ} :
    {A : Type ℓ} (f : A → A) (o : Option A) {b : A}
    → Option.map f o ≡ some b
    → (a : A) × (o ≡ some a) × (f a ≡ b)
mapped f none h = cc
mapped f (some a) h = (a, refl, some-injective h)

pub held_all :
    (t : RequestTable) (f : IssuanceProcess → IssuanceProcess) (id : String)
    → Requests.get (Requests.modify_all t f) id ≡ Option.map f (Requests.get t id)
unfolding Requests.get Requests.modify_all
held_all t f id = get-modify_all id f t.records

pub held_same :
    (t : RequestTable) (f : IssuanceProcess → IssuanceProcess) (id : String)
    → Requests.get (Requests.modify t id f) id ≡ Option.map f (Requests.get t id)
unfolding Requests.get Requests.modify
held_same t f id = get-modify id id f t.records ∙ ground (arith, eq_refl id)

pub held_other :
    (t : RequestTable) (f : IssuanceProcess → IssuanceProcess) (k id : String)
    → (k == id) ≡ false
    → Requests.get (Requests.modify t k f) id ≡ Requests.get t id
unfolding Requests.get Requests.modify
held_other t f k id e = get-modify k id f t.records ∙ ground (arith, e)

claim-missing : (t : RequestTable) (id : String) → Requests.get t id ≡ none → claim t id ≡ (t, none)
unfolding claim
claim-missing t id e = rw (e, claim)

pub claimed :
    (t t' : RequestTable) (id : String) (c : IssuanceProcess)
    → claim t id ≡ (t', some c)
    → (p : IssuanceProcess) × (Requests.get t id ≡ some p)
      × (p.state ≡ Process.approved)
      × (Requests.modify t id started ≡ t')
claimed t t' id c h = elim (Option-cases (Requests.get t id)) [
  | inl e ↦ absurd (
      ground (
        arith,
        ap (λ (r : RequestTable × Option IssuanceProcess). is_some (r.1))
            (sym (claim-missing t id e) ∙ h),
      ))
  | inr (p, e) ↦ elim (Bool-cases (state_eq p.state Process.approved)) [
    | inr f ↦ absurd (
        ground (
          arith,
          ap (λ (r : RequestTable × Option IssuanceProcess). is_some (r.1))
              (sym (claim-none t id p e f) ∙ h),
        ))
    | inl f ↦
        let approved : p.state ≡ Process.approved = ground (arith, f) in
        (
          p,
          e,
          approved,
          ap (λ (r : RequestTable × Option IssuanceProcess). r.0)
              (sym (claim-some t id p e approved) ∙ h),
        )
  ]
]

pub declined : (t t' : RequestTable) (id : String) → claim t id ≡ (t', none) → t ≡ t'
declined t t' id h = elim (Option-cases (Requests.get t id)) [
  | inl e ↦ ap (λ (r : RequestTable × Option IssuanceProcess). r.0) (sym (claim-missing t id e) ∙ h)
  | inr (p, e) ↦ elim (Bool-cases (state_eq p.state Process.approved)) [
    | inr f ↦
        ap (λ (r : RequestTable × Option IssuanceProcess). r.0) (sym (claim-none t id p e f) ∙ h)
    | inl f ↦
        let approved : p.state ≡ Process.approved = ground (arith, f) in
        absurd (
          ground (
            arith,
            ap (λ (r : RequestTable × Option IssuanceProcess). is_some (r.1))
                (sym (claim-some t id p e approved) ∙ h),
          ))
  ]
]

pub has-drop_same : (id : String) (js : List String) → has id (drop_id id js) ≡ false
has-drop_same id [] = refl
has-drop_same id (j ∷ js) = ground (arith, has-drop_same id js)

pub has-drop_other :
    (k id : String) (js : List String) → (k == id) ≡ false → has id (drop_id k js) ≡ has id js
has-drop_other k id [] e = refl
has-drop_other k id (j ∷ js) e =
    ground (arith, has-drop_other k id js e, eq_iff j k, eq_iff j id, eq_iff k id, e)

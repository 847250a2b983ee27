-- ===== src/Hub/Issuance/Governed.antt =====
-- What the Credential Request API starts, and for whom.
use ds_identity_hub_rs.Common.{
  ℕ, ◌+◌, ◌≤◌, ◌<◌, String, ◌≡◌, refl, sym, subst, ◌⊎◌, inl, inr, Bool, false, ◌&&◌, ◌||◌, some,
  List, [], ◌∷◌, ◌++◌, arith, leb, Bool-cases, Option-cases, some-injective, length, length-append,
  >>=-eq-ok, map_err-eq-ok, ok-injective, ok,
}
use ds_identity_hub_rs.Common.Assoc.{values}
use ds_identity_hub_rs.Common.Json.{Value}
use ds_identity_hub_rs.Messages.{CredentialRequestMessage}
use ds_identity_hub_rs.External.{External}
use ds_identity_hub_rs.Hub.{AppState}
use ds_identity_hub_rs.Tests.{holder}
use ds_identity_hub_rs.Issuer.Process.{ProcessState, state_eq, IssuanceProcess}
use ds_identity_hub_rs.Issuer.Process
use ds_identity_hub_rs.Issuer.Holders.{Holder, HolderStatus}
use ds_identity_hub_rs.Issuer.Holders
use ds_identity_hub_rs.State.Requests.Pending.{count, waits, waits_of, pending_counts-count}
use ds_identity_hub_rs.State.Requests
use ds_identity_hub_rs.State.Requests.{RequestTable}
use ds_identity_hub_rs.State.Requests.Room.{IsTracked}
use ds_identity_hub_rs.State.Requests.Retention.{insert-IsFull_iff}
use ds_identity_hub_rs.Hub.Issuance.{
  requested_ids, first_state, admit, over_caps, new_process, start_process, max_request_credentials,
}

-- The loop over the ids of a request keeps at most one more than the limit.
pub requested_ids-bound :
    (seen ids : List String)
    → length seen ≤ max_request_credentials
    → length (requested_ids seen ids) ≤ max_request_credentials + 1
unfolding requested_ids
requested_ids-bound seen [] h = omega arith
requested_ids-bound seen (id ∷ ids) h = ground (
  arith,
  length-append seen (id ∷ []),
  requested_ids-bound seen ids,
  requested_ids-bound (seen ++ id ∷ []) ids,
)

-- The state that a process starts in: an approved holder's is approved, a pending holder's waits.
abbrev pub StartsIn : HolderStatus → ProcessState → Type 0
StartsIn h q =
    ((h ≡ Holders.approved) × (q ≡ Process.approved))
    ⊎ ((h ≡ Holders.pending) × (q ≡ Process.submitted))

-- Fewer than 8 processes of the holder wait for approval, and fewer than 1024 in all.
abbrev pub AreBelowCaps : RequestTable → String → Type 0
AreBelowCaps t holder_id =
    (count (waits_of holder_id) (values t.records) < 8) × (count waits (values t.records) < 1024)

first_state-StartsIn : (h : HolderStatus) {q : ProcessState} → first_state h ≡ some q → StartsIn h q
unfolding first_state
first_state-StartsIn Holders.approved e = inl (refl, sym (some-injective e))
first_state-StartsIn Holders.pending e = inr (refl, sym (some-injective e))
first_state-StartsIn Holders.rejected e = cc

module _ (x : External) where
  below :
      (b : Bool) (q : ProcessState)
      → q ≡ Process.submitted
      → (state_eq q Process.submitted && b) ≡ false
      → b ≡ false
  below b q e h = rw e at h

  admit-held :
      (s : AppState x) (p : IssuanceProcess)
      → IsTracked s.requests
      → (admit x s p).1 ≡ ok tt
      → (Requests.get (admit x s p).0.requests p.id ≡ some p)
        × (p.state ≡ Process.submitted → over_caps x s.requests p.holder_id ≡ false)
  unfolding admit
  admit-held s p t e =
      elim (Bool-cases (state_eq p.state Process.submitted && over_caps x s.requests p.holder_id)) [
        | inl h ↦ cc (rw (h, admit) at e)
        | inr h ↦
            let inserted =
              map_err-eq-ok _ (Requests.insert s.requests p.id p).1 (rw (h, admit) at e) in
            (
              rw (h, admit) ((insert-IsFull_iff s.requests p.id p t).2 inserted),
              λ waits. below (over_caps x s.requests p.holder_id) p.state waits h,
            )
      ]

  over_caps-AreBelowCaps :
      (t : RequestTable) (holder_id : String)
      → over_caps x t holder_id ≡ false
      → AreBelowCaps t holder_id
  over_caps-AreBelowCaps t holder_id h =
      let counted = pending_counts-count t holder_id in
      let h' = subst (λ (c : ℕ × ℕ). (leb 8 (c.0) || leb 1024 (c.1)) ≡ false) counted h in
      (ground (arith, h'), ground (arith, h'))

  -- A process started on a well-formed table is held under its id, is approved for an approved
  -- holder and waits for a pending one, and there is none for a rejected holder; it names the
  -- holder and the requested definitions, and waits for approval only while fewer than 8 processes
  -- of the holder and fewer than 1024 in all wait.
  pub start_process-held :
      (s : AppState x) (message : CredentialRequestMessage) (claims : Value) (holder : Holder)
      (ids : List String) (holder_did process_id : String) (now : ℕ) (p : IssuanceProcess)
      → IsTracked s.requests
      → (start_process x s message claims holder ids holder_did process_id now).1 ≡ ok p
      → (Requests.get
            (start_process x s message claims holder ids holder_did process_id now).0.requests
            process_id
          ≡ some p)
        × StartsIn holder.status p.state
        × (p.holder_id ≡ holder.holder_id)
        × (p.credential_definitions ≡ ids)
        × (p.state ≡ Process.submitted → AreBelowCaps s.requests holder.holder_id)
  unfolding start_process
  start_process-held s message claims holder ids holder_did process_id now p t e =
      elim (Option-cases (first_state holder.status)) [
        | inl f ↦ cc (rw (f, start_process) at e)
        | inr (state, f) ↦
            let process = new_process x message claims holder state ids holder_did process_id now in
            let admitted = rw (f, start_process) at e in
            let (_, a, same) = >>=-eq-ok (admit x s process).1 (λ _. ok process) admitted in
            let p_is : process ≡ p = ok-injective same in
            let (held, caps) = admit-held s process t a in
            subst
              (λ (q : IssuanceProcess).
                (Requests.get
                    (start_process x s message claims holder ids holder_did process_id
                      now).0.requests
                    process_id
                  ≡ some q)
                × StartsIn holder.status q.state
                × (q.holder_id ≡ holder.holder_id)
                × (q.credential_definitions ≡ ids)
                × (q.state ≡ Process.submitted → AreBelowCaps s.requests holder.holder_id))
              p_is
              (
                rw (f, start_process) held,
                first_state-StartsIn holder.status f,
                refl,
                refl,
                λ waits. over_caps-AreBelowCaps s.requests holder.holder_id (caps waits),
              )
      ]

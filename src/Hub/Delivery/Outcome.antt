-- ===== src/Hub/Delivery/Outcome.antt =====
-- What a delivery leaves behind.
use ds_identity_hub_rs.Common.{
  ℕ, String, ◌≡◌, refl, ap, ◌∙◌, ◌⊎◌, inl, inr, false, Option, none, some, List, [], ◌∷◌, arith,
  ◌==◌, eq_refl, if◌then◌else◌, Option-cases, length, Result, Result-cases, ok, err,
}
use ds_identity_hub_rs.Common.Assoc.{Assoc, get, insert, modify}
use ds_identity_hub_rs.Common.Assoc.Laws.{get-insert, get-modify}
use ds_identity_hub_rs.External.{External}
use ds_identity_hub_rs.Hub.{AppState}
use ds_identity_hub_rs.Issuer.Process.{ProcessState, state_eq, IssuanceProcess}
use ds_identity_hub_rs.Issuer.Process
use ds_identity_hub_rs.Issuer.Issued.{IssuedCredential, IssuedCredentials}
use ds_identity_hub_rs.Issuer.Definitions.{CredentialDefinition}
use ds_identity_hub_rs.Hub.Delivery.Posted.{IsPosted, attempt-IsPosted}
use ds_identity_hub_rs.Issuer.Issued
use ds_identity_hub_rs.Common.Assoc
use ds_identity_hub_rs.Issuer.StatusList
use ds_identity_hub_rs.State.Requests
use ds_identity_hub_rs.State.Requests.{RequestTable}
use ds_identity_hub_rs.Hub.Delivery.{
  DeliveryJob, Batch, claim, started, release_index, release_all, finish_process, mint_all, attempt,
  finish, try_deliver_issued_credential, deliver_issued_credential, definitions_of,
  delivery_endpoint, job_of, insert_all,
}

release_all-records :
    (issued : IssuedCredentials) (indexes : List ℕ)
    → (release_all issued indexes).records ≡ issued.records
unfolding release_all release_index
release_all-records issued [] = refl
release_all-records issued (i ∷ is) = release_all-records (release_index issued i) is

pub claim-none :
    (t : RequestTable) (id : String) (p : IssuanceProcess)
    → Requests.get t id ≡ some p
    → state_eq p.state Process.approved ≡ false
    → claim t id ≡ (t, none)
unfolding claim
claim-none t id p e f = rw (e, claim, f)

pub claim-some :
    (t : RequestTable) (id : String) (p : IssuanceProcess)
    → Requests.get t id ≡ some p
    → p.state ≡ Process.approved
    → claim t id ≡ (Requests.modify t id started, some (started p))
unfolding claim
claim-some t id p e f = rw (e, claim, f)

held_started :
    (t : RequestTable) (id : String) (p : IssuanceProcess)
    → Requests.get t id ≡ some p
    → Requests.get (Requests.modify t id started) id ≡ some (started p)
unfolding Requests.get Requests.modify
held_started t id p e = get-modify id id started t.records ∙ ground (arith, eq_refl id, e)

-- The newest record of the list with this id, or the one that was there.
abbrev pub latest :
    String → List IssuedCredential → Option IssuedCredential → Option IssuedCredential
latest k [] before = before
latest k (r ∷ rs) before = latest k rs (if r.id == k then some r else before)

insert_all-latest :
    (issued : IssuedCredentials) (rs : List IssuedCredential) (k : String)
    → Issued.get (insert_all issued rs) k ≡ latest k rs (Issued.get issued k)
unfolding insert_all Issued.insert Issued.get
insert_all-latest issued [] k = refl
insert_all-latest issued (r ∷ rs) k =
    insert_all-latest (Issued.insert issued r) rs k
    ∙ ap (latest k rs) (get-insert r.id k r issued.records)

module _ (x : External) where
  mint_all-records :
      (job : DeliveryJob) (ds : List CredentialDefinition) (s : AppState x) (uuid : ℕ → String)
      (now : ℕ) (b : Batch)
      → ((mint_all x s job ds uuid now b).0.issued.records ≡ s.issued.records)
        × ((mint_all x s job ds uuid now b).0.requests ≡ s.requests)
  unfolding mint_all
  mint_all-records job [] s uuid now b = (refl, refl)
  mint_all-records job (d ∷ ds) s uuid now b =
      elim (Option-cases (StatusList.allocate s.issued.status_list).1) [
        | inl e ↦ rw (e, mint_all) (refl, refl)
        | inr (index, e) ↦ rw (e, mint_all) (mint_all-records job ds _ uuid now _)
      ]

  -- Neither the records nor the processes change before the last step.
  abbrev Untouched : AppState x → AppState x → Type 0
  Untouched s s' = (s'.issued.records ≡ s.issued.records) × (s'.requests ≡ s.requests)

  try_deliver-Untouched :
      (s : AppState x) (job : DeliveryJob) (uuid : ℕ → String) (now : ℕ) (jti : String)
      → Untouched s (try_deliver_issued_credential x s job uuid now jti).0
  unfolding try_deliver_issued_credential
  try_deliver-Untouched s job uuid now jti =
      elim (Result-cases (delivery_endpoint x s job.holder_did)) [
        | inl (endpoint, e) ↦
            rw (e, try_deliver_issued_credential)
              (mint_all-records job job.definitions s uuid now _)
        | inr (m, e) ↦ rw (e, try_deliver_issued_credential) (refl, refl)
      ]

  attempt-Untouched :
      (s : AppState x) (p : IssuanceProcess) (uuid : ℕ → String) (now : ℕ) (jti : String)
      → Untouched s (attempt x s p uuid now jti).0
  unfolding attempt
  attempt-Untouched s p uuid now jti =
      elim (Result-cases (definitions_of s.definitions p.credential_definitions)) [
        | inr (m, e) ↦ rw (e, attempt) (refl, refl)
        | inl (ds, e) ↦
            let (records, requests) = try_deliver-Untouched s (job_of x p ds) uuid now jti in
            let tried = try_deliver_issued_credential x s (job_of x p ds) uuid now jti in
            elim (Result-cases tried.2) [
              | inl (rs, f) ↦ rw (e, attempt, f) (records, requests)
              | inr (m, f) ↦
                  rw (e, attempt, f)
                    (release_all-records tried.0.issued tried.1 ∙ records, requests)
            ]
      ]

  -- How a delivery ends, by the outcome of its attempt: the process is delivered, the holder's
  -- service took the message, and the records are those of before with one more for each
  -- definition; or it failed with the reason and the records are those of before.
  abbrev pub Ended :
      AppState x
      → AppState x
      → IssuanceProcess
      → Result (List IssuedCredential) String
      → IssuanceProcess
      → Type 0
  Ended s s' p outcome q =
      ((rs : List IssuedCredential) × (outcome ≡ ok rs)
        × (q.state ≡ Process.delivered)
        × (q.error_detail ≡ none)
        × IsPosted x p.id
        × (length rs ≡ length p.credential_definitions)
        × ((k : String) → Issued.get s'.issued k ≡ latest k rs (Issued.get s.issued k)))
      ⊎ ((reason : String) × (outcome ≡ err reason)
          × (q.state ≡ Process.errored)
          × (q.error_detail ≡ some reason)
          × (s'.issued.records ≡ s.issued.records))

  finish-Ended :
      (s s0 : AppState x) (id : String) (p : IssuanceProcess)
      (outcome : Result (List IssuedCredential) String) (now : ℕ)
      → Requests.get s.requests id ≡ some p
      → s.issued.records ≡ s0.issued.records
      → ((rs : List IssuedCredential)
          → outcome ≡ ok rs
          → IsPosted x p.id × (length rs ≡ length p.credential_definitions))
      → (q : IssuanceProcess) × (Requests.get (finish x s id outcome now).requests id ≡ some q)
        × Ended s0 (finish x s id outcome now) p outcome q
  unfolding finish finish_process Requests.get Requests.modify
  finish-Ended s s0 id p (ok rs) now e same posted = (
    finish_process (ok rs) now p,
    get-modify id id (finish_process (ok rs) now) s.requests.records
        ∙ ground (arith, eq_refl id, e),
    inl (
      rs,
      refl,
      refl,
      refl,
      (posted rs refl).0,
      (posted rs refl).1,
      λ k.
          insert_all-latest s.issued rs k
          ∙ ap (latest k rs) (unfold Issued.get in ap (Assoc.get k) same),
    ),
  )
  finish-Ended s s0 id p (err m) now e same posted = (
    finish_process (err m) now p,
    get-modify id id (finish_process (err m) now) s.requests.records
        ∙ ground (arith, eq_refl id, e),
    inr (m, refl, refl, refl, same),
  )

  deliver_claimed :
      (s : AppState x) (id : String) (t : RequestTable) (p : IssuanceProcess) (uuid : ℕ → String)
      (now : ℕ) (jti : String)
      → claim s.requests id ≡ (t, some p)
      → deliver_issued_credential x s id uuid now jti
        ≡ finish x
            (attempt x (record s { requests = t }) p uuid now jti).0
            id
            (attempt x (record s { requests = t }) p uuid now jti).1
            now
  unfolding deliver_issued_credential
  deliver_claimed s id t p uuid now jti e =
      rw (e, deliver_issued_credential)
        (ap
          (λ (c : RequestTable × Option IssuanceProcess).
            finish x (attempt x (record s { requests = c.0 }) p uuid now jti).0 id
              (attempt x (record s { requests = c.0 }) p uuid now jti).1 now)
          e)

  -- The delivery of an approved process always ends by the outcome of its attempt: on a success
  -- the process is delivered, the holder's service answered a message for it with a status from
  -- 200 to 299, and the records have one more for each requested definition and are otherwise as
  -- before; on a failure it is in error with the failure's reason and the records are as they
  -- were.
  pub deliver-Ended :
      (s : AppState x) (id : String) (p : IssuanceProcess) (uuid : ℕ → String) (now : ℕ)
      (jti : String)
      → Requests.get s.requests id ≡ some p
      → p.state ≡ Process.approved
      → (q : IssuanceProcess) × (Requests.get
            (deliver_issued_credential x s id uuid now jti).requests
            id
          ≡ some q)
        × Ended s
            (deliver_issued_credential x s id uuid now jti)
            p
            (attempt x
              (record s { requests = Requests.modify s.requests id started })
              (started p)
              uuid
              now
              jti).1
            q
  deliver-Ended s id p uuid now jti e approved =
      let s1 = record s { requests = Requests.modify s.requests id started } in
      let tried = attempt x s1 (started p) uuid now jti in
      let (records, requests) = attempt-Untouched s1 (started p) uuid now jti in
      rw
        (deliver_claimed s id (Requests.modify s.requests id started) (started p) uuid now jti
          (claim-some s.requests id p e approved))
        (finish-Ended tried.0 s id (started p) tried.1 now
          (ap (λ r. Requests.get r id) requests ∙ held_started s.requests id p e) records
          (λ rs h. attempt-IsPosted x s1 (started p) uuid now jti h))

  -- The delivery of a process that is not approved changes nothing.
  pub deliver-unapproved :
      (s : AppState x) (id : String) (p : IssuanceProcess) (uuid : ℕ → String) (now : ℕ)
      (jti : String)
      → Requests.get s.requests id ≡ some p
      → state_eq p.state Process.approved ≡ false
      → deliver_issued_credential x s id uuid now jti ≡ s
  unfolding deliver_issued_credential
  deliver-unapproved s id p uuid now jti e f =
      rw (claim-none s.requests id p e f, deliver_issued_credential)

-- ===== src/Hub/Delivery/Posted.antt =====
-- What a successful attempt at a delivery has done.
use ds_identity_hub_rs.Common.{
  ℕ, suc, ◌+◌, ◌≤◌, ◌<◌, String, ◌≡◌, refl, sym, ap, ◌∙◌, inl, inr, true, List, [], ◌∷◌, ◌++◌,
  arith, Option-cases, length, length-append, ◌>>=◌, guard, ok_or, >>=-eq-ok, Result-cases,
  ok-injective, guard-eq-ok, ok,
}
use ds_identity_hub_rs.Messages.{CredentialMessage}
use ds_identity_hub_rs.External.{External}
use ds_identity_hub_rs.Hub.{AppState}
use ds_identity_hub_rs.Issuer.Process.{IssuanceProcess}
use ds_identity_hub_rs.Issuer.Issued.{IssuedCredential}
use ds_identity_hub_rs.Issuer.Definitions.{CredentialDefinition, DefinitionCatalog}
use ds_identity_hub_rs.Issuer.Definitions
use ds_identity_hub_rs.Issuer.StatusList
use ds_identity_hub_rs.Hub.Delivery.{
  DeliveryJob, Batch, mint_all, attempt, try_deliver_issued_credential, definitions_of,
  delivery_endpoint, job_of, post, empty_batch,
}

longer :
    (rs : List IssuedCredential) (r : IssuedCredential) (n : ℕ)
    → length (rs ++ r ∷ []) + n ≡ length rs + suc n
longer rs r n = omega (arith, length-append rs (r ∷ []))

from_zero : (n : ℕ) → 0 + n ≡ n
from_zero n = omega arith

module _ (x : External) where
  -- The holder's service answered a request for this process with a success.
  abbrev pub IsPosted : String → Type 0
  IsPosted process_id =
      (endpoint : String) × (token : String) × (message : CredentialMessage) × (answer : ℕ)
      × (message.issuer_pid ≡ process_id)
      × (x.post_credentials endpoint token message ≡ ok answer)
      × (200 ≤ answer)
      × (answer < 300)

  definitions_of-length :
      (catalog : DefinitionCatalog) (ids : List String) {ds : List CredentialDefinition}
      → definitions_of catalog ids ≡ ok ds
      → length ds ≡ length ids
  unfolding definitions_of
  definitions_of-length catalog [] h = ap length (sym (ok-injective h))
  definitions_of-length catalog (id ∷ ids) h =
      let (d, e1, h1) = >>=-eq-ok (ok_or (Definitions.get catalog id) _) _ h in
      let (rest, e2, h2) = >>=-eq-ok (definitions_of catalog ids) _ h1 in
      ap length (sym (ok-injective h2)) ∙ ap suc (definitions_of-length catalog ids e2)

  mint_all-length :
      (job : DeliveryJob) (ds : List CredentialDefinition) (s : AppState x) (uuid : ℕ → String)
      (now : ℕ) (b : Batch)
      → (mint_all x s job ds uuid now b).2 ≡ true
      → length (mint_all x s job ds uuid now b).1.records ≡ length b.records + length ds
  unfolding mint_all
  mint_all-length job [] s uuid now b h = omega arith
  mint_all-length job (d ∷ ds) s uuid now b h =
      elim (Option-cases (StatusList.allocate s.issued.status_list).1) [
        | inl e ↦ cc (rw (e, mint_all) at h)
        | inr (index, e) ↦
            rw (e, mint_all)
              (mint_all-length job ds _ uuid now _ (rw (e, mint_all) at h)
                ∙ longer b.records _ (length ds))
      ]

  post-IsPosted :
      (s : AppState x) (job : DeliveryJob) (endpoint : String) (b : Batch) (now : ℕ) (jti : String)
      → post x s job endpoint b now jti ≡ ok tt
      → IsPosted job.process_id
  unfolding post
  post-IsPosted s job endpoint b now jti h =
      let (answer, e1, h1) = >>=-eq-ok (x.post_credentials endpoint _ _) _ h in
      (
        endpoint,
        _,
        _,
        answer,
        refl,
        e1,
        ground (arith, guard-eq-ok _ _ h1),
        ground (arith, guard-eq-ok _ _ h1),
      )

  try_deliver-IsPosted :
      (s : AppState x) (job : DeliveryJob) (uuid : ℕ → String) (now : ℕ) (jti : String)
      {rs : List IssuedCredential}
      → (try_deliver_issued_credential x s job uuid now jti).2 ≡ ok rs
      → IsPosted job.process_id × (length rs ≡ length job.definitions)
  unfolding try_deliver_issued_credential
  try_deliver-IsPosted s job uuid now jti h =
      elim (Result-cases (delivery_endpoint x s job.holder_did)) [
        | inr (m, e) ↦ cc (rw (e, try_deliver_issued_credential) at h)
        | inl (endpoint, e) ↦
            let minted = mint_all x s job job.definitions uuid now (empty_batch x) in
            let (_, a, h1) =
              >>=-eq-ok
                (guard (minted.2) _ >>= λ _. post x (minted.0) job endpoint (minted.1) now jti) _
                (rw (e, try_deliver_issued_credential) at h) in
            let (_, complete, posted) = >>=-eq-ok (guard (minted.2) _) _ a in
            (
              post-IsPosted (minted.0) job endpoint (minted.1) now jti posted,
              ap length (sym (ok-injective h1))
                  ∙ mint_all-length job job.definitions s uuid now (empty_batch x)
                      (guard-eq-ok _ _ complete)
                  ∙ from_zero (length job.definitions),
            )
      ]

  pub attempt-IsPosted :
      (s : AppState x) (p : IssuanceProcess) (uuid : ℕ → String) (now : ℕ) (jti : String)
      {rs : List IssuedCredential}
      → (attempt x s p uuid now jti).1 ≡ ok rs
      → IsPosted p.id × (length rs ≡ length p.credential_definitions)
  unfolding attempt
  attempt-IsPosted s p uuid now jti h =
      elim (Result-cases (definitions_of s.definitions p.credential_definitions)) [
        | inr (m, e) ↦ cc (rw (e, attempt) at h)
        | inl (ds, e) ↦
            elim (Result-cases (try_deliver_issued_credential x s (job_of x p ds) uuid now jti).2) [
              | inr (m, f) ↦ cc (rw (e, attempt, f) at h)
              | inl (rs, f) ↦
                  let (posted, same) = try_deliver-IsPosted s (job_of x p ds) uuid now jti f in
                  (
                    posted,
                    ap length (sym (ok-injective (rw (e, attempt, f) at h)))
                        ∙ same
                        ∙ definitions_of-length s.definitions p.credential_definitions e,
                  )
            ]
      ]

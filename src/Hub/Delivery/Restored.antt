-- ===== src/Hub/Delivery/Restored.antt =====
-- A failed attempt gives its indexes back (crates/identity-hub-http/src/handlers.rs).
use ds_identity_hub_rs.Common.{
  ℕ, ◌<◌, String, ◌≡◌, refl, sym, ◌∙◌, subst, inl, inr, true, false, some, List, [], ◌∷◌, ◌++◌,
  arith, eqb, if◌then◌else◌, Bool-cases, Option-cases, All, Result-cases, ok, err,
}
use ds_identity_hub_rs.External.{External}
use ds_identity_hub_rs.Hub.{AppState}
use ds_identity_hub_rs.Hub.Delivery.{
  DeliveryJob, Batch, definitions_of, release_index, release_all, mint_all, delivery_endpoint,
  try_deliver_issued_credential, job_of, attempt,
}
use ds_identity_hub_rs.Issuer.Process.{IssuanceProcess}
use ds_identity_hub_rs.Issuer.Definitions.{CredentialDefinition}
use ds_identity_hub_rs.Issuer.Issued.{IssuedCredentials}
use ds_identity_hub_rs.Issuer.StatusList.{StatusList, status_list_bits, allocate, is_set, release}
use ds_identity_hub_rs.Issuer.StatusList.Alloc.{
  mem, is_allocated, HasFree, allocate-is_allocated, release-is_allocated, allocate-bits,
  release-bits, is_set-bits,
}

mem-append : (j i : ℕ) (is : List ℕ) → mem j (is ++ i ∷ []) ≡ (if mem j is then true else eqb j i)
mem-append j i [] = ground arith
mem-append j i (k ∷ is) = ground (arith, mem-append j i is)

-- No index that is not given out is marked as revoked.
abbrev pub IsUnmarked : StatusList → Type 0
IsUnmarked l = (i : ℕ) → i < status_list_bits → is_allocated l i ≡ false → is_set l i ≡ some false

-- The list `l` is `before` with the indexes `taken` given out.
pub record Taken (before : StatusList) (taken : List ℕ) (l : StatusList) : Type 0 where
  pub bits : l.bits ≡ before.bits
  pub order : HasFree l
  pub given : (j : ℕ) → is_allocated l j ≡ (if mem j taken then true else is_allocated before j)
  pub was_free :
      (j : ℕ) → mem j taken ≡ true → (is_allocated before j ≡ false) × (j < status_list_bits)

none-Taken : (l : StatusList) → HasFree l → Taken l [] l
none-Taken l w = record {
  bits = refl;
  order = w;
  given = λ j. refl;
  was_free = λ j m. absurd (ground (arith, m));
}

allocate-Taken :
    (before l : StatusList) (taken : List ℕ) (i : ℕ)
    → Taken before taken l
    → (allocate l).1 ≡ some i
    → Taken before (taken ++ i ∷ []) (allocate l).0
allocate-Taken before l taken i t h =
    let (free, inside, given, order) = allocate-is_allocated l t.order i h in
    record {
      bits = allocate-bits l ∙ t.bits;
      order = order;
      given = λ j. ground (arith, given j, t.given j, mem-append j i taken);
      was_free = λ j m. elim (Bool-cases (mem j taken)) [
        | inl e ↦ t.was_free j e
        | inr e ↦
            let same : j ≡ i = ground (arith, mem-append j i taken, e, m) in
            subst (λ k. (is_allocated before k ≡ false) × (k < status_list_bits)) (sym same)
              (ground (arith, t.given i, free), inside)
      ];
    }

release_index-list :
    (issued : IssuedCredentials) (i : ℕ) (l : StatusList)
    → release issued.status_list i ≡ some l
    → release_index issued i ≡ record issued { status_list = l }
unfolding release_index
release_index-list issued i l h = rw h refl

release_all-Taken :
    (before : StatusList) (issued : IssuedCredentials) (indexes : List ℕ)
    → issued.status_list.bits ≡ before.bits
    → HasFree issued.status_list
    → All (λ i. is_set before i ≡ some false) indexes
    → ((j : ℕ)
        → is_allocated (release_all issued indexes).status_list j
          ≡ (if mem j indexes then false else is_allocated issued.status_list j))
      × ((release_all issued indexes).status_list.bits ≡ before.bits)
unfolding release_all
release_all-Taken before issued [] b w unset = (λ j. refl, b)
release_all-Taken before issued (i ∷ is) b w unset =
    let (l, released, given, order) =
      release-is_allocated issued.status_list w i false
        (is_set-bits issued.status_list before i b ∙ unset.0) in
    let step = release_index-list issued i l released in
    let (rest, bits) =
      release_all-Taken before (record issued { status_list = l }) is
        (release-bits issued.status_list i released ∙ b) order unset.1 in
    subst
      (λ (k : IssuedCredentials).
        ((j : ℕ)
          → is_allocated (release_all k is).status_list j
            ≡ (if mem j (i ∷ is) then false else is_allocated issued.status_list j))
        × ((release_all k is).status_list.bits ≡ before.bits))
      (sym step) ((λ j. rest j ∙ ground (arith, given j)), bits)

-- The same indexes are given out, and the same are marked as revoked.
abbrev pub IsRestored : StatusList → StatusList → Type 0
IsRestored before l = ((j : ℕ) → is_allocated l j ≡ is_allocated before j) × (l.bits ≡ before.bits)

taken-All :
    (before : StatusList) (taken : List ℕ)
    → ((j : ℕ) → mem j taken ≡ true → is_set before j ≡ some false)
    → All (λ i. is_set before i ≡ some false) taken
taken-All before [] h = tt
taken-All before (i ∷ is) h =
    (h i (ground arith), taken-All before is (λ j m. h j (ground (arith, m))))

Taken-IsRestored :
    (before : StatusList) (taken : List ℕ) (issued : IssuedCredentials)
    → IsUnmarked before
    → Taken before taken issued.status_list
    → IsRestored before (release_all issued taken).status_list
Taken-IsRestored before taken issued unmarked t =
    let unset = taken-All before taken (λ j m. unmarked j (t.was_free j m).1 (t.was_free j m).0) in
    let (given, bits) = release_all-Taken before issued taken t.bits t.order unset in
    (
      λ j. elim (Bool-cases (mem j taken)) [
        | inl e ↦ ground (arith, given j, t.was_free j e, e)
        | inr e ↦ ground (arith, given j, t.given j, e)
      ],
      bits,
    )

module _ (x : External) where
  mint_all-Taken :
      (before : StatusList) (job : DeliveryJob) (ds : List CredentialDefinition) (s : AppState x)
      (uuid : ℕ → String) (now : ℕ) (batch : Batch)
      → Taken before batch.allocated s.issued.status_list
      → let r = mint_all x s job ds uuid now batch in
        Taken before r.1.allocated r.0.issued.status_list
  unfolding mint_all
  mint_all-Taken before job [] s uuid now batch t = t
  mint_all-Taken before job (d ∷ ds) s uuid now batch t =
      elim (Option-cases (allocate s.issued.status_list).1) [
        | inl e ↦ rw (e, mint_all) t
        | inr (i, e) ↦
            rw (e, mint_all)
              (mint_all-Taken before job ds _ uuid now _
                (allocate-Taken before s.issued.status_list batch.allocated i t e))
      ]

  tried-Taken :
      (s : AppState x) (job : DeliveryJob) (uuid : ℕ → String) (now : ℕ) (jti : String)
      → HasFree s.issued.status_list
      → let r = try_deliver_issued_credential x s job uuid now jti in
        Taken s.issued.status_list r.1 r.0.issued.status_list
  unfolding try_deliver_issued_credential
  tried-Taken s job uuid now jti w = elim (Result-cases (delivery_endpoint x s job.holder_did)) [
    | inr (_, e) ↦ rw (e, try_deliver_issued_credential) (none-Taken s.issued.status_list w)
    | inl (endpoint, e) ↦
        rw (e, try_deliver_issued_credential)
          (mint_all-Taken s.issued.status_list job job.definitions s uuid now _
            (none-Taken s.issued.status_list w))
  ]

  -- An attempt at a delivery that fails, at whatever point, leaves the same indexes of the status
  -- list given out as before it and changes no bit, where the free indexes ascend below the next
  -- one and no index that is not given out is marked as revoked.
  pub attempt-IsRestored :
      (s : AppState x) (p : IssuanceProcess) (uuid : ℕ → String) (now : ℕ) (jti e : String)
      → HasFree s.issued.status_list
      → IsUnmarked s.issued.status_list
      → (attempt x s p uuid now jti).1 ≡ err e
      → IsRestored s.issued.status_list (attempt x s p uuid now jti).0.issued.status_list
  unfolding attempt
  attempt-IsRestored s p uuid now jti e w unmarked h =
      elim (Result-cases (definitions_of s.definitions p.credential_definitions)) [
        | inr (_, d) ↦ rw (d, attempt) ((λ j. refl), refl)
        | inl (definitions, d) ↦
            elim (Result-cases
              (try_deliver_issued_credential x s (job_of x p definitions) uuid now jti).2) [
                | inl (records, o) ↦
                    let shape : (attempt x s p uuid now jti).1 ≡ ok records =
                      rw (d, o, attempt) refl in
                    absurd (ground (arith, sym shape ∙ h))
                | inr (e', o) ↦
                    rw (d, o, attempt)
                      (Taken-IsRestored _ _ _ unmarked
                        (tried-Taken s (job_of x p definitions) uuid now jti w))
              ]
      ]

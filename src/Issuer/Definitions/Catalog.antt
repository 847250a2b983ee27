-- ===== src/Issuer/Definitions/Catalog.antt =====
-- What the checks on a definition establish, and the catalog's invariant.
use ds_identity_hub_rs.Common.{
  ℕ, zero, suc, ◌≤◌, ◌<◌, String, ◌≡◌, refl, ◌∙◌, inl, inr, Bool, true, false, not, ◌&&◌, ◌||◌,
  Option, none, some, [], ◌∷◌, ◌++◌, arith, ◌==◌, eq_iff, if◌then◌else◌, Option-cases, is_some,
  length, all, retain, All, length-append, length-retain-le, All-append, ok,
}
use ds_identity_hub_rs.Common.Json.{unwrap_or}
use ds_identity_hub_rs.Common.Text.{is_blank}
use mathlib.Core.Option
use ds_identity_hub_rs.Issuer.Definitions.{
  CredentialDefinition, CredentialDefinitionInput, DefinitionCatalog, ℤ, pos, negsuc,
  max_credential_definitions, format_vc1_0_jwt, valid_credential_type, parse_validity,
  into_definition, get, create, replace_first, update, remove,
}

-- What issuance relies on.
pub record IsIssuable (d : CredentialDefinition) : Type 0 where
  pub named : is_blank d.id ≡ false
  pub typed : valid_credential_type d.credential_type ≡ true
  pub signable : d.format ≡ format_vc1_0_jwt
  pub lasting : 0 < d.validity

parse_validity-pos : (v : Option ℤ) (n : ℕ) → parse_validity v ≡ ok n → 0 < n
unfolding parse_validity
parse_validity-pos none n e = ground arith
parse_validity-pos (some (pos zero)) n e = cc
parse_validity-pos (some (pos (suc k))) n e = ground arith
parse_validity-pos (some (negsuc k)) n e = cc

-- Every definition that the checks on an input let through has an id, a valid credential type, the
-- signable format and a positive validity, and keeps the input's id and type and the given date.
pub into_definition-IsIssuable :
    (input : CredentialDefinitionInput) (now : ℕ) (d : CredentialDefinition)
    → into_definition input now ≡ ok d
    → IsIssuable d
      × (d.id ≡ input.id)
      × (d.credential_type ≡ input.credential_type)
      × (d.created_at ≡ now)
unfolding into_definition
into_definition-IsIssuable input now d e =
    ground (arith, eq_iff (unwrap_or input.format format_vc1_0_jwt) format_vc1_0_jwt)

abbrev pub has_id : String → DefinitionCatalog → Bool
has_id id [] = false
has_id id (d ∷ ds) = d.id == id || has_id id ds

-- No two entries have one id, and there are at most as many as the cap.
abbrev pub HasDistinctIds : DefinitionCatalog → Type 0
HasDistinctIds [] = Unit {0}
HasDistinctIds (d ∷ ds) = (has_id d.id ds ≡ false) × HasDistinctIds ds

abbrev pub IsCatalog : DefinitionCatalog → Type 0
IsCatalog c = HasDistinctIds c × (length c ≤ max_credential_definitions) × All IsIssuable c

has_id-get : (id : String) (c : DefinitionCatalog) → has_id id c ≡ is_some (get c id)
unfolding get
has_id-get id [] = refl
has_id-get id (d ∷ ds) = ground (arith, has_id-get id ds)

has_id-append :
    (id : String) (c : DefinitionCatalog) (d : CredentialDefinition)
    → has_id id (c ++ d ∷ []) ≡ (has_id id c || d.id == id)
has_id-append id [] d = ground arith
has_id-append id (x ∷ c) d = ground (arith, has_id-append id c d)

append-HasDistinctIds :
    (c : DefinitionCatalog) (d : CredentialDefinition)
    → HasDistinctIds c
    → has_id d.id c ≡ false
    → HasDistinctIds (c ++ d ∷ [])
append-HasDistinctIds [] d h fresh = (refl, tt)
append-HasDistinctIds (x ∷ c) d h fresh = ground (
  arith,
  has_id-append x.id c d,
  append-HasDistinctIds c d h.1,
  eq_iff x.id d.id,
  eq_iff d.id x.id,
)

-- Creating an issuable definition keeps the catalog's ids distinct, its size below the cap and all
-- its definitions issuable.
pub create-IsCatalog :
    (c : DefinitionCatalog) (d : CredentialDefinition)
    → IsCatalog c
    → IsIssuable d
    → IsCatalog (create c d).0
unfolding create
create-IsCatalog c d h i = ground (
  arith,
  has_id-get d.id c,
  append-HasDistinctIds c d h.0,
  length-append c (d ∷ []),
  All-append IsIssuable c (d ∷ []) h.2,
)

-- `create` adds a definition with a new id to a catalog that is not full; otherwise the catalog
-- stays as it was.
pub create_answer :
    (c : DefinitionCatalog) (d : CredentialDefinition)
    → (has_id d.id c ≡ true → (create c d).0 ≡ c)
      × (has_id d.id c ≡ false → max_credential_definitions ≤ length c → (create c d).0 ≡ c)
      × (has_id d.id c ≡ false
          → length c < max_credential_definitions
          → ((create c d).1 ≡ ok tt) × ((create c d).0 ≡ c ++ d ∷ []))
unfolding create
create_answer c d = (
  λ h. ground (arith, has_id-get d.id c),
  λ h k. ground (arith, has_id-get d.id c),
  λ h k. ground (arith, has_id-get d.id c),
)

has_id-replace_first :
    (id : String) (new : CredentialDefinition) (c : DefinitionCatalog)
    → has_id id (replace_first new c) ≡ has_id id c
unfolding replace_first
has_id-replace_first id new [] = refl
has_id-replace_first id new (d ∷ ds) =
    ground
      (arith, has_id-replace_first id new ds, eq_iff d.id new.id, eq_iff d.id id, eq_iff new.id id)

replace_first-IsCatalog :
    (new : CredentialDefinition) (c : DefinitionCatalog)
    → IsIssuable new
    → HasDistinctIds c
    → All IsIssuable c
    → HasDistinctIds (replace_first new c)
      × (length (replace_first new c) ≡ length c)
      × All IsIssuable (replace_first new c)
unfolding replace_first
replace_first-IsCatalog new [] i h all = (tt, omega arith, tt)
replace_first-IsCatalog new (d ∷ ds) i h all =
    let rest = replace_first-IsCatalog new ds i h.1 all.1 in
    ground (arith, rest.0, rest.1, rest.2, has_id-replace_first d.id new ds, eq_iff d.id new.id)

abbrev dated : CredentialDefinition → CredentialDefinition → CredentialDefinition
dated d old = record d { created_at = old.created_at }

update_missing :
    (c : DefinitionCatalog) (d : CredentialDefinition) → get c d.id ≡ none → (update c d).0 ≡ c
unfolding update
update_missing c d e = rw (e, update)

update_found :
    (c : DefinitionCatalog) (d old : CredentialDefinition)
    → get c d.id ≡ some old
    → (update c d).0 ≡ replace_first (dated d old) c
unfolding update
update_found c d old e = rw (e, update)

-- Replacing a definition by an issuable one keeps the catalog in order.
pub update-IsCatalog :
    (c : DefinitionCatalog) (d : CredentialDefinition)
    → IsCatalog c
    → IsIssuable d
    → IsCatalog (update c d).0
update-IsCatalog c d h i = elim (Option-cases (get c d.id)) [
  | inl none_there ↦ rw (update_missing c d none_there) h
  | inr (old, e) ↦
      let kept =
        replace_first-IsCatalog (dated d old) c
          (record { named = i.named; typed = i.typed; signable = i.signable; lasting = i.lasting })
          h.0 h.2 in
      rw (update_found c d old e) (kept.0, omega (arith, kept.1, h.1), kept.2)
]

get-replace_first :
    (new old : CredentialDefinition) (id : String) (c : DefinitionCatalog)
    → get c new.id ≡ some old
    → get (replace_first new c) id ≡ (if new.id == id then some new else get c id)
unfolding replace_first get
get-replace_first new old id [] e = cc
get-replace_first new old id (d ∷ ds) e =
    ground
      (arith, get-replace_first new old id ds, eq_iff d.id new.id, eq_iff d.id id, eq_iff new.id id)

-- After an update, a lookup of its id finds the new definition with the old creation date where
-- there was one, and other lookups are as before.
get-update :
    (c : DefinitionCatalog) (d : CredentialDefinition) (id : String)
    → get (update c d).0 id ≡ (
        if d.id == id
        then Option.map
            (λ (old : CredentialDefinition). record d { created_at = old.created_at })
            (get c id)
        else get c id)
get-update c d id = elim (Option-cases (get c d.id)) [
  | inl none_there ↦ rw (update_missing c d none_there) (ground (arith, eq_iff d.id id))
  | inr (old, e) ↦
      rw (update_found c d old e)
        (get-replace_first (dated d old) old id c e ∙ ground (arith, eq_iff d.id id))
]

has_id-retain :
    (id gone : String) (c : DefinitionCatalog)
    → has_id id (retain (λ d. not (d.id == gone)) c) ≡ (has_id id c && not (gone == id))
has_id-retain id gone [] = ground arith
has_id-retain id gone (d ∷ ds) =
    ground (arith, has_id-retain id gone ds, eq_iff d.id gone, eq_iff d.id id, eq_iff gone id)

retain-IsCatalog :
    (gone : String) (c : DefinitionCatalog)
    → HasDistinctIds c
    → All IsIssuable c
    → HasDistinctIds (retain (λ d. not (d.id == gone)) c)
      × All IsIssuable (retain (λ d. not (d.id == gone)) c)
retain-IsCatalog gone [] h all = (tt, tt)
retain-IsCatalog gone (d ∷ ds) h all =
    let rest = retain-IsCatalog gone ds h.1 all.1 in
    ground (arith, rest.0, rest.1, has_id-retain d.id gone ds)

pub remove-IsCatalog :
    (c : DefinitionCatalog) (id : String) → IsCatalog c → IsCatalog (remove c id).0
unfolding remove
remove-IsCatalog c id h =
    let rest = retain-IsCatalog id c h.0 h.2 in
    (rest.0, omega (arith, h.1, length-retain-le (λ d. not (d.id == id)) c), rest.1)

-- ===== src/Validation/Claims.antt =====
-- What the checks on delivered credentials establish, read off the claims themselves.
use ds_identity_hub_rs.Common.{
  ℕ, ◌+◌, ◌≤◌, ◌<◌, String, ◌≡◌, ap, ◌∙◌, subst, ◌⊎◌, inl, inr, true, Option, none, some, List, [],
  ◌∷◌, arith, ◌==◌, eq_iff, Bool-cases, Option-cases, some-injective, any, All, guard, ok_or,
  map_err, >>=-eq-ok, map_err-eq-ok, ok_or-eq-ok, guard-eq-ok, ok,
}
use ds_identity_hub_rs.Common.Assoc.{has}
use ds_identity_hub_rs.Common.Json.{
  Value, null, bool, number, string, array, object, items, as_str, unwrap_or, str_claim, u64_claim,
}
use ds_identity_hub_rs.Messages.{CredentialContainer}
use ds_identity_hub_rs.External.{External}
use ds_identity_hub_rs.Validation.{
  unverifiable_proof, pointer, is_text, type_among, has_type, is_within_validity, subject_of,
  optional_issuer, check_claims, check_credential_claims,
}

-- `nbf` and `exp`, where they are present, are at most a minute ahead and in the future.
abbrev pub IsInPeriod : Value → ℕ → Type 0
IsInPeriod claims now =
    ((nbf : ℕ) → u64_claim "nbf" claims ≡ some nbf → nbf ≤ now + 60)
    × ((exp : ℕ) → u64_claim "exp" claims ≡ some exp → now < exp)

-- The subject is `sub`, or the id of the credential's subject where there is no `sub`.
abbrev pub IsAbout : Value → String → Type 0
IsAbout claims did =
    (str_claim "sub" claims ≡ some did)
    ⊎ ((str_claim "sub" claims ≡ none)
        × ((id : Value) × (pointer ("vc" ∷ "credentialSubject" ∷ "id" ∷ []) claims ≡ some id)
            × (as_str id ≡ some did)))

abbrev pub Among : Value → List Value → Type 0
Among v [] = ⊥
Among v (w ∷ ws) = (w ≡ v) ⊎ Among v ws

-- `vc.type` is the type, or an array that lists it.
abbrev pub IsOfType : Value → String → Type 0
IsOfType claims t =
    (pointer ("vc" ∷ "type" ∷ []) claims ≡ some (string t))
    ⊎ ((types : _) × (pointer ("vc" ∷ "type" ∷ []) claims ≡ some (array types))
        × Among (string t) (items types))

pub within-IsInPeriod :
    (claims : Value) (now : ℕ) → is_within_validity claims now ≡ true → IsInPeriod claims now
unfolding is_within_validity
within-IsInPeriod claims now h =
    (λ nbf e. ground (arith, rw e at h), λ exp e. ground (arith, rw e at h))

pub subject-IsAbout :
    (claims : Value) (did : String) → subject_of claims ≡ some did → IsAbout claims did
unfolding subject_of
subject-IsAbout claims did h = elim (Option-cases (str_claim "sub" claims)) [
  | inr (sub, e) ↦ inl (e ∙ (rw (e, subject_of) at h))
  | inl e ↦ elim (Option-cases (pointer ("vc" ∷ "credentialSubject" ∷ "id" ∷ []) claims)) [
    | inl f ↦ absurd (ground (arith, rw (e, subject_of, f) at h))
    | inr (id, f) ↦ inr (e, (id, f, rw (e, subject_of, f) at h))
  ]
]

among : (t : String) (vs : List Value) → any (is_text t) vs ≡ true → Among (string t) vs
among t [] h = cc
among t (v ∷ vs) h = elim (Bool-cases (is_text t v)) [
  | inl e ↦ inl (text_of v e)
  | inr e ↦ inr (among t vs (ground (arith, e)))
]
  where
    text_of : (v : Value) → is_text t v ≡ true → v ≡ string t
    text_of (string u) e = ap string ((eq_iff u t).0 e)
    text_of null e = cc
    text_of (bool b) e = cc
    text_of (number n) e = cc
    text_of (array a) e = cc
    text_of (object o) e = cc

type-IsOfType : (claims : Value) (t : String) → has_type claims t ≡ true → IsOfType claims t
unfolding has_type
type-IsOfType claims t h = elim (Option-cases (pointer ("vc" ∷ "type" ∷ []) claims)) [
  | inl e ↦ absurd (ground (arith, rw e at h))
  | inr (v, e) ↦ by_kind v e (rw e at h)
]
  where
    by_kind :
        (v : Value)
        → pointer ("vc" ∷ "type" ∷ []) claims ≡ some v
        → type_among t (some v) ≡ true
        → IsOfType claims t
    by_kind (string u) e k = inl (e ∙ ap (λ w. some (string w)) ((eq_iff u t).0 k))
    by_kind (array a) e k = inr (a, e, among t (items a) k)
    by_kind null e k = cc
    by_kind (bool b) e k = cc
    by_kind (number n) e k = cc
    by_kind (object o) e k = cc

listed_issuer :
    (trusted : Option (List String)) (iss : String) (dids : List String)
    → optional_issuer trusted iss ≡ true
    → trusted ≡ some dids
    → has iss dids ≡ true
listed_issuer none iss dids h e = cc
listed_issuer (some ds) iss dids h e = subst (λ l. has iss l ≡ true) (some-injective e) h

module _ (x : External) where
  -- A credential that is bound to this service, of its container's type, and current.
  pub record IsBound (own_did : String) (trusted : Option (List String)) (now : ℕ)
      (c : CredentialContainer) : Type 0 where
    pub jws : String
    pub head : Value
    pub claims : Value
    pub carried : as_str c.payload ≡ some jws
    pub decoded : x.decode_jws_unverified jws ≡ ok (head, claims)
    pub typed : IsOfType claims c.credential_type
    pub trusted_issuer :
        (dids : List String)
        → trusted ≡ some dids
        → has (unwrap_or (str_claim "iss" claims) "") dids ≡ true
    pub bound : IsAbout claims own_did
    pub current : IsInPeriod claims now

  check_claims-IsBound :
      (c : CredentialContainer) (own_did : String) (trusted : Option (List String)) (now : ℕ)
      → check_claims x c own_did trusted now ≡ ok tt
      → IsBound own_did trusted now c
  unfolding check_claims
  check_claims-IsBound c own_did trusted now e =
      let (jws, e1, r1) = >>=-eq-ok (ok_or (as_str c.payload) _) _ e in
      let ((head, claims), e2, r2) =
        >>=-eq-ok (map_err unverifiable_proof (x.decode_jws_unverified jws)) _ r1 in
      let (_, e3, r3) = >>=-eq-ok (guard (has_type claims c.credential_type) _) _ r2 in
      let (_, e4, r4) =
        >>=-eq-ok (guard (optional_issuer trusted (unwrap_or (str_claim "iss" claims) "")) _) _
          r3 in
      let (subject, e5, r5) = >>=-eq-ok (ok_or (subject_of claims) _) _ r4 in
      let (_, e6, r6) = >>=-eq-ok (guard (subject == own_did) _) _ r5 in
      record {
        jws = jws;
        head = head;
        claims = claims;
        carried = ok_or-eq-ok _ _ e1;
        decoded = map_err-eq-ok _ _ e2;
        typed = type-IsOfType claims c.credential_type (guard-eq-ok _ _ e3);
        trusted_issuer = λ dids t. listed_issuer trusted _ dids (guard-eq-ok _ _ e4) t;
        bound =
            subject-IsAbout claims own_did
              (ok_or-eq-ok _ _ e5 ∙ ap some ((eq_iff subject own_did).0 (guard-eq-ok _ _ e6)));
        current = within-IsInPeriod claims now (guard-eq-ok _ _ r6);
      }

  -- Where the check on the claims passes, the payload of every delivered credential decodes, names
  -- its container's type as or among its vc.type, comes from an issuer of the list where there is
  -- one, has this service as its sub or, without one, as its subject's id, and its nbf is at most
  -- 60 seconds ahead and its exp in the future, where it has them.
  pub check_credential_claims-IsBound :
      (cs : List CredentialContainer) (own_did : String) (trusted : Option (List String)) (now : ℕ)
      → check_credential_claims x cs own_did trusted now ≡ ok tt
      → All (IsBound own_did trusted now) cs
  unfolding check_credential_claims
  check_credential_claims-IsBound [] own_did trusted now e = tt
  check_credential_claims-IsBound (c ∷ cs) own_did trusted now e =
      let (_, e1, r1) = >>=-eq-ok (check_claims x c own_did trusted now) _ e in
      (
        check_claims-IsBound c own_did trusted now e1,
        check_credential_claims-IsBound cs own_did trusted now r1,
      )

-- ===== src/Hub/Presentation/Granted.antt =====
-- What a presentation holds: only credentials that were asked for and granted.
use ds_identity_hub_rs.Common.{
  ℕ, ◌<◌, String, ◌≡◌, sym, ap, ◌∙◌, subst, inl, inr, Bool, true, some, List, [], ◌∷◌, arith, ◌==◌,
  eq_iff, ltb, ltb→lt, Bool-cases, Option-cases, retain, All, All-map, guard, ok_or, map_err,
  >>=-eq-ok, map_err-eq-ok, ok-injective, ok_or-eq-ok, guard-eq-ok, ok,
}
use ds_identity_hub_rs.Common.Assoc.{has}
use ds_identity_hub_rs.Common.Json.{Value, as_str, unwrap_or, str_claim, u64_claim}
use ds_identity_hub_rs.Messages.{CredentialContainer}
use ds_identity_hub_rs.External.{External}
use ds_identity_hub_rs.Scope.{credential_types, split_scope_string}
use ds_identity_hub_rs.Auth.{invalid_nested_token, verify_nested_access_token}
use ds_identity_hub_rs.Hub.{AppState, caller}
use ds_identity_hub_rs.Validation.Claims.{IsInPeriod, within-IsInPeriod}
use ds_identity_hub_rs.Hub.Presentation.{
  granted_credential_types, is_current, first_of_each, presentable, effective_types,
  matched_credentials,
}

retain-All {ℓ} :
    {A : Type ℓ} (P : A → Type 0) (p : A → Bool) (xs : List A) → All P xs → All P (retain p xs)
retain-All P p [] h = tt
retain-All P p (x ∷ xs) h = elim (Bool-cases (p x)) [
  | inl e ↦ rw e (h.0, retain-All P p xs h.1)
  | inr e ↦ rw e (retain-All P p xs h.1)
]

retain-holds {ℓ} : {A : Type ℓ} (p : A → Bool) (xs : List A) → All (λ x. p x ≡ true) (retain p xs)
retain-holds p [] = tt
retain-holds p (x ∷ xs) = elim (Bool-cases (p x)) [
  | inl e ↦ rw e (e, retain-holds p xs)
  | inr e ↦ rw e (retain-holds p xs)
]

has-retain :
    (t : String) (p : String → Bool) (ts : List String)
    → has t (retain p ts) ≡ true
    → (has t ts ≡ true) × (p t ≡ true)
has-retain t p [] h = cc
has-retain t p (u ∷ ts) h = ground (arith, has-retain t p ts, eq_iff u t)

All-pair {ℓ} :
    {A : Type ℓ} (P Q : A → Type 0) (xs : List A) → All P xs → All Q xs → All (λ x. P x × Q x) xs
All-pair P Q [] h k = tt
All-pair P Q (x ∷ xs) h k = ((h.0, k.0), All-pair P Q xs h.1 k.1)

module _ (x : External) where
  first_of_each-All :
      (P : CredentialContainer → Type 0) (seen : List String) (cs : List CredentialContainer)
      → All P cs
      → All P (first_of_each x seen cs)
  unfolding first_of_each
  first_of_each-All P seen [] h = tt
  first_of_each-All P seen (c ∷ cs) h = elim (Bool-cases (has (x.to_json_string c.payload) seen)) [
    | inl e ↦ rw (e, first_of_each) (first_of_each-All P seen cs h.1)
    | inr e ↦
        rw (e, first_of_each) (h.0, first_of_each-All P (x.to_json_string c.payload ∷ seen) cs h.1)
  ]

  -- The graph answers only containers of the types it is asked for.
  abbrev pub AnswersTypes : (List String → List CredentialContainer) → Type 0
  AnswersTypes stored =
      (types : List String)
      → All (λ (c : CredentialContainer). has c.credential_type types ≡ true) (stored types)

  -- The type is in the scope of the nested token: a token in the caller's claims that this
  -- service's own STS signed, with its key and its name, for the caller, and that has not expired.
  abbrev pub IsGranted : AppState x → Value → ℕ → String → Type 0
  IsGranted s claims now t =
      (token : String) × (head : Value) × (payload : Value) × (str_claim "token" claims
        ≡ some token)
      × (x.decode_jws_unverified token ≡ ok (head, payload))
      × (str_claim "iss" payload ≡ some s.sts_party.own_did)
      × (str_claim "kid" head ≡ some s.sts_party.own_key_id)
      × (x.verify_jws_signature token (x.verifying_key s.sts_party.signing_key) ≡ ok tt)
      × (now < unwrap_or (u64_claim "exp" payload) 0)
      × (unwrap_or (str_claim "aud" payload) "" ≡ unwrap_or (str_claim "iss" claims) "")
      × (has t (credential_types x (split_scope_string (unwrap_or (str_claim "scope" payload) "")))
          ≡ true)

  -- A credential whose payload decodes is in its period.
  abbrev pub IsCurrentCredential : ℕ → CredentialContainer → Type 0
  IsCurrentCredential now c =
      (jws : String) (head payload : Value)
      → as_str c.payload ≡ some jws
      → x.decode_jws_unverified jws ≡ ok (head, payload)
      → IsInPeriod payload now

  token_types-IsGranted :
      (s : AppState x) (claims : Value) (now : ℕ) (granted : List String) (t : String)
      → granted_credential_types x s claims (caller claims) now ≡ ok granted
      → has t granted ≡ true
      → IsGranted s claims now t
  unfolding granted_credential_types verify_nested_access_token
  token_types-IsGranted s claims now granted t h m =
      elim (Option-cases (str_claim "token" claims)) [
        | inl e ↦
            let none_granted : [] ≡ granted =
              ok-injective (rw (e, granted_credential_types) at h) in
            absurd (ground (arith, subst (λ g. has t g ≡ true) (sym none_granted) m))
        | inr (token, e) ↦
            let (nested, v, g) =
              >>=-eq-ok (verify_nested_access_token x token (caller claims) s.sts_party now) _
                (rw (e, granted_credential_types) at h) in
            let ((head, payload), e1, r1) =
              >>=-eq-ok (map_err invalid_nested_token (x.decode_jws_unverified token)) _ v in
            let (iss, e2, r2) = >>=-eq-ok (ok_or (str_claim "iss" payload) _) _ r1 in
            let (kid, e3, r3) = >>=-eq-ok (ok_or (str_claim "kid" head) _) _ r2 in
            let (_, e4, r4) = >>=-eq-ok (guard (iss == s.sts_party.own_did) _) _ r3 in
            let (_, e5, r5) = >>=-eq-ok (guard (kid == s.sts_party.own_key_id) _) _ r4 in
            let (_, e6, r6) =
              >>=-eq-ok
                (map_err invalid_nested_token
                  (x.verify_jws_signature token (x.verifying_key s.sts_party.signing_key)))
                _ r5 in
            let (_, e7, r7) =
              >>=-eq-ok (guard (ltb now (unwrap_or (u64_claim "exp" payload) 0)) _) _ r6 in
            let (_, e8, r8) =
              >>=-eq-ok (guard (unwrap_or (str_claim "aud" payload) "" == caller claims) _) _ r7 in
            let same : payload ≡ nested = ok-injective r8 in
            (
              token,
              head,
              payload,
              e,
              map_err-eq-ok _ _ e1,
              ok_or-eq-ok _ _ e2
                  ∙ ap some ((eq_iff iss s.sts_party.own_did).0 (guard-eq-ok _ _ e4)),
              ok_or-eq-ok _ _ e3
                  ∙ ap some ((eq_iff kid s.sts_party.own_key_id).0 (guard-eq-ok _ _ e5)),
              map_err-eq-ok _ _ e6,
              ltb→lt now (unwrap_or (u64_claim "exp" payload) 0) (guard-eq-ok _ _ e7),
              (eq_iff (unwrap_or (str_claim "aud" payload) "") (caller claims)).0
                  (guard-eq-ok _ _ e8),
              subst (λ g. has t g ≡ true) (sym (ap (types_of) same ∙ ok-injective g)) m,
            )
      ]
    where
      types_of : Value → List String
      types_of p = credential_types x (split_scope_string (unwrap_or (str_claim "scope" p) ""))

  current-IsCurrentCredential :
      (now : ℕ) (c : CredentialContainer) → is_current x c now ≡ true → IsCurrentCredential now c
  unfolding is_current
  current-IsCurrentCredential now c h jws head payload a d =
      within-IsInPeriod payload now (rw (a, is_current, d) at h)

  abbrev Selected : List String → List String → ℕ → CredentialContainer → Type 0
  Selected requested granted now c =
      ((has c.credential_type requested ≡ true) × (has c.credential_type granted ≡ true))
      × (is_current x c now ≡ true)

  -- A credential that may be shown: its type is asked for and granted, and it is current.
  abbrev pub MayShow : AppState x → Value → List String → ℕ → CredentialContainer → Type 0
  MayShow s claims requested now c =
      (has c.credential_type requested ≡ true)
      × IsGranted s claims now c.credential_type
      × IsCurrentCredential now c

  presentable-Selected :
      (requested granted : List String) (now : ℕ) (cs : List CredentialContainer)
      → All
          (λ (c : CredentialContainer).
            has c.credential_type (effective_types x requested granted) ≡ true)
          cs
      → All (Selected requested granted now) (presentable x cs now)
  unfolding presentable
  presentable-Selected requested granted now cs h =
      let typed =
        All-map
          (λ (c : CredentialContainer). has-retain c.credential_type (λ t. has t granted) requested)
          cs h in
      let firsts =
        first_of_each-All
          (λ (c : CredentialContainer).
            (has c.credential_type requested ≡ true) × (has c.credential_type granted ≡ true))
          [] cs typed in
      All-pair
        (λ (c : CredentialContainer).
          (has c.credential_type requested ≡ true) × (has c.credential_type granted ≡ true))
        (λ (c : CredentialContainer). is_current x c now ≡ true) (presentable x cs now)
        (retain-All _ (λ c. is_current x c now) (first_of_each x [] cs) firsts)
        (retain-holds (λ c. is_current x c now) (first_of_each x [] cs))

  -- Where the graph answers only containers of the types it is asked for, every credential of an
  -- answered presentation query is of a type that the request names and that is in the scope of a
  -- nested access token in the caller's claims, which has the name, the key id and the verified
  -- signature of this service's own STS, is for the caller and has not expired; and where its
  -- payload decodes, its nbf is at most 60 seconds ahead and its exp is in the future.
  pub matched_credentials-MayShow :
      (s : AppState x) (stored : List String → List CredentialContainer) (claims : Value)
      (scope : List String) (now : ℕ) (cs : List CredentialContainer)
      → AnswersTypes stored
      → matched_credentials x s stored claims scope now ≡ ok cs
      → All (MayShow s claims (credential_types x scope) now) cs
  unfolding matched_credentials
  matched_credentials-MayShow s stored claims scope now cs answers e =
      let (granted, g, f) =
        >>=-eq-ok (granted_credential_types x s claims (caller claims) now) _ e in
      let requested = credential_types x scope in
      let shown : presentable x (stored (effective_types x requested granted)) now ≡ cs = cc in
      let selected =
        presentable-Selected requested granted now (stored (effective_types x requested granted))
          (answers (effective_types x requested granted)) in
      All-map
        (λ (c : CredentialContainer) (h : Selected requested granted now c). (
          h.0.0,
          token_types-IsGranted s claims now granted c.credential_type g (h.0.1),
          current-IsCurrentCredential now c h.1,
        ))
        cs (subst (All (Selected requested granted now)) shown selected)

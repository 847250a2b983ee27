-- ===== src/Hub/Storage/Accepted.antt =====
-- What the Storage API writes, and when.
use ds_identity_hub_rs.Common.{
  ℕ, String, ◌≡◌, refl, sym, ap, ◌⊎◌, inl, inr, Bool, true, false, none, some, List, [], ◌∷◌, map,
  arith, eq_iff, if◌then◌else◌, Bool-cases, Option-cases, is_some, All, Result, ◌>>=◌, ok_or,
  map_err, >>=-eq-ok, Result-cases, map_err-eq-ok, ok_or-eq-ok, guard-eq-ok, ok, err,
}
use ds_identity_hub_rs.Common.Assoc.{has}
use ds_identity_hub_rs.Common.Json.{Value, string, as_str, member, str_claim, json_object}
use ds_identity_hub_rs.Messages.{CredentialContainer, CredentialMessage}
use ds_identity_hub_rs.External.{External}
use ds_identity_hub_rs.Auth.{AuthError, check_trusted_issuer}
use ds_identity_hub_rs.Validation.{
  ValidationError, validate_status, check_known_holder_pid, check_credential_claims,
  verify_credential_proofs,
}
use ds_identity_hub_rs.Hub.{RegistryTrust, AppState, caller, check_issuer}
use ds_identity_hub_rs.Validation.Claims.{IsBound, check_credential_claims-IsBound}
use ds_identity_hub_rs.Validation.Proofs.{IsProven, verify_credential_proofs-IsProven}
use ds_identity_hub_rs.Http.{Response, status, refuse}
use ds_identity_hub_rs.Hub.Storage.{
  refuse_auth, refuse_invalid, credential_issuer, check_each_issuer, store_message, check_message,
  batch_of,
}

-- An answer of 401 or 400 with a text.
abbrev pub IsRefusal : Response (Unit {0}) → Type 0
IsRefusal response = (text : String) × ((response ≡ refuse 401 text) ⊎ (response ≡ refuse 400 text))

abbrev Refuses : {A : Type 0} → Result A (Response (Unit {0})) → Type 0
Refuses {A} m = (response : Response (Unit {0})) → m ≡ err response → IsRefusal response

err-injective : {A E : Type 0} {a b : E} → ◌≡◌ {A = Result A E} (err a) (err b) → a ≡ b
err-injective h = cc

auth-Refuses : {A : Type 0} (m : Result A AuthError) → Refuses (map_err refuse_auth m)
auth-Refuses (ok a) response h = cc
auth-Refuses (err e) response h = (_, inl (sym (err-injective h)))

invalid-Refuses : {A : Type 0} (m : Result A ValidationError) → Refuses (map_err refuse_invalid m)
invalid-Refuses (ok a) response h = cc
invalid-Refuses (err e) response h = (_, inr (sym (err-injective h)))

then-Refuses :
    {A B : Type 0} (m : Result A (Response (Unit {0}))) (f : A → Result B (Response (Unit {0})))
    → Refuses m
    → ((a : A) → Refuses (f a))
    → Refuses (m >>= f)
then-Refuses (ok a) f h k response e = k a response e
then-Refuses (err r) f h k response e = h response (ap err (err-injective e))

each_status : (s : String) → validate_status s ≡ ok tt → (s ≡ "ISSUED") ⊎ (s ≡ "REJECTED")
unfolding validate_status
each_status s h = ground (arith, guard-eq-ok _ _ h, eq_iff "ISSUED" s, eq_iff "REJECTED" s)

each_pid :
    (pid : String) (known : List String)
    → check_known_holder_pid pid known ≡ ok tt
    → (known ≡ []) ⊎ (has pid known ≡ true)
unfolding check_known_holder_pid
each_pid pid [] h = inl refl
each_pid pid (k ∷ known) h = inr (guard-eq-ok _ _ h)

if_on :
    (b : Bool) (m : Result (Unit {0}) AuthError)
    → b ≡ true
    → (if b then m else ok tt) ≡ ok tt
    → m ≡ ok tt
if_on true m e h = h
if_on false m e h = cc

trusted-has :
    (iss : String) (dids : List String)
    → check_trusted_issuer (json_object (("iss", string iss) ∷ [])) dids ≡ ok tt
    → has iss dids ≡ true
unfolding check_trusted_issuer str_claim member
trusted-has iss [] h = cc
trusted-has iss (d ∷ dids) h = elim (Bool-cases (has iss (d ∷ dids))) [
  | inl e ↦ e
  | inr e ↦ absurd (ground (arith, rw e at h))
]

module _ (x : External) where
  -- The registry answers for the issuer and the types, where there is one; otherwise the issuer
  -- is on the list.
  abbrev pub IsTrustedFor : AppState x → String → List String → Type 0
  IsTrustedFor s iss types =
      ((registry : RegistryTrust) → s.registry_trust ≡ some registry → registry iss types ≡ ok tt)
      × (s.registry_trust ≡ none → has iss s.config.trusted_issuer_dids ≡ true)

  -- Where there is a registry, it answers for the issuer that the credential names and its type.
  abbrev pub IsListed : AppState x → CredentialContainer → Type 0
  IsListed s c =
      (registry : RegistryTrust)
      → s.registry_trust ≡ some registry
      → (jws : String) × (head : Value) × (claims : Value) × (iss : String) × (as_str c.payload
          ≡ some jws)
        × (x.decode_jws_unverified jws ≡ ok (head, claims))
        × (str_claim "iss" claims ≡ some iss)
        × (registry iss (c.credential_type ∷ []) ≡ ok tt)

  -- What a message is that is stored.
  pub record IsVetted (s : AppState x) (claims : Value) (message : CredentialMessage) (now : ℕ)
      : Type 0 where
    pub sender :
        IsTrustedFor s
          (caller claims)
          (map (λ (c : CredentialContainer). c.credential_type) message.credentials)
    pub named : (message.status ≡ "ISSUED") ⊎ (message.status ≡ "REJECTED")
    pub expected :
        (s.config.known_holder_pids ≡ [])
        ⊎ (has message.holder_pid s.config.known_holder_pids ≡ true)
    pub proven : All (IsProven x s.config.insecure_http s.outbound) message.credentials
    pub listed : All (IsListed s) message.credentials
    pub bound :
        All
          (IsBound x s.identity.own_did
            (if is_some s.registry_trust then none else some s.config.trusted_issuer_dids)
            now)
          message.credentials

  pub check_issuer-IsTrustedFor :
      (s : AppState x) (iss : String) (types : List String)
      → check_issuer x s iss types ≡ ok tt
      → IsTrustedFor s iss types
  unfolding check_issuer
  check_issuer-IsTrustedFor s iss types h =
      (λ registry e. rw e at h, λ e. trusted-has iss s.config.trusted_issuer_dids (rw e at h))

  credential_issuer-named :
      (c : CredentialContainer) (iss : String)
      → credential_issuer x c ≡ some iss
      → (jws : String) × (head : Value) × (claims : Value) × (as_str c.payload ≡ some jws)
        × (x.decode_jws_unverified jws ≡ ok (head, claims))
        × (str_claim "iss" claims ≡ some iss)
  unfolding credential_issuer
  credential_issuer-named c iss h = elim (Option-cases (as_str c.payload)) [
    | inl e ↦ absurd (ground (arith, rw (e, credential_issuer) at h))
    | inr (jws, e) ↦ elim (Result-cases (x.decode_jws_unverified jws)) [
      | inr (_, d) ↦ absurd (ground (arith, rw (e, credential_issuer, d) at h))
      | inl ((head, claims), d) ↦ (jws, head, claims, e, d, rw (e, credential_issuer, d) at h)
    ]
  ]

  unlisted-IsListed :
      (s : AppState x) (cs : List CredentialContainer)
      → s.registry_trust ≡ none
      → All (IsListed s) cs
  unlisted-IsListed s [] e = tt
  unlisted-IsListed s (c ∷ cs) e =
      (λ registry f. absurd (ground (arith, e, f)), unlisted-IsListed s cs e)

  check_each_issuer-IsListed :
      (s : AppState x) (cs : List CredentialContainer)
      → check_each_issuer x s cs ≡ ok tt
      → All (IsListed s) cs
  unfolding check_each_issuer
  check_each_issuer-IsListed s [] h = tt
  check_each_issuer-IsListed s (c ∷ cs) h =
      let (iss, e1, r1) = >>=-eq-ok (ok_or (credential_issuer x c) _) _ h in
      let (_, e2, r2) = >>=-eq-ok (check_issuer x s iss (c.credential_type ∷ [])) _ r1 in
      let (jws, head, claims, a, d, i) = credential_issuer-named c iss (ok_or-eq-ok _ _ e1) in
      (
        λ registry e. (
          jws,
          head,
          claims,
          iss,
          a,
          d,
          i,
          (check_issuer-IsTrustedFor s iss (c.credential_type ∷ []) e2).0 registry e,
        ),
        check_each_issuer-IsListed s cs r2,
      )

  each-IsListed :
      (s : AppState x) (cs : List CredentialContainer)
      → (if is_some s.registry_trust then check_each_issuer x s cs else ok tt) ≡ ok tt
      → All (IsListed s) cs
  each-IsListed s cs h = elim (Option-cases s.registry_trust) [
    | inl e ↦ unlisted-IsListed s cs e
    | inr (r, e) ↦
        check_each_issuer-IsListed s cs (if_on (is_some s.registry_trust) _ (rw e refl) h)
  ]

  check_message-IsVetted :
      (s : AppState x) (claims : Value) (message : CredentialMessage) (now : ℕ)
      → check_message x s claims message now ≡ ok tt
      → IsVetted s claims message now
  unfolding check_message
  check_message-IsVetted s claims message now e =
      let types = map (λ (c : CredentialContainer). c.credential_type) message.credentials in
      let trusted_dids =
        if is_some s.registry_trust then none else some s.config.trusted_issuer_dids in
      let (_, e1, r1) =
        >>=-eq-ok (map_err refuse_auth (check_issuer x s (caller claims) types)) _ e in
      let (_, e2, r2) = >>=-eq-ok (map_err refuse_invalid (validate_status message.status)) _ r1 in
      let (_, e3, r3) =
        >>=-eq-ok
          (map_err refuse_invalid
            (check_known_holder_pid message.holder_pid s.config.known_holder_pids))
          _ r2 in
      let (_, e4, r4) =
        >>=-eq-ok
          (map_err refuse_invalid
            (verify_credential_proofs x message.credentials s.config.insecure_http s.outbound))
          _ r3 in
      let (_, e5, r5) =
        >>=-eq-ok
          (map_err refuse_auth
            (if is_some s.registry_trust then check_each_issuer x s message.credentials else ok tt))
          _ r4 in
      record {
        sender = check_issuer-IsTrustedFor s (caller claims) types (map_err-eq-ok _ _ e1);
        named = each_status message.status (map_err-eq-ok _ _ e2);
        expected = each_pid message.holder_pid s.config.known_holder_pids (map_err-eq-ok _ _ e3);
        proven =
            verify_credential_proofs-IsProven x message.credentials s.config.insecure_http
              s.outbound (map_err-eq-ok _ _ e4);
        listed = each-IsListed s message.credentials (map_err-eq-ok _ _ e5);
        bound =
            check_credential_claims-IsBound x message.credentials s.identity.own_did trusted_dids
              now (map_err-eq-ok _ _ r5);
      }

  check_message-Refuses :
      (s : AppState x) (claims : Value) (message : CredentialMessage) (now : ℕ)
      → Refuses (check_message x s claims message now)
  unfolding check_message
  check_message-Refuses s claims message now =
      let types = map (λ (c : CredentialContainer). c.credential_type) message.credentials in
      let cs = message.credentials in
      then-Refuses _ _ (auth-Refuses (check_issuer x s (caller claims) types)) λ _.
        then-Refuses _ _ (invalid-Refuses (validate_status message.status)) λ _.
          then-Refuses _ _
            (invalid-Refuses (check_known_holder_pid message.holder_pid s.config.known_holder_pids))
            λ _.
              then-Refuses _ _
                (invalid-Refuses (verify_credential_proofs x cs s.config.insecure_http s.outbound))
                λ _.
                  then-Refuses _ _
                    (auth-Refuses
                      (if is_some s.registry_trust then check_each_issuer x s cs else ok tt))
                    λ _. invalid-Refuses (
                      check_credential_claims x cs s.identity.own_did
                        (if is_some s.registry_trust
                          then none
                          else some s.config.trusted_issuer_dids)
                        now)

  -- A delivered message is either answered 401 or 400 with a text and nothing is stored, or
  -- exactly its batch is added to the store and answered 200, and then the sender is trusted for
  -- the types, the status is ISSUED or REJECTED, the holder process is an expected one where any
  -- is configured, every credential has a signature that verifies under a key of the document of
  -- its issuer, whose DID the policy allows, the registry, where there is one, trusts that issuer
  -- for the credential's type, and each credential is of its container's type, bound to this
  -- service, in its period, and without a registry from an issuer of the list.
  pub store_message-IsVetted :
      (s : AppState x) (claims : Value) (message : CredentialMessage) (now : ℕ)
      → ((response : Response (Unit {0})) × IsRefusal response
          × (store_message x s claims message now ≡ (s, response)))
        ⊎ (IsVetted s claims message now
            × ((store_message x s claims message now)
                ≡ (record s { store = batch_of x message ∷ s.store }, status 200)))
  unfolding store_message
  store_message-IsVetted s claims message now =
      elim (Result-cases (check_message x s claims message now)) [
        | inl (_, e) ↦ inr (check_message-IsVetted s claims message now e, rw (e, store_message))
        | inr (response, e) ↦
            inl (
              response,
              check_message-Refuses s claims message now response e,
              rw (e, store_message),
            )
      ]

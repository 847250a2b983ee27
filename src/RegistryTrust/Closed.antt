-- ===== src/RegistryTrust/Closed.antt =====
-- The registry's client fails closed (crates/identity-hub-http/src/registry_trust.rs).
use ds_identity_hub_rs.Common.{
  ℕ, ◌+◌, ◌-◌, ◌/◌, ◌≤◌, ◌<◌, String, ◌≡◌, subst, inl, inr, Bool, true, not, Option, none, some,
  List, [], ◌∷◌, arith, ltb, if◌then◌else◌, ltb→lt, Bool-cases, Option-cases, some-injective, any,
  All, guard, map_err, >>=-eq-ok, Result-cases, map_err-eq-ok, ok-injective, guard-eq-ok, ok, err,
}
use ds_identity_hub_rs.Common.Json.{unwrap_or}
use ds_identity_hub_rs.Common.Text.{trim}
use ds_identity_hub_rs.External.{External}
use ds_identity_hub_rs.Outbound.{OutboundPolicy, check_url, check_did}
use ds_identity_hub_rs.Auth.{untrusted_issuer, trust_registry_unavailable}
use ds_identity_hub_rs.RegistryTrust.{
  u64_max, needs_refresh, TrustedIssuersRegistry, Cached, RegistryTrust, snapshot_url, snapshot_key,
  fetch, is_fresh, is_success, failed_at, got, fresh_list, fallback, trust_list, is_trusted,
  check_types, check_list, check,
}

needs_refresh-no :
    (fetched_at iat exp now : ℕ)
    → now ≤ u64_max
    → not (needs_refresh fetched_at iat exp now) ≡ true
    → (now < exp) × (now < fetched_at + (exp - iat) / 4)
unfolding needs_refresh
needs_refresh-no fetched_at iat exp now bound h = ground arith

any_trusted {ℓ} :
    {A : Type ℓ} (p : A → Bool) (as' : List A) → any p as' ≡ true → (a : A) × (p a ≡ true)
any_trusted p [] h = cc
any_trusted p (a ∷ as') h = elim (Bool-cases (p a)) [
  | inl e ↦ (a, e)
  | inr e ↦ any_trusted p as' (ground (arith, e))
]

module _ (x : External) (source : TrustedIssuersRegistry) where
  -- A list that the registry signed: its token verified at `t` for the registry's DID, under a key
  -- of the registry's document.
  abbrev pub IsSigned : x.TrustList → ℕ → Type 0
  IsSigned list t =
      (token : String) × (key : x.VerifyingKey) × (doc : x.DidDocument) × (kid : String)
      × (x.find_verifying_key doc kid ≡ ok key)
      × ((insecure_http : Bool) × (x.resolve_did source.did insecure_http ≡ ok doc))
      × (x.verify_snapshot token source.did key t ≡ ok list)

  abbrev pub IsCache : Option (Cached x) → Type 0
  IsCache none = Unit
  IsCache (some c) = IsSigned c.list c.fetched_at

  snapshot_key-found :
      (outbound : OutboundPolicy) (insecure_http : Bool) (token : String) {key : x.VerifyingKey}
      → snapshot_key x source outbound insecure_http token ≡ ok key
      → (doc : x.DidDocument) × (kid : String) × (x.find_verifying_key doc kid ≡ ok key)
        × (x.resolve_did source.did insecure_http ≡ ok doc)
  unfolding snapshot_key
  snapshot_key-found outbound insecure_http token h =
      let (_, _, h1) = >>=-eq-ok (map_err _ (check_did x outbound source.did insecure_http)) _ h in
      let (doc, d, h2) = >>=-eq-ok (map_err _ (x.resolve_did source.did insecure_http)) _ h1 in
      let (kid, _, k) = >>=-eq-ok (x.snapshot_kid token) _ h2 in (doc, kid, k, map_err-eq-ok _ _ d)

  fetch-IsSigned :
      (outbound : OutboundPolicy) (insecure_http : Bool) (now : ℕ) {list : x.TrustList}
      → fetch x source outbound insecure_http now ≡ ok list
      → IsSigned list now
  unfolding fetch
  fetch-IsSigned outbound insecure_http now h =
      let url = snapshot_url x source in
      let (_, _, h1) = >>=-eq-ok (map_err _ (check_url x outbound url)) _ h in
      let (response, _, h2) =
        >>=-eq-ok (map_err (failed_at x (got x source)) (x.get_text url)) _ h1 in
      let (_, _, h3) =
        >>=-eq-ok
          (guard (is_success (response.0))
            (failed_at x (got x source) (x.display_status (response.0))))
          _ h2 in
      let (token, _, h4) = >>=-eq-ok (map_err (failed_at x (got x source)) (response.1)) _ h3 in
      let (key, k, h5) =
        >>=-eq-ok (snapshot_key x source outbound insecure_http (trim token)) _ h4 in
      let (doc, kid, f, r) = snapshot_key-found outbound insecure_http (trim token) k in
      (trim token, key, doc, kid, f, (insecure_http, r), h5)

  fallback-IsCache :
      (c : Option (Cached x)) (now : ℕ) (e : String) {list : x.TrustList}
      → IsCache c
      → fallback x c now e ≡ ok list
      → ((t : ℕ) × IsSigned list t) × (now < x.list_exp list)
  unfolding fallback
  fallback-IsCache none now e cache h = cc
  fallback-IsCache (some c) now e {list} cache h = elim (Bool-cases (ltb now (x.list_exp c.list))) [
    | inl b ↦
        let same : c.list ≡ list =
          ok-injective (subst (λ d. (if d then ok c.list else err e) ≡ ok list) b h) in
        (
          (c.fetched_at, subst (λ l. IsSigned l c.fetched_at) same cache),
          subst (λ l. now < x.list_exp l) same (ltb→lt now (x.list_exp c.list) b),
        )
    | inr b ↦ absurd (ground (arith, b))
  ]

  fresh_list-IsCache :
      (c : Option (Cached x)) (now : ℕ) {list : x.TrustList}
      → now ≤ u64_max
      → IsCache c
      → fresh_list x c now ≡ some list
      → ((t : ℕ) × IsSigned list t) × (now < x.list_exp list)
  unfolding fresh_list
  fresh_list-IsCache none now bound cache h = cc
  fresh_list-IsCache (some c) now {list} bound cache h = elim (Bool-cases (is_fresh x c now)) [
    | inl b ↦
        let same : c.list ≡ list =
          some-injective (subst (λ d. (if d then some c.list else none) ≡ some list) b h) in
        (
          (c.fetched_at, subst (λ l. IsSigned l c.fetched_at) same cache),
          subst (λ l. now < x.list_exp l) same
              (needs_refresh-no c.fetched_at (x.list_iat c.list) (x.list_exp c.list) now bound b).0,
        )
    | inr b ↦ absurd (ground (arith, b))
  ]

  -- What `verify_snapshot` is documented to refuse: a snapshot that has expired.
  abbrev pub RefusesExpired : Type 0
  RefusesExpired =
      (token did : String) (key : x.VerifyingKey) (now : ℕ) (list : x.TrustList)
      → x.verify_snapshot token did key now ≡ ok list
      → now < x.list_exp list

  -- A list that may be used at `now`.
  abbrev pub IsUsable : ℕ → x.TrustList → Type 0
  IsUsable now list = ((t : ℕ) × IsSigned list t) × (now < x.list_exp list)

  trust_list-IsUsable :
      (r : RegistryTrust x) (outbound : OutboundPolicy) (insecure_http : Bool) (now : ℕ)
      → RefusesExpired
      → r.source ≡ source
      → now ≤ u64_max
      → IsCache r.cached
      → let (r', answer) = trust_list x r outbound insecure_http now in
        IsCache r'.cached × ((list : x.TrustList) → answer ≡ ok list → IsUsable now list)
  unfolding trust_list
  trust_list-IsUsable r outbound insecure_http now refuses same bound cache =
      elim (Option-cases (fresh_list x r.cached now)) [
        | inr (list, e) ↦
            let usable : IsUsable now list = fresh_list-IsCache r.cached now bound cache e in
            rw (e, trust_list) (cache, λ l h. subst (IsUsable now) (ok-injective h) usable)
        | inl e ↦ elim (Result-cases (fetch x r.source outbound insecure_http now)) [
          | inl (list, f) ↦
              let signed : IsSigned list now =
                fetch-IsSigned outbound insecure_http now
                  (subst (λ s. fetch x s outbound insecure_http now ≡ ok list) same f) in
              let usable : IsUsable now list =
                ((now, signed), refuses signed.0 source.did signed.1 now list signed.6) in
              rw (e, f, trust_list) (signed, λ l h. subst (IsUsable now) (ok-injective h) usable)
          | inr (message, f) ↦
              rw (e, f, trust_list) (cache, λ l h. fallback-IsCache r.cached now message cache h)
        ]
      ]

  -- What the list says of an issuer: trusted for every type, or with no type, for some type.
  abbrev pub IsTrusted : x.TrustList → String → List String → ℕ → Type 0
  IsTrusted list iss [] now = (t : String) × (is_trusted x list iss now t ≡ true)
  IsTrusted list iss (t ∷ ts) now = All (λ u. is_trusted x list iss now u ≡ true) (t ∷ ts)

  check_types-trusted :
      (list : x.TrustList) (iss : String) (now : ℕ) (ts : List String)
      → check_types x list iss now ts ≡ ok tt
      → All (λ u. is_trusted x list iss now u ≡ true) ts
  unfolding check_types
  check_types-trusted list iss now [] h = tt
  check_types-trusted list iss now (t ∷ ts) h =
      let (_, g, rest) = >>=-eq-ok (guard (is_trusted x list iss now t) _) _ h in
      (guard-eq-ok _ _ g, check_types-trusted list iss now ts rest)

  check_list-IsTrusted :
      (list : x.TrustList) (iss : String) (ts : List String) (now : ℕ)
      → check_list x list iss ts now ≡ ok tt
      → IsTrusted list iss ts now
  unfolding check_list
  check_list-IsTrusted list iss [] now h =
      any_trusted (is_trusted x list iss now) (unwrap_or (x.listed_types list iss) [])
        (guard-eq-ok _ (untrusted_issuer iss) h)
  check_list-IsTrusted list iss (t ∷ ts) now h = check_types-trusted list iss now (t ∷ ts) h

  -- Where the verification of snapshots refuses expired ones, a check by the registry keeps the
  -- cache to lists that the registry signed, and it succeeds only by such a list that has not
  -- expired and that trusts the issuer for every type asked, or for some type where none is.
  pub check-IsTrusted :
      (r : RegistryTrust x) (outbound : OutboundPolicy) (insecure_http : Bool) (iss : String)
      (ts : List String) (now later : ℕ)
      → RefusesExpired
      → r.source ≡ source
      → now ≤ u64_max
      → IsCache r.cached
      → let (r', answer) = check x r outbound insecure_http iss ts now later in
        IsCache r'.cached
        × (answer ≡ ok tt → (list : x.TrustList) × IsUsable now list × IsTrusted list iss ts later)
  unfolding check
  check-IsTrusted r outbound insecure_http iss ts now later refuses same bound cache =
      let (kept, usable) =
        trust_list-IsUsable r outbound insecure_http now refuses same bound cache in
      (
        kept,
        λ h.
            let answer = (trust_list x r outbound insecure_http now).1 in
            let (list, a, h1) = >>=-eq-ok (map_err trust_registry_unavailable answer) _ h in
            (list, usable list (map_err-eq-ok _ _ a), check_list-IsTrusted list iss ts later h1),
      )

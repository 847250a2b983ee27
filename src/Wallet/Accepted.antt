-- ===== src/Wallet/Accepted.antt =====
-- What a redemption stores was accepted (crates/identity-hub-http/src/oid4vci.rs).
use ds_identity_hub_rs.Common.{
  ℕ, ◌≤◌, ◌<◌, String, ◌≡◌, refl, sym, ap, ◌∙◌, subst, ◌⊎◌, inl, inr, true, false, not, Option,
  none, some, List, [], ◌∷◌, ◌++◌, map, arith, ◌==◌, eq_iff, Bool-cases, Option-cases,
  some-injective, all, All, All-append, guard, ok_or, map_err, >>=-eq-ok, Result-cases,
  map_err-eq-ok, ok-injective, ok_or-eq-ok, guard-eq-ok, ok, err,
}
use ds_identity_hub_rs.Common.Json.{Value, as_str, member, unwrap_or, str_claim, u64_claim}
use ds_identity_hub_rs.Messages.{CredentialContainer}
use ds_identity_hub_rs.External.{External}
use ds_identity_hub_rs.Validation.{verify_credential_proofs}
use ds_identity_hub_rs.Hub.{AppState, check_issuer}
use ds_identity_hub_rs.Validation.Proofs.{IsProven, verify_credential_proofs-IsProven}
use ds_identity_hub_rs.Hub.Storage.Accepted.{IsTrustedFor, check_issuer-IsTrustedFor}
use mathlib.Core.List.{map-append}
use ds_identity_hub_rs.Oid4vci.{CredentialOffer, TokenResponse}
use ds_identity_hub_rs.Oid4vci.Metadata.{
  CredentialResponse, CredentialIssuerMetadata, AuthorizationServerMetadata,
  CredentialConfiguration, format_jwt_vc_json,
}
use ds_identity_hub_rs.Wallet.{WalletError, RedeemedCredential, RedeemOfferResponse}
use ds_identity_hub_rs.Wallet.Network.{Network, Call, lift, read}
use ds_identity_hub_rs.Wallet.Rules.{
  Triple, Triple-lift, Triple-pure, Triple-bind, Triple-then, Triple-answers,
}
use ds_identity_hub_rs.Wallet.Checks.{
  RedeemOfferBody, container, probe, credential_type_of, pointer, subject_of,
  accept_issued_credential, is_subject, is_expired,
}
use ds_identity_hub_rs.Wallet.Client.{ResourceClient}
use ds_identity_hub_rs.Wallet.Redeem.{
  Progress, add_container, credentials_of, request_nonce, accept_all, request_target,
  request_targets, request_all, start, resolve_offer, discover, exchange, grant_of, check_given,
  collect, store_all, batch, redeem, keep, described,
}

is_subject-eq : (t : Option String) (did : String) → is_subject t did ≡ true → t ≡ some did
is_subject-eq none did h = cc
is_subject-eq (some t) did h = ap some ((eq_iff t did).0 h)

-- The subject is `sub`, or the id of the credential's subject where there is no `sub`.
abbrev pub IsHeldBy : Value → String → Type 0
IsHeldBy claims did =
    (str_claim "sub" claims ≡ some did)
    ⊎ ((str_claim "sub" claims ≡ none)
        × ((v : Value) × (id : Value) × (pointer "vc" "credentialSubject" claims ≡ some v)
            × (member "id" v ≡ some id)
            × (as_str id ≡ some did)))

subject-IsHeldBy :
    (claims : Value) (did : String) → subject_of claims ≡ some did → IsHeldBy claims did
unfolding subject_of
subject-IsHeldBy claims did h = elim (Option-cases (str_claim "sub" claims)) [
  | inr (sub, e) ↦ inl (e ∙ (rw (e, subject_of) at h))
  | inl e ↦ elim (Option-cases (pointer "vc" "credentialSubject" claims)) [
    | inl f ↦ absurd (ground (arith, rw (e, subject_of, f) at h))
    | inr (v, f) ↦ elim (Option-cases (member "id" v)) [
      | inl g ↦ absurd (ground (arith, rw (e, subject_of, f, g) at h))
      | inr (id, g) ↦ inr (e, (v, id, f, g, rw (e, subject_of, f, g) at h))
    ]
  ]
]

expired-no :
    (o : Option ℕ) (now t exp : ℕ) → t ≤ now → is_expired o now ≡ false → o ≡ some exp → t < exp
expired-no none now t exp le h e = cc
expired-no (some u) now t exp le h e =
    let same : u ≡ exp = some-injective e in subst (λ v. t < v) same (ground arith)

-- `t` is a moment that no reading of the clock lies before.
module _ (x : External) (net : Network) (s : AppState x) (t : ℕ)
    (clock : (w : net.World) → t ≤ (net.now w).1) where
  -- A container that the wallet may keep: its issuer is trusted for its type, its signature
  -- verifies under a key of its issuer's document, whose DID the outbound policy allows, it is
  -- bound to this service, and does not expire before `t`.
  abbrev pub IsAccepted : CredentialContainer → Type 0
  IsAccepted c =
      (jws : String) × (header : Value) × (payload : Value) × (as_str c.payload ≡ some jws)
      × (x.decode_jws_unverified jws ≡ ok (header, payload))
      × (credential_type_of payload ≡ some c.credential_type)
      × IsTrustedFor x s (unwrap_or (str_claim "iss" payload) "") (c.credential_type ∷ [])
      × IsProven x s.config.insecure_http s.outbound (probe c.payload)
      × IsHeldBy payload s.identity.own_did
      × ((exp : ℕ) → u64_claim "exp" payload ≡ some exp → t < exp)
      × (c.format ≡ format_jwt_vc_json)

  accept_issued_credential-IsAccepted :
      (credential : Value) (now : ℕ) (name : String)
      → t ≤ now
      → accept_issued_credential x net s credential now ≡ ok name
      → IsAccepted (container name credential)
  unfolding accept_issued_credential
  accept_issued_credential-IsAccepted credential now name late h =
      let (jws, a, h1) = >>=-eq-ok (ok_or (as_str credential) _) _ h in
      let (decoded, d, h2) = >>=-eq-ok (map_err _ (x.decode_jws_unverified jws)) _ h1 in
      let (ty, c, h3) = >>=-eq-ok (ok_or (credential_type_of (decoded.1)) _) _ h2 in
      let (_, i, h4) =
        >>=-eq-ok
          (map_err _ (check_issuer x s (unwrap_or (str_claim "iss" (decoded.1)) "") (ty ∷ []))) _
          h3 in
      let (_, v, h5) =
        >>=-eq-ok
          (map_err _
            (verify_credential_proofs x (probe credential ∷ []) s.config.insecure_http s.outbound))
          _ h4 in
      let (_, b, h6) =
        >>=-eq-ok (guard (is_subject (subject_of (decoded.1)) s.identity.own_did) _) _ h5 in
      let (_, e, h7) =
        >>=-eq-ok (guard (not (is_expired (u64_claim "exp" (decoded.1)) now)) _) _ h6 in
      let same : ty ≡ name = ok-injective h7 in
      (
        jws,
        decoded.0,
        decoded.1,
        ok_or-eq-ok _ _ a,
        map_err-eq-ok _ _ d,
        subst (λ t'. credential_type_of (decoded.1) ≡ some t') same (ok_or-eq-ok _ _ c),
        check_issuer-IsTrustedFor x s (unwrap_or (str_claim "iss" (decoded.1)) "") (name ∷ []) (
            subst
              (λ t'.
                check_issuer x s (unwrap_or (str_claim "iss" (decoded.1)) "") (t' ∷ []) ≡ ok tt)
              same (map_err-eq-ok _ _ i)),
        (verify_credential_proofs-IsProven x (probe credential ∷ []) s.config.insecure_http
            s.outbound (map_err-eq-ok _ _ v)).0,
        subject-IsHeldBy (decoded.1) s.identity.own_did
            (is_subject-eq (subject_of (decoded.1)) s.identity.own_did (guard-eq-ok _ _ b)),
        λ exp is_exp.
            expired-no (u64_claim "exp" (decoded.1)) now t exp late
              (ground (arith, guard-eq-ok _ _ e)) is_exp,
        refl,
      )

  abbrev stored_type : RedeemedCredential → String
  stored_type r = r.credential_type

  abbrev held_type : CredentialContainer → String
  held_type c = c.credential_type

  -- Everything collected was accepted, and is reported under its type, in order.
  abbrev pub IsCollected : Progress → Type 0
  IsCollected p =
      All IsAccepted p.containers × (map stored_type p.stored ≡ map held_type p.containers)

  abbrev Gives : {A : Type 0} → (A → Type 0) → Call net.World A → Type 0
  Gives P m = Triple (λ _. Unit {0}) P m

  Gives-any : {A : Type 0} (m : Call net.World A) → Gives (λ _. Unit {0}) m
  unfolding Triple
  Gives-any m w i = (tt, λ a h. tt)

  add_container-IsCollected :
      (p : Progress) (id : String) (c : Value) (name : String)
      → IsAccepted (container name c)
      → IsCollected p
      → IsCollected (add_container p id c name)
  add_container-IsCollected p id c name accepted (all, same) = (
    All-append IsAccepted p.containers (container name c ∷ []) all (accepted, tt),
    map-append stored_type p.stored _
        ∙ ap (λ ts. ts ++ name ∷ []) same
        ∙ sym (map-append held_type p.containers (container name c ∷ [])),
  )

  reads_late : Gives (λ now. t ≤ now) (read net.now)
  unfolding Triple
  reads_late w i = (tt, λ now h. subst (λ n. t ≤ n) (ok-injective h) (clock w))

  accept_all-IsCollected :
      (id : String) (cs : List Value) (p : Progress)
      → IsCollected p
      → Gives IsCollected (accept_all x net s id cs p)
  unfolding accept_all
  accept_all-IsCollected id [] p h = Triple-pure _ IsCollected p h
  accept_all-IsCollected id (c ∷ cs) p h =
      Triple-bind _ (λ now. t ≤ now) IsCollected _ _ reads_late
        λ now late.
          Triple-bind _ (λ name. IsAccepted (container name c)) IsCollected _ _
            (Triple-lift _ _ _ (λ name. accept_issued_credential-IsAccepted c now name late))
            λ name accepted.
              accept_all-IsCollected id cs (add_container p id c name)
                (add_container-IsCollected p id c name accepted h)

  keep-IsCollected :
      (id : String) (configuration : CredentialConfiguration) (cs : List Value) (p : Progress)
      → IsCollected p
      → Gives IsCollected (keep x net s id configuration cs p)
  keep-IsCollected id configuration cs p h =
      elim (Bool-cases (configuration.format == format_jwt_vc_json)) [
        | inl e ↦ rw e (accept_all-IsCollected id cs p h)
        | inr e ↦ rw e (Triple-pure _ IsCollected _ h)
      ]

  request_target-IsCollected :
      (metadata : CredentialIssuerMetadata) (id : String) (configuration : CredentialConfiguration)
      (p : Progress) (target : Value)
      → IsCollected p
      → Gives IsCollected (request_target x net s metadata id configuration p target)
  unfolding request_target
  request_target-IsCollected metadata id configuration p target h =
      Triple-bind _ _ IsCollected _ _ (Gives-any (request_nonce x net s metadata p.client))
        λ answer _. Triple-bind _ _ IsCollected _ _ (Gives-any (read net.now)) λ now _.
          Triple-bind _ (λ _. Unit {0}) IsCollected _ _ (Gives-any _)
            λ (issued : ResourceClient × CredentialResponse) _.
              Triple-bind _ _ IsCollected _ _ (Gives-any (lift (credentials_of (issued.1))))
                λ credentials _.
                  keep-IsCollected id configuration credentials (record p { client = issued.0 }) h

  request_targets-IsCollected :
      (metadata : CredentialIssuerMetadata) (id : String) (configuration : CredentialConfiguration)
      (ts : List Value) (p : Progress)
      → IsCollected p
      → Gives IsCollected (request_targets x net s metadata id configuration ts p)
  unfolding request_targets
  request_targets-IsCollected metadata id configuration [] p h = Triple-pure _ IsCollected p h
  request_targets-IsCollected metadata id configuration (t ∷ ts) p h =
      Triple-bind _ IsCollected IsCollected _ _
        (request_target-IsCollected metadata id configuration p t h)
        (request_targets-IsCollected metadata id configuration ts)

  request_all-IsCollected :
      (metadata : CredentialIssuerMetadata) (token : TokenResponse) (ids : List String)
      (p : Progress)
      → IsCollected p
      → Gives IsCollected (request_all x net s metadata token ids p)
  unfolding request_all
  request_all-IsCollected metadata token [] p h = Triple-pure _ IsCollected p h
  request_all-IsCollected metadata token (id ∷ ids) p h =
      Triple-bind _ _ IsCollected _ _ (Gives-any (lift (described x net s metadata id)))
        λ configuration _.
          Triple-bind _ IsCollected IsCollected _ _
            (request_targets-IsCollected metadata id configuration _ p h)
            (request_all-IsCollected metadata token ids)

  collect-IsCollected :
      (body : RedeemOfferBody)
      → Gives (λ (r : CredentialOffer × Progress). IsCollected (r.1)) (collect x net s body)
  unfolding collect
  collect-IsCollected body =
      Triple-bind _ _ _ _ _ (Gives-any (resolve_offer x net s body)) λ offer _.
        Triple-bind _ _ _ _ _ (Gives-any (lift (grant_of x net s offer))) λ grant _.
          Triple-then _ (Unit {0}) _ _ _ (Gives-any (lift (check_given x net s grant body.tx_code)))
            λ _.
              Triple-bind _ _ _ _ _ (Gives-any (discover x net s offer grant))
                λ (metadata : CredentialIssuerMetadata × AuthorizationServerMetadata) _.
                  Triple-bind _ _ _ _ _
                    (Gives-any (exchange x net s (metadata.1) grant body.tx_code))
                    λ token _.
                      Triple-bind _ IsCollected _ _ _
                        (request_all-IsCollected (metadata.0) token
                          offer.credential_configuration_ids (start x net s token) (tt, refl))
                        λ p h. Triple-pure _ _ (offer, p) h

  abbrev HasFiled : AppState x → List CredentialContainer → Type 0
  HasFiled s' containers =
      ((containers ≡ []) × (s' ≡ s))
      ⊎ ((id : String) × (s' ≡ record s { store = batch x net s id containers ∷ s.store }))

  -- The store afterwards: as it was, or with one batch of accepted credentials.
  abbrev pub IsFiled : AppState x → RedeemOfferResponse → Type 0
  IsFiled s' response =
      (containers : List CredentialContainer) × All IsAccepted containers
      × (map stored_type response.stored ≡ map held_type containers)
      × HasFiled s' containers

  store_all-HasFiled :
      (containers : List CredentialContainer) (w : net.World)
      → HasFiled ((store_all x net s containers w).1) containers
  unfolding store_all
  store_all-HasFiled [] w = inl (refl, refl)
  store_all-HasFiled (c ∷ cs) w = inr ((net.new_v4 w).1, refl)

  -- Whatever the network answers, where no reading of the clock lies before a moment t, a
  -- redemption that answers stores either nothing or one batch, every credential of which names
  -- its type, comes from an issuer trusted for it, has a signature that verifies under a key of
  -- its issuer's document, whose DID the outbound policy allows, is bound to this service and does
  -- not expire at t or before, and the answer reports exactly these types; a redemption that fails
  -- stores nothing.
  pub redeem-IsFiled :
      (body : RedeemOfferBody) (w : net.World)
      → let (w', s', answer) = redeem x net s body w in
        ((response : RedeemOfferResponse) → answer ≡ ok response → IsFiled s' response)
        × ((e : WalletError) → answer ≡ err e → s' ≡ s)
  unfolding redeem store_all
  redeem-IsFiled body w = elim (Result-cases ((collect x net s body w).1)) [
    | inr (e, failed) ↦ rw (failed, redeem) (λ response h. cc, λ e' h. refl)
    | inl ((offer, p), found) ↦
        let (all_accepted, same) : IsCollected p =
          Triple-answers _ _ _ (collect-IsCollected body) w tt (offer, p) found in
        let filed = store_all-HasFiled p.containers ((collect x net s body w).0) in
        rw (found, redeem)
          (
            λ response h. (
              p.containers,
              all_accepted,
              ap (λ (r : RedeemOfferResponse). map stored_type r.stored) (sym (ok-injective h))
                  ∙ same,
              filed,
            ),
            λ e' h. cc,
          )
  ]

-- ===== src/Wallet/Contained.antt =====
-- The wallet contacts allowed hosts only (crates/identity-hub-http/src/oid4vci.rs).
use ds_identity_hub_rs.Common.{
  ℕ, zero, suc, String, ◌≡◌, inl, inr, Bool, true, false, Option, none, some, List, [], ◌∷◌, ◌++◌,
  ◌==◌, Bool-cases, Option-cases, Result, Result-cases, map_err-eq-ok, ok,
}
use ds_identity_hub_rs.Common.Json.{Value}
use ds_identity_hub_rs.Messages.{CredentialContainer}
use ds_identity_hub_rs.External.{External}
use ds_identity_hub_rs.Outbound.{check_url}
use ds_identity_hub_rs.Hub.{AppState}
use ds_identity_hub_rs.Oid4vci.{CredentialOffer, PreAuthorizedCodeGrant, TokenResponse}
use ds_identity_hub_rs.Oid4vci.Metadata.{
  CredentialResponse, CredentialIssuerMetadata, CredentialConfiguration,
  AuthorizationServerMetadata, format_jwt_vc_json,
}
use ds_identity_hub_rs.Wallet.{WalletError}
use ds_identity_hub_rs.Wallet.Network.{
  Request, HttpResponse, Network, Call, lift, read, pure, url_of,
}
use ds_identity_hub_rs.Wallet.Network
use ds_identity_hub_rs.Wallet.Rules.{
  Triple, Triple-lift, Triple-pure, Triple-fail, Triple-bind, Triple-then, Triple-read,
  Triple-keeps,
}
use ds_identity_hub_rs.Wallet.Checks.{RedeemOfferBody}
use ds_identity_hub_rs.Wallet.Client.{
  ResourceClient, check_outbound, send, get_json, assertion, dpop_header, request_token,
  post_attempts, post_json,
}
use ds_identity_hub_rs.Wallet.Redeem.{
  Progress, add_container, request_nonce, accept_all, request_target, request_targets, request_all,
  start, fetch_offered, resolve_offer, discover, exchange, collect, store_all, redeem, keep,
}

module _ (x : External) (net : Network) (s : AppState x) (I : net.World → Type 0) where
  -- The network's state keeps `I` when a request goes to a host that the policy allows, and when
  -- the clock and the random identifiers are read.
  abbrev pub IsKept : Type 0
  IsKept =
      ((r : Request) (w : net.World)
        → check_url x s.outbound (url_of r) ≡ ok tt
        → I w
        → I ((net.send r w).0))
      × ((w : net.World) → I w → I ((net.now w).0))
      × ((w : net.World) → I w → I ((net.new_v4 w).0))

  abbrev pub Keeps : {A : Type 0} → Call net.World A → Type 0
  Keeps m = Triple I (λ _. Unit {0}) m

  Keeps-lift : {A : Type 0} (r : Result A WalletError) → Keeps (lift r)
  Keeps-lift r = Triple-lift I _ r (λ a h. tt)

  Keeps-pure : {A : Type 0} (a : A) → Keeps (lift (ok a))
  Keeps-pure a = Triple-pure I _ a tt

  module _ (kept : IsKept) where
    Keeps-now : Keeps (read net.now)
    Keeps-now = Triple-read I net.now kept.1

    Keeps-new_v4 : Keeps (read net.new_v4)
    Keeps-new_v4 = Triple-read I net.new_v4 kept.2

    Keeps-next :
        {A : Type 0} {B : Type 0} (m : Call net.World A) (f : A → Call net.World B)
        → Keeps m
        → ((a : A) → Keeps (f a))
        → Keeps (Network.◌>>=◌ m f)
    Keeps-next m f first next = Triple-bind I _ _ m f first (λ a _. next a)

    Keeps-send :
        (failed : String → WalletError) (r : Request)
        → check_url x s.outbound (url_of r) ≡ ok tt
        → Keeps (send x net s failed r)
    unfolding Triple
    Keeps-send failed r allowed w i = (kept.0 r w allowed i, λ a h. tt)

    -- After the check of a URL, requests to it keep `I`.
    Keeps-checked :
        {B : Type 0} (url : String) (k : Call net.World B)
        → (check_url x s.outbound url ≡ ok tt → Keeps k)
        → Keeps (Network.◌>>◌ (lift (check_outbound x net s url)) k)
    unfolding check_outbound
    Keeps-checked url k next =
        Triple-then I (check_url x s.outbound url ≡ ok tt) _ _ k
          (Triple-lift I _ (check_outbound x net s url) (λ u h. map_err-eq-ok _ _ h)) next

    Keeps-get_json :
        {A : Type 0} (decode : List ℕ → Result A String) (url : String)
        → Keeps (get_json x net s decode url)
    unfolding get_json
    Keeps-get_json decode url = Keeps-checked url _ λ allowed.
        Keeps-next _ _ (Keeps-send _ (Network.get url) allowed) (λ response. Keeps-lift _)

    Keeps-assertion :
        (metadata : AuthorizationServerMetadata) (client_id : Option String)
        → Keeps (assertion x net s metadata client_id)
    Keeps-assertion metadata none = Keeps-pure []
    Keeps-assertion metadata (some client_id) =
        Keeps-next _ _ Keeps-new_v4 (λ jti. Keeps-next _ _ Keeps-now (λ now. Keeps-pure _))

    Keeps-dpop_header :
        (dpop : Bool) (url : String) (server_nonce token : Option String)
        → Keeps (dpop_header x net s dpop url server_nonce token)
    unfolding dpop_header
    Keeps-dpop_header false url server_nonce token = Keeps-pure _
    Keeps-dpop_header true url server_nonce token =
        Keeps-next _ _ Keeps-new_v4 (λ jti. Keeps-next _ _ Keeps-now (λ now. Keeps-pure _))

    -- A branch on an optional challenge.
    Keeps-branch :
        {A : Type 0} (o : Option String) (f : String → Call net.World A) (m : Call net.World A)
        → ((n : String) → Keeps (f n))
        → Keeps m
        → Keeps (elim o [ some n ↦ f n | none ↦ m ])
    Keeps-branch none f m again done = done
    Keeps-branch (some n) f m again done = again n

    Keeps-request_token :
        (attempts : ℕ) (metadata : AuthorizationServerMetadata) (use_dpop : Bool)
        (form : List (String × String)) (as_nonce : Option String)
        → check_url x s.outbound metadata.token_endpoint ≡ ok tt
        → Keeps (request_token x net s attempts metadata use_dpop form as_nonce)
    unfolding request_token
    Keeps-request_token zero metadata use_dpop form as_nonce allowed = Triple-fail I _ _
    Keeps-request_token (suc attempts) metadata use_dpop form as_nonce allowed =
        Keeps-next _ _ (Keeps-assertion metadata s.config.oid4vci_client_id) λ asserted.
          Keeps-next _ _ (Keeps-dpop_header use_dpop metadata.token_endpoint as_nonce none) λ dpop.
            Keeps-next _ _
              (Keeps-send _ (Network.post_form metadata.token_endpoint (form ++ asserted) dpop)
                allowed)
              λ response.
                Keeps-branch _ _ _
                  (λ n. Keeps-request_token attempts metadata use_dpop form (some n) allowed)
                  (Keeps-pure response)

    Keeps-post_attempts :
        {A : Type 0} (attempts : ℕ) (first : Bool) (decode : List ℕ → Result A String)
        (url : String) (body : Value) (client : ResourceClient)
        → check_url x s.outbound url ≡ ok tt
        → Keeps (post_attempts x net s attempts first decode url body client)
    unfolding post_attempts
    Keeps-post_attempts zero first decode url body client allowed = Triple-fail I _ _
    Keeps-post_attempts (suc attempts) first decode url body client allowed =
        Keeps-next _ _ (Keeps-dpop_header client.dpop url client.nonce (some client.access_token))
          λ dpop.
            Keeps-next _ _ (Keeps-send _ (Network.post_json url body _ dpop) allowed) λ response.
              Keeps-branch _ _ _ (λ n. Keeps-post_attempts attempts false decode url body _ allowed)
                (Keeps-next _ _ (Keeps-lift _) (λ a. Keeps-pure _))

    Keeps-post_json :
        {A : Type 0} (decode : List ℕ → Result A String) (url : String) (body : Value)
        (client : ResourceClient)
        → Keeps (post_json x net s decode url body client)
    unfolding post_json
    Keeps-post_json decode url body client =
        Keeps-checked url _ (Keeps-post_attempts 2 true decode url body client)

    Keeps-request_nonce :
        (metadata : CredentialIssuerMetadata) (client : ResourceClient)
        → Keeps (request_nonce x net s metadata client)
    unfolding request_nonce
    Keeps-request_nonce metadata client = elim (Option-cases metadata.nonce_endpoint) [
      | inl e ↦ rw (e, request_nonce) (Keeps-pure _)
      | inr (url, e) ↦
          rw (e, request_nonce)
            (Keeps-checked url _ λ allowed.
              Keeps-next _ _ (Keeps-send _ (Network.post url) allowed)
                (λ response. Keeps-next _ _ (Keeps-lift _) (λ c_nonce. Keeps-pure _)))
    ]

    Keeps-accept_all :
        (id : String) (cs : List Value) (p : Progress) → Keeps (accept_all x net s id cs p)
    unfolding accept_all
    Keeps-accept_all id [] p = Keeps-pure p
    Keeps-accept_all id (c ∷ cs) p =
        Keeps-next _ _ Keeps-now λ now.
          Keeps-next _ _ (Keeps-lift _) (λ t. Keeps-accept_all id cs (add_container p id c t))

    Keeps-keep :
        (id : String) (configuration : CredentialConfiguration) (cs : List Value) (p : Progress)
        → Keeps (keep x net s id configuration cs p)
    Keeps-keep id configuration cs p =
        elim (Bool-cases (configuration.format == format_jwt_vc_json)) [
          | inl e ↦ rw e (Keeps-accept_all id cs p)
          | inr e ↦ rw e (Keeps-pure _)
        ]

    Keeps-request_target :
        (metadata : CredentialIssuerMetadata) (id : String)
        (configuration : CredentialConfiguration) (p : Progress) (target : Value)
        → Keeps (request_target x net s metadata id configuration p target)
    unfolding request_target
    Keeps-request_target metadata id configuration p target =
        Keeps-next _ _ (Keeps-request_nonce metadata p.client)
          λ (answer : ResourceClient × Option String). Keeps-next _ _ Keeps-now λ now.
            Keeps-next _ _
              (Keeps-post_json net.credential_response metadata.credential_endpoint _ (answer.0))
              λ (issued : ResourceClient × CredentialResponse).
                Keeps-next _ _ (Keeps-lift _)
                  (λ credentials. Keeps-keep id configuration credentials _)

    Keeps-request_targets :
        (metadata : CredentialIssuerMetadata) (id : String)
        (configuration : CredentialConfiguration) (ts : List Value) (p : Progress)
        → Keeps (request_targets x net s metadata id configuration ts p)
    unfolding request_targets
    Keeps-request_targets metadata id configuration [] p = Keeps-pure p
    Keeps-request_targets metadata id configuration (t ∷ ts) p =
        Keeps-next _ _ (Keeps-request_target metadata id configuration p t)
          (Keeps-request_targets metadata id configuration ts)

    Keeps-request_all :
        (metadata : CredentialIssuerMetadata) (token : TokenResponse) (ids : List String)
        (p : Progress)
        → Keeps (request_all x net s metadata token ids p)
    unfolding request_all
    Keeps-request_all metadata token [] p = Keeps-pure p
    Keeps-request_all metadata token (id ∷ ids) p = Keeps-next _ _ (Keeps-lift _) λ configuration.
        Keeps-next _ _ (Keeps-request_targets metadata id configuration _ p)
          (Keeps-request_all metadata token ids)

    Keeps-fetch_offered :
        (o : Option CredentialOffer × Option String) → Keeps (fetch_offered x net s o)
    Keeps-fetch_offered (some offer, none) = Keeps-pure offer
    Keeps-fetch_offered (none, some uri) = Keeps-get_json net.credential_offer uri
    Keeps-fetch_offered (none, none) = Triple-fail I _ _
    Keeps-fetch_offered (some offer, some uri) = Triple-fail I _ _

    Keeps-discover :
        (offer : CredentialOffer) (grant : PreAuthorizedCodeGrant)
        → Keeps (discover x net s offer grant)
    unfolding discover
    Keeps-discover offer grant = Keeps-next _ _ (Keeps-lift _) λ metadata_url.
        Keeps-next _ _ (Keeps-get_json net.issuer_metadata metadata_url) λ metadata.
          Triple-then I (Unit {0}) _ _ _ (Keeps-lift _) λ _.
            Keeps-next _ _ (Keeps-lift _) λ server_url.
              Keeps-next _ _ (Keeps-get_json net.server_metadata server_url)
                (λ server. Keeps-pure _)

    Keeps-exchange :
        (server : AuthorizationServerMetadata) (grant : PreAuthorizedCodeGrant)
        (tx_code : Option String)
        → Keeps (exchange x net s server grant tx_code)
    unfolding exchange
    Keeps-exchange server grant tx_code = Keeps-checked server.token_endpoint _ λ allowed.
        Keeps-next _ _ (Keeps-request_token 2 server _ _ none allowed) λ response.
          Keeps-next _ _ (Keeps-lift _)
            λ token. Triple-then I (Unit {0}) _ _ _ (Keeps-lift _) (λ _. Keeps-pure token)

    Keeps-collect : (body : RedeemOfferBody) → Keeps (collect x net s body)
    unfolding collect resolve_offer
    Keeps-collect body = Keeps-next _ _ (Keeps-next _ _ (Keeps-lift _) Keeps-fetch_offered) λ offer.
        Keeps-next _ _ (Keeps-lift _) λ grant. Triple-then I (Unit {0}) _ _ _ (Keeps-lift _) λ _.
          Keeps-next _ _ (Keeps-discover offer grant)
            λ (metadata : CredentialIssuerMetadata × AuthorizationServerMetadata).
              Keeps-next _ _ (Keeps-exchange (metadata.1) grant body.tx_code) λ token.
                Keeps-next _ _
                  (Keeps-request_all (metadata.0) token offer.credential_configuration_ids
                    (start x net s token))
                  (λ p. Keeps-pure (offer, p))

    store_all-kept :
        (cs : List CredentialContainer) (w : net.World) → I w → I ((store_all x net s cs w).0)
    unfolding store_all
    store_all-kept [] w i = i
    store_all-kept (c ∷ cs) w i = kept.2 w i

    -- Whatever the other parties answer, a property of the network that requests to allowed URLs
    -- keep, and the readings of the clock and of random identifiers, is kept by a whole
    -- redemption; so none of the wallet's own requests, for offers, metadata, tokens, nonces and
    -- credentials, goes to a URL that the outbound policy refuses. The resolution of DIDs and the
    -- registry's fetches are calls of other code and are not among them.
    pub redeem-kept : (body : RedeemOfferBody) (w : net.World) → I w → I ((redeem x net s body w).0)
    unfolding redeem
    redeem-kept body w i =
        let after = Triple-keeps I _ _ (Keeps-collect body) w i in
        elim (Result-cases ((collect x net s body w).1)) [
          | inr (e, failed) ↦ rw (failed, redeem) after
          | inl ((offer, p), found) ↦ rw (found, redeem) (store_all-kept p.containers _ after)
        ]

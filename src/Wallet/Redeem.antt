-- ===== src/Wallet/Redeem.antt =====
-- The redemption of a Credential Offer (crates/identity-hub-http/src/oid4vci.rs). What the code
-- collects in three vectors is a record that the loops pass along; the store is written once, after
-- the last credential. A DID resolution or a registry fetch made while a credential is accepted is
-- an answer of External, no request of the Network.
use ds_identity_hub_rs.Common.{
  String, Bool, not, ◌||◌, Option, none, some, List, [], ◌∷◌, ◌++◌, map, ◌==◌, if◌then◌else◌,
  is_some, is_none, length, any, Result, guard, ok_or, map_err, ok, err,
}
use ds_identity_hub_rs.Common.Assoc.{Assoc, get}
use ds_identity_hub_rs.Common.Json.{
  Value, string, and_then, unwrap_or, set_field, json_object, json_array,
}
use ds_identity_hub_rs.Common.Text.{format, eq_ignore_ascii_case}
use ds_identity_hub_rs.Messages.{CredentialContainer}
use ds_identity_hub_rs.External.{External}
use ds_identity_hub_rs.Hub.{StoredCredentialBatch, AppState}
use ds_identity_hub_rs.Http.{Response, oauth_error}
use ds_identity_hub_rs.Common.Text
use ds_identity_hub_rs.Common.Assoc
use ds_identity_hub_rs.Oid4vci.{
  CredentialOffer, PreAuthorizedCodeGrant, OfferGrants, TokenResponse, credential_identifiers_for,
}
use ds_identity_hub_rs.Oid4vci.Metadata.{
  CredentialIssuerMetadata, AuthorizationServerMetadata, CredentialConfiguration,
  CredentialResponse, trim_slashes, well_known_url, format_jwt_vc_json,
  credential_issuer_well_known, authorization_server_well_known,
}
use ds_identity_hub_rs.Oid4vci.Signing.{build_jwt_proof_for_client, for_binding_methods}
use ds_identity_hub_rs.Hub.Offers.Create.{is_operator}
use ds_identity_hub_rs.Wallet.{
  WalletError, RedeemedCredential, NotStoredCredential, RedeemOfferResponse, invalid_offer,
  upstream, redemption_response,
}
use ds_identity_hub_rs.Wallet.Network.{
  Request, HttpResponse, Network, Call, ◌>>=◌, ◌>>◌, lift, pure, fail, read,
}
use ds_identity_hub_rs.Wallet.Network
use ds_identity_hub_rs.Wallet.Checks.{
  RedeemOfferBody, or_else, container, accept_issued_credential, offered,
}
use ds_identity_hub_rs.Wallet.Client.{
  ResourceClient, remember_nonce, failed_post, token_form, check_outbound, send, read_json,
  get_json, request_token, post_json,
}

-- What the loops have collected so far, and the client as it is.
pub record Progress : Type 0 where
  pub client : ResourceClient
  pub containers : List CredentialContainer
  pub stored : List RedeemedCredential
  pub not_stored : List NotStoredCredential

abbrev mismatch : WalletError
mismatch = upstream "issuer metadata names a different credential_issuer than the offer"

-- The targets of one configuration: its id, or the identifiers that the token names for it.
abbrev pub targets : String → List String → List Value
targets config_id [] = json_object (("credential_configuration_id", string config_id) ∷ []) ∷ []
targets config_id (i ∷ is') =
    map (λ id. json_object (("credential_identifier", string id) ∷ [])) (i ∷ is')

abbrev offers_es256 : AuthorizationServerMetadata → Bool
offers_es256 metadata = any (λ alg. alg == "ES256") metadata.dpop_signing_alg_values_supported

abbrev first_of : List String → Option String
first_of [] = none
first_of (a ∷ as') = some a

abbrev pub add_container : Progress → String → Value → String → Progress
add_container p config_id credential credential_type = record p {
  stored =
      p.stored
      ++ (record { credential_configuration_id = config_id; credential_type = credential_type }
          ∷ []);
  containers = p.containers ++ (container credential_type credential ∷ []);
}

-- The credentials of a response, and why there are none.
unfoldable pub credentials_of : CredentialResponse → Result (List Value) WalletError
credentials_of issued =
    if is_some issued.transaction_id
    then err (upstream "deferred issuance is not supported")
    else present (issued.credentials ++ (elim issued.credential [ none ↦ [] | some c ↦ c ∷ [] ]))
  where
    present : List Value → Result (List Value) WalletError
    present [] = err (upstream "credential response carried no credential")
    present (c ∷ cs) = ok (c ∷ cs)

abbrev pub not_kept : String → CredentialConfiguration → List Value → NotStoredCredential
not_kept config_id configuration credentials = record {
  credential_configuration_id = config_id;
  format = configuration.format;
  count = length credentials;
  reason =
      Text.format ("only " ∷ format_jwt_vc_json ∷ " credentials can be presented over DCP" ∷ []);
}

module _ (x : External) (net : Network) (s : AppState x) where
  abbrev pub fetch_offered : Option CredentialOffer × Option String → Call net.World CredentialOffer
  fetch_offered (some offer, none) = pure offer
  fetch_offered (none, some uri) = get_json x net s net.credential_offer uri
  fetch_offered _ =
      fail
        (invalid_offer "give exactly one of a by-value credential_offer or a credential_offer_uri")

  unfoldable pub resolve_offer : RedeemOfferBody → Call net.World CredentialOffer
  resolve_offer body = lift (offered x net s body) >>= fetch_offered

  -- The nonce for the next proof.
  unfoldable pub request_nonce :
      CredentialIssuerMetadata → ResourceClient → Call net.World (ResourceClient × Option String)
  request_nonce metadata client = elim metadata.nonce_endpoint [
    | none ↦ pure (client, none)
    | some url ↦
        lift (check_outbound x net s url)
        >> (send x net s (failed_post url) (Network.post url) >>= λ response.
            lift (read_json x net s net.nonce_response url response) >>= λ c_nonce.
            pure (remember_nonce client response, some c_nonce))
  ]

  -- The loop over the credentials of one answer.
  unfoldable pub accept_all : String → List Value → Progress → Call net.World Progress
  accept_all config_id [] p = pure p
  accept_all config_id (c ∷ cs) p = read net.now >>= λ now.
      lift (accept_issued_credential x net s c now) >>= λ credential_type.
      accept_all config_id cs (add_container p config_id c credential_type)

  abbrev pub keep :
      String → CredentialConfiguration → List Value → Progress → Call net.World Progress
  keep config_id configuration credentials p =
      if configuration.format == format_jwt_vc_json
      then accept_all config_id credentials p
      else pure (record p {
        not_stored = p.not_stored ++ (not_kept config_id configuration credentials ∷ []);
      })

  -- One request for credentials: a nonce, a proof, the request, and what comes of its answer.
  unfoldable pub request_target :
      CredentialIssuerMetadata
      → String
      → CredentialConfiguration
      → Progress
      → Value
      → Call net.World Progress
  request_target metadata config_id configuration p target =
      request_nonce metadata p.client >>= λ answer. read net.now >>= λ now.
      let proof =
        build_jwt_proof_for_client x s.identity metadata.credential_issuer (answer.1)
          s.config.oid4vci_client_id
          (for_binding_methods configuration.cryptographic_binding_methods_supported) now in
      let request =
        set_field "proofs" (json_object (("jwt", json_array (string proof ∷ [])) ∷ [])) target in
      post_json x net s net.credential_response metadata.credential_endpoint request (answer.0)
      >>= λ issued. lift (credentials_of (issued.1)) >>= λ credentials.
          keep config_id configuration credentials (record p { client = issued.0 })

  unfoldable pub request_targets :
      CredentialIssuerMetadata
      → String
      → CredentialConfiguration
      → List Value
      → Progress
      → Call net.World Progress
  request_targets metadata config_id configuration [] p = pure p
  request_targets metadata config_id configuration (t ∷ ts) p =
      request_target metadata config_id configuration p t
      >>= request_targets metadata config_id configuration ts

  abbrev pub described :
      CredentialIssuerMetadata → String → Result CredentialConfiguration WalletError
  described metadata config_id =
      ok_or (Assoc.get config_id metadata.credential_configurations_supported)
        (upstream (Text.format ("issuer metadata does not describe '" ∷ config_id ∷ "'" ∷ [])))

  -- The loop over the offered configurations.
  unfoldable pub request_all :
      CredentialIssuerMetadata → TokenResponse → List String → Progress → Call net.World Progress
  request_all metadata token [] p = pure p
  request_all metadata token (id ∷ ids) p = lift (described metadata id) >>= λ configuration.
      request_targets metadata id configuration
        (targets id (credential_identifiers_for token.authorization_details id)) p
      >>= request_all metadata token ids

  abbrev pub grant_of : CredentialOffer → Result PreAuthorizedCodeGrant WalletError
  grant_of offer =
      ok_or (and_then offer.grants (λ (g : OfferGrants). g.pre_authorized_code))
        (invalid_offer "only offers with a pre-authorized_code grant are supported")

  abbrev pub check_given : PreAuthorizedCodeGrant → Option String → Result (Unit {0}) WalletError
  check_given grant tx_code =
      guard (is_none grant.tx_code || is_some tx_code)
        (invalid_offer "this offer requires a tx_code")

  -- The transaction code that goes into the form.
  abbrev sent_code : PreAuthorizedCodeGrant → Option String → Option String
  sent_code grant tx_code = if is_some grant.tx_code then tx_code else none

  abbrev server_of : CredentialOffer → PreAuthorizedCodeGrant → CredentialIssuerMetadata → String
  server_of offer grant metadata =
      unwrap_or (or_else grant.authorization_server (first_of metadata.authorization_servers))
        offer.credential_issuer

  abbrev is_dpop : TokenResponse → Bool
  is_dpop token = eq_ignore_ascii_case token.token_type "dpop"

  -- The metadata of the issuer and of its authorization server.
  unfoldable pub discover :
      CredentialOffer
      → PreAuthorizedCodeGrant
      → Call net.World (CredentialIssuerMetadata × AuthorizationServerMetadata)
  discover offer grant =
      lift (
        map_err invalid_offer (well_known_url offer.credential_issuer credential_issuer_well_known))
      >>= λ metadata_url. get_json x net s net.issuer_metadata metadata_url >>= λ metadata.
          lift (
            guard (trim_slashes metadata.credential_issuer == trim_slashes offer.credential_issuer)
              mismatch)
          >> (lift (
                map_err invalid_offer
                  (well_known_url (server_of offer grant metadata) authorization_server_well_known))
              >>= λ server_url. get_json x net s net.server_metadata server_url >>= λ server.
                  pure (metadata, server))

  -- The exchange of the code for an access token.
  unfoldable pub exchange :
      AuthorizationServerMetadata
      → PreAuthorizedCodeGrant
      → Option String
      → Call net.World TokenResponse
  exchange server grant tx_code =
      let url = server.token_endpoint in
      let use_dpop = offers_es256 server in
      let form =
        token_form grant.pre_authorized_code (sent_code grant tx_code) s.config.oid4vci_client_id in
      lift (check_outbound x net s url)
      >> (request_token x net s 2 server use_dpop form none >>= λ response.
          lift (read_json x net s net.token_response url response) >>= λ token.
          lift (
            guard (not (is_dpop token) || use_dpop)
              (upstream "token endpoint issued a DPoP-bound token the wallet did not ask for"))
          >> pure token)

  abbrev pub start : TokenResponse → Progress
  start token = record {
    client = record { access_token = token.access_token; dpop = is_dpop token; nonce = none };
    containers = [];
    stored = [];
    not_stored = [];
  }

  -- All requests of a redemption, before anything is stored.
  unfoldable pub collect : RedeemOfferBody → Call net.World (CredentialOffer × Progress)
  collect body = resolve_offer body >>= λ offer. lift (grant_of offer) >>= λ grant.
      lift (check_given grant body.tx_code)
      >> (discover offer grant >>= λ metadata. exchange (metadata.1) grant body.tx_code >>= λ token.
          request_all (metadata.0) token offer.credential_configuration_ids (start token) >>= λ p.
          pure (offer, p))

  abbrev pub batch : String → List CredentialContainer → StoredCredentialBatch
  batch id containers = record {
    issuer_pid = Text.format ("oid4vci:" ∷ id ∷ []);
    holder_pid = none;
    status = "ISSUED";
    rejection_reason = none;
    credentials = containers;
  }

  -- Nothing is stored where nothing was collected.
  unfoldable pub store_all : List CredentialContainer → net.World → net.World × AppState x
  store_all [] w = (w, s)
  store_all (c ∷ cs) w =
      let (w', id) = net.new_v4 w in (w', record s { store = batch id (c ∷ cs) ∷ s.store })

  unfoldable pub redeem :
      RedeemOfferBody → net.World → net.World × AppState x × Result RedeemOfferResponse WalletError
  redeem body w =
      let (w1, answer) = collect body w in
      elim answer [
        | err e ↦ (w1, s, err e)
        | ok (offer, p) ↦
            let (w2, s') = store_all p.containers w1 in
            (
              w2,
              s',
              ok (record {
                credential_issuer = offer.credential_issuer;
                stored = p.stored;
                not_stored = p.not_stored;
              }),
            )
      ]

  unfoldable pub redeem_offer :
      Option String
      → RedeemOfferBody
      → net.World
      → net.World × AppState x × Response RedeemOfferResponse
  redeem_offer authorization body w =
      if not (is_operator x s authorization)
      then (
        w,
        s,
        oauth_error 401 "invalid_client" "operator endpoint requires HTTP Basic client credentials",
      )
      else let (w', s', result) = redeem body w in (w', s', redemption_response result)

  abbrev parsed_offer : Option String → Result (Option CredentialOffer) String
  parsed_offer none = ok none
  parsed_offer (some text) = elim (net.offer_from_str text) [
    | ok offer ↦ ok (some offer)
    | err e ↦ err e
  ]

  unfoldable pub credential_offer_endpoint :
      Assoc String → net.World → net.World × AppState x × Response RedeemOfferResponse
  credential_offer_endpoint params w = elim (parsed_offer (Assoc.get "credential_offer" params)) [
    | err e ↦ (
      w,
      s,
      oauth_error 400 "invalid_credential_offer"
          (Text.format ("credential_offer is not a Credential Offer: " ∷ e ∷ [])),
    )
    | ok offer ↦
        let (w', s', result) =
          redeem
            (record {
              offer = none;
              credential_offer = offer;
              credential_offer_uri = Assoc.get "credential_offer_uri" params;
              tx_code = s.config.oid4vci_offer_tx_code;
            })
            w in
        (w', s', redemption_response result)
  ]

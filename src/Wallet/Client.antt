-- ===== src/Wallet/Client.antt =====
-- The requests of the wallet (crates/identity-hub-http/src/oid4vci.rs). A client's nonce is passed
-- along; a failed call ends the redemption, so the client is given back by an answer only.
use ds_identity_hub_rs.Common.{
  ℕ, zero, suc, String, Bool, true, false, not, ◌&&◌, Option, none, some, List, [], ◌∷◌, ◌++◌, eqb,
  if◌then◌else◌, is_some, is_none, Result, map_err, ok, err,
}
use ds_identity_hub_rs.Common.Json.{Value}
use ds_identity_hub_rs.Common.Text.{format}
use ds_identity_hub_rs.External.{External}
use ds_identity_hub_rs.Outbound.{error_text, check_url}
use ds_identity_hub_rs.Hub.{AppState}
use ds_identity_hub_rs.Oid4vci.Metadata.{
  AuthorizationServerMetadata, client_assertion_type_jwt_bearer, pre_authorized_code_grant,
  split_at,
}
use ds_identity_hub_rs.Oid4vci.Signing.{build_dpop_proof, build_client_assertion}
use ds_identity_hub_rs.RegistryTrust.{is_success}
use ds_identity_hub_rs.Wallet.{WalletError, outbound, upstream}
use ds_identity_hub_rs.Wallet.Network.{
  Request, HttpResponse, Network, Call, ◌>>=◌, ◌>>◌, lift, pure, fail, read,
}
use ds_identity_hub_rs.Wallet.Network

abbrev contains : String → String → Bool
contains pattern s = is_some (split_at pattern s)

abbrev pub is_challenge : HttpResponse → Bool
is_challenge response =
    if eqb response.status 401
    then (elim response.www_authenticate [ none ↦ false | some v ↦ contains "use_dpop_nonce" v ])
    else eqb response.status 400

unfoldable pub dpop_nonce_challenge : HttpResponse → Option String
dpop_nonce_challenge response = elim response.dpop_nonce [
  | none ↦ none
  | some server_nonce ↦ if is_challenge response then some server_nonce else none
]

-- A challenge is answered where DPoP is in use, and only the first one.
abbrev pub answered_challenge : Bool → Bool → HttpResponse → Option String
answered_challenge dpop first response =
    if dpop && first then dpop_nonce_challenge response else none

pub record ResourceClient : Type 0 where
  pub access_token : String
  pub dpop : Bool
  pub nonce : Option String

unfoldable pub remember_nonce : ResourceClient → HttpResponse → ResourceClient
remember_nonce client response = elim response.dpop_nonce [
  | none ↦ client
  | some server_nonce ↦ record client { nonce = some server_nonce }
]

abbrev pub failed_post : String → String → WalletError
failed_post url e = upstream (format ("POST " ∷ url ∷ ": " ∷ e ∷ []))

abbrev pub repeated_challenge : String → WalletError
repeated_challenge url = failed_post url "repeated use_dpop_nonce challenge"

-- The form of a token request, before the client assertion.
abbrev pub token_form : String → Option String → Option String → List (String × String)
token_form code tx_code client_id =
    ("grant_type", pre_authorized_code_grant)
      ∷ ("pre-authorized_code", code)
      ∷ (elim tx_code [ none ↦ [] | some t ↦ ("tx_code", t) ∷ [] ])
    ++ (elim client_id [
      | none ↦ []
      | some id ↦
          ("client_id", id) ∷ ("client_assertion_type", client_assertion_type_jwt_bearer) ∷ []
    ])

module _ (x : External) (net : Network) (s : AppState x) where
  unfoldable pub check_outbound : String → Result (Unit {0}) WalletError
  check_outbound url = map_err (λ e. outbound (error_text e)) (check_url x s.outbound url)

  -- A request to a host that the policy allows, or that the code has just checked.
  abbrev pub send : (String → WalletError) → Request → Call net.World HttpResponse
  send failed request w = let (w', answer) = net.send request w in (w', map_err failed answer)

  unfoldable pub read_json :
      {A : Type 0} → (List ℕ → Result A String) → String → HttpResponse → Result A WalletError
  read_json decode url response =
      if not (is_success response.status)
      then err (
          upstream (
            format (
              "POST "
              ∷ url
              ∷ " returned HTTP "
              ∷ x.display_status response.status
              ∷ ": "
              ∷ (elim response.text [ ok body ↦ body | err _ ↦ "" ])
              ∷ [])))
      else map_err (failed_post url) (read_body decode response)
    where
      read_body : {A : Type 0} → (List ℕ → Result A String) → HttpResponse → Result A String
      read_body decode response = elim response.bytes [ ok body ↦ decode body | err e ↦ err e ]

  abbrev failed_get : String → String → WalletError
  failed_get url e = upstream (format ("GET " ∷ url ∷ ": " ∷ e ∷ []))

  abbrev read_get :
      {A : Type 0} → (List ℕ → Result A String) → String → HttpResponse → Result A WalletError
  read_get decode url response =
      if not (is_success response.status)
      then err (
          upstream
            (format ("GET " ∷ url ∷ " returned HTTP " ∷ x.display_status response.status ∷ [])))
      else (elim response.bytes [
        | ok body ↦ map_err (failed_get url) (decode body)
        | err e ↦ err (failed_get url e)
      ])

  unfoldable pub get_json : {A : Type 0} → (List ℕ → Result A String) → String → Call net.World A
  get_json decode url =
      lift (check_outbound url)
      >> (send (failed_get url) (Network.get url) >>= λ response.
          lift (read_get decode url response))

  -- The client assertion of one attempt, with an identifier of its own.
  abbrev pub assertion :
      AuthorizationServerMetadata → Option String → Call net.World (List (String × String))
  assertion metadata none = pure []
  assertion metadata (some client_id) = read net.new_v4 >>= λ jti. read net.now >>= λ now. pure (
      ("client_assertion", build_client_assertion x s.identity client_id metadata.issuer jti now)
      ∷ [])

  -- The DPoP proof of one request, where DPoP is in use.
  unfoldable pub dpop_header :
      Bool → String → Option String → Option String → Call net.World (Option String)
  dpop_header false url server_nonce access_token = pure none
  dpop_header true url server_nonce access_token = read net.new_v4 >>= λ jti.
      read net.now >>= λ now.
      pure (some (build_dpop_proof x s.identity "POST" url server_nonce access_token jti now))

  -- The loop over the attempts at the token endpoint.
  unfoldable pub request_token :
      ℕ
      → AuthorizationServerMetadata
      → Bool
      → List (String × String)
      → Option String
      → Call net.World HttpResponse
  request_token zero metadata use_dpop form as_nonce =
      fail (repeated_challenge metadata.token_endpoint)
  request_token (suc attempts) metadata use_dpop form as_nonce =
      let url = metadata.token_endpoint in
      assertion metadata s.config.oid4vci_client_id >>= λ asserted.
      dpop_header use_dpop url as_nonce none >>= λ dpop.
      send (failed_post url) (Network.post_form url (form ++ asserted) dpop) >>= λ response.
      elim (answered_challenge use_dpop (is_none as_nonce) response) [
        | some server_nonce ↦ request_token attempts metadata use_dpop form (some server_nonce)
        | none ↦ pure response
      ]

  abbrev authorization : ResourceClient → String
  authorization client =
      format ((if client.dpop then "DPoP " else "Bearer ") ∷ client.access_token ∷ [])

  -- The loop over the attempts of `ResourceClient::post_json`.
  unfoldable pub post_attempts :
      {A : Type 0}
      → ℕ
      → Bool
      → (List ℕ → Result A String)
      → String
      → Value
      → ResourceClient
      → Call net.World (ResourceClient × A)
  post_attempts zero first decode url body client = fail (repeated_challenge url)
  post_attempts (suc attempts) first decode url body client =
      dpop_header client.dpop url client.nonce (some client.access_token) >>= λ dpop.
      send (failed_post url) (Network.post_json url body (authorization client) dpop)
      >>= λ response. elim (answered_challenge client.dpop first response) [
        | some server_nonce ↦
            post_attempts attempts false decode url body
              (record client { nonce = some server_nonce })
        | none ↦
            lift (read_json decode url response) >>= λ a. pure (remember_nonce client response, a)
      ]

  unfoldable pub post_json :
      {A : Type 0}
      → (List ℕ → Result A String)
      → String
      → Value
      → ResourceClient
      → Call net.World (ResourceClient × A)
  post_json decode url body client =
      lift (check_outbound url) >> post_attempts 2 true decode url body client

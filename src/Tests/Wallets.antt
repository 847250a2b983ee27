-- ===== src/Tests/Wallets.antt =====
-- Examples of the properties on the wallet: an issuer that answers every request over HTTPS, and
-- the log of the URLs that were asked for.
use ds_identity_hub_rs.Common.{
  ◌≤◌, String, ◌≡◌, refl, true, none, some, List, [], ◌∷◌, arith, All, ok, err,
}
use ds_identity_hub_rs.Common.Assoc.{Assoc, get}
use ds_identity_hub_rs.Common.Json.{null, string, set_field}
use ds_identity_hub_rs.Common.Text.{trim_end, eq_ignore_ascii_case}
use ds_identity_hub_rs.Outbound.{check_url}
use ds_identity_hub_rs.Hub.{AppState}
use ds_identity_hub_rs.Tests.{world, hub}
use ds_identity_hub_rs.Oid4vci.{CredentialOffer}
use ds_identity_hub_rs.Oid4vci.Metadata.{
  CredentialConfiguration, CredentialIssuerMetadata, AuthorizationServerMetadata,
}
use ds_identity_hub_rs.Wallet.{WalletError, RedeemOfferResponse}
use ds_identity_hub_rs.Wallet.Network.{Request, HttpResponse, Network, Call, url_of}
use ds_identity_hub_rs.Wallet.Network
use ds_identity_hub_rs.Wallet.Checks.{RedeemOfferBody}
use ds_identity_hub_rs.Common.Assoc
use ds_identity_hub_rs.Oid4vci.{credential_identifiers_for}
use ds_identity_hub_rs.Oid4vci.Metadata.{well_known_url}
use ds_identity_hub_rs.Oid4vci.Signing.{
  build_dpop_proof, build_jwt_proof_for_client, for_binding_methods,
}
use ds_identity_hub_rs.Wallet.Checks.{offered, accept_issued_credential}
use ds_identity_hub_rs.Wallet.Client.{
  ResourceClient, request_token, post_attempts, post_json, get_json, check_outbound, dpop_header,
  dpop_nonce_challenge, read_json, remember_nonce,
}
use ds_identity_hub_rs.Wallet.Redeem.{
  redeem, collect, resolve_offer, discover, exchange, request_all, request_targets, request_target,
  request_nonce, credentials_of, accept_all, store_all,
}
use ds_identity_hub_rs.Wallet.Accepted.{IsFiled, redeem-IsFiled}
use ds_identity_hub_rs.Wallet.Contained.{IsKept, redeem-kept}
use ds_identity_hub_rs.Wallet.Attempts.{attempts_enough}

abbrev offer : CredentialOffer
offer = record {
  credential_issuer = "https://alice";
  credential_configuration_ids = "membership" ∷ [];
  grants = some (record {
    pre_authorized_code =
        some (record { pre_authorized_code = "code"; tx_code = none; authorization_server = none });
  });
}

abbrev configuration : CredentialConfiguration
configuration = record {
  format = "jwt_vc_json";
  scope = none;
  cryptographic_binding_methods_supported = [];
  credential_signing_alg_values_supported = [];
  proof_types_supported = none;
  credential_definition = none;
}

abbrev metadata : CredentialIssuerMetadata
metadata = record {
  credential_issuer = "https://alice";
  authorization_servers = [];
  credential_endpoint = "https://alice/credential";
  nonce_endpoint = some "https://alice/nonce";
  credential_configurations_supported = ("membership", configuration) ∷ [];
}

abbrev server : AuthorizationServerMetadata
server = record {
  issuer = "https://alice";
  token_endpoint = "https://alice/token";
  grant_types_supported = [];
  pre_authorized_grant_anonymous_access_supported = none;
  dpop_signing_alg_values_supported = "ES256" ∷ [];
}

abbrev answered : HttpResponse
answered = record {
  status = 200;
  dpop_nonce = none;
  www_authenticate = none;
  text = ok "";
  bytes = ok [];
}

abbrev net : Network
net = record {
  World = List String;
  send = λ r log. (url_of r ∷ log, ok answered);
  now = λ log. (log, 1000);
  new_v4 = λ log. (log, "u1");
  credential_offer = λ bs. ok offer;
  issuer_metadata = λ bs. ok metadata;
  server_metadata = λ bs. ok server;
  token_response = λ bs. ok (record {
    access_token = "t";
    token_type = "DPoP";
    expires_in = 300;
    authorization_details = [];
  });
  nonce_response = λ bs. ok "n1";
  credential_response = λ bs.
      ok (record { credentials = string "vc" ∷ []; credential = none; transaction_id = none });
  offer_from_str = λ s. ok offer;
  query_pairs = λ s. ok [];
}

abbrev by_reference : RedeemOfferBody
by_reference = record {
  offer = none;
  credential_offer = none;
  credential_offer_uri = some "https://alice/offers/o1";
  tx_code = none;
}

abbrev redeemed : RedeemOfferResponse
redeemed = record {
  credential_issuer = "https://alice";
  stored = record { credential_configuration_id = "membership"; credential_type = "member" } ∷ [];
  not_stored = [];
}

abbrev holding : AppState world
holding = record hub {
  store =
      record {
        issuer_pid = "oid4vci:u1";
        holder_pid = none;
        status = "ISSUED";
        rejection_reason = none;
        credentials =
            record { credential_type = "member"; payload = string "vc"; format = "jwt_vc_json" }
            ∷ [];
      }
      ∷ [];
}

redemption : redeem world net hub by_reference [] ≡ (
  "https://alice/credential" ∷ "https://alice/nonce" ∷ "https://alice/token"
      ∷ "https://alice/.well-known/oauth-authorization-server"
      ∷ "https://alice/.well-known/openid-credential-issuer" ∷ "https://alice/offers/o1" ∷ [],
  holding,
  ok redeemed,
)
unfolding redeem collect resolve_offer offered get_json check_outbound check_url discover
    well_known_url trim_end exchange request_token dpop_header build_dpop_proof dpop_nonce_challenge
    read_json eq_ignore_ascii_case request_all Assoc.get credential_identifiers_for request_targets
    request_target request_nonce remember_nonce post_json post_attempts credentials_of accept_all
    accept_issued_credential store_all build_jwt_proof_for_client for_binding_methods set_field
    Network.◌>>=◌ Network.◌>>◌
redemption = refl

clock_late : (w : net.World) → 1000 ≤ (net.now w).1
clock_late w = omega arith

redeem-IsFiled_example :
    let (w', s', answer) = redeem world net hub by_reference [] in
    ((response : RedeemOfferResponse)
      → answer ≡ ok response
      → IsFiled world net hub 1000 clock_late s' response)
    × ((e : WalletError) → answer ≡ err e → s' ≡ hub)
redeem-IsFiled_example = redeem-IsFiled world net hub 1000 clock_late by_reference []

-- Every URL in the log is one that the policy allows.
abbrev AllAllowed : List String → Type 0
AllAllowed log = All (λ url. check_url world hub.outbound url ≡ ok tt) log

log_kept : IsKept world net hub AllAllowed
log_kept = (λ r log allowed all_allowed. (allowed, all_allowed), λ log h. h, λ log h. h)

redeem-kept_example : AllAllowed (redeem world net hub by_reference []).0
redeem-kept_example = redeem-kept world net hub AllAllowed log_kept by_reference [] tt

abbrev client : ResourceClient
client = record { access_token = "t"; dpop = true; nonce = none }

attempts_enough_example :
    (request_token world net hub 7 server true [] none
      ≡ request_token world net hub 2 server true [] none)
    × (post_attempts world net hub 7 true net.credential_response "https://alice/credential" null
          client
        ≡ post_attempts world net hub 2 true net.credential_response "https://alice/credential" null
            client)
attempts_enough_example =
    attempts_enough world net hub 5 server true [] net.credential_response
      "https://alice/credential" null client

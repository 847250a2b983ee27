-- ===== src/Hub/Offers/Published.antt =====
-- The metadata that the issuer publishes (crates/identity-hub-http/src/oid4vci.rs). The map of the
-- configurations keeps the order of the catalog, whose ids are distinct; the code's sorts by id.
use ds_identity_hub_rs.Common.{ℕ, zero, suc, ◌/◌, ◌%◌, ◌^◌, true, some, List, [], ◌∷◌, ◌++◌}
use ds_identity_hub_rs.Common.Assoc.{Assoc}
use ds_identity_hub_rs.Common.Json.{string, json_object, json_array}
use ds_identity_hub_rs.Common.Text.{format}
use ds_identity_hub_rs.External.{External}
use ds_identity_hub_rs.Hub.{base_url, AppState}
use ds_identity_hub_rs.Http.{Response, json}
use ds_identity_hub_rs.Common.Text
use ds_identity_hub_rs.Issuer.Definitions.{CredentialDefinition}
use ds_identity_hub_rs.Oid4vci.{tx_code_length}
use ds_identity_hub_rs.Oid4vci.Metadata.{
  CredentialConfiguration, CredentialIssuerMetadata, AuthorizationServerMetadata,
  format_jwt_vc_json, pre_authorized_code_grant,
}

-- The digits of a number, the lowest first.
unfoldable pub digits : ℕ → ℕ → List ℕ
digits zero n = []
digits (suc width) n = digits width (n / 10) ++ n % 10 ∷ []

-- `random_tx_code`, as the values of its six digits, from the random number.
unfoldable pub tx_code_digits : ℕ → List ℕ
unfolding digits
tx_code_digits random = digits tx_code_length (random % 10 ^ tx_code_length)

unfoldable pub configuration_of : CredentialDefinition → CredentialConfiguration
configuration_of d = record {
  format = format_jwt_vc_json;
  scope = some d.credential_type;
  cryptographic_binding_methods_supported = "did:web" ∷ "jwk" ∷ [];
  credential_signing_alg_values_supported = string "ES256" ∷ [];
  proof_types_supported = some (
      json_object (
        (
          "jwt",
          json_object
              (("proof_signing_alg_values_supported", json_array (string "ES256" ∷ [])) ∷ []),
        )
        ∷ []));
  credential_definition = some ("VerifiableCredential" ∷ d.credential_type ∷ []);
}

unfoldable pub configurations_supported : List CredentialDefinition → Assoc CredentialConfiguration
configurations_supported [] = []
configurations_supported (d ∷ ds) = (d.id, configuration_of d) ∷ configurations_supported ds

module _ (x : External) where
  unfoldable pub credential_issuer_metadata : AppState x → Response CredentialIssuerMetadata
  credential_issuer_metadata s = json 200 (record {
    credential_issuer = base_url s.config;
    authorization_servers = [];
    credential_endpoint = Text.format (base_url s.config ∷ "/oid4vci/credential" ∷ []);
    nonce_endpoint = some (Text.format (base_url s.config ∷ "/oid4vci/nonce" ∷ []));
    credential_configurations_supported = configurations_supported s.definitions;
  })

  unfoldable pub authorization_server_metadata : AppState x → Response AuthorizationServerMetadata
  authorization_server_metadata s = json 200 (record {
    issuer = base_url s.config;
    token_endpoint = Text.format (base_url s.config ∷ "/oid4vci/token" ∷ []);
    grant_types_supported = pre_authorized_code_grant ∷ [];
    pre_authorized_grant_anonymous_access_supported = some true;
    dpop_signing_alg_values_supported = [];
  })

-- ===== src/Hub/Offers/Create.antt =====
-- The offers that the operator creates (crates/identity-hub-http/src/oid4vci.rs). The identifiers
-- that the code draws at random are arguments.
use ds_identity_hub_rs.Common.{
  ℕ, String, Bool, false, not, ◌&&◌, Option, none, some, List, [], ◌∷◌, map, if◌then◌else◌,
  is_empty, find,
}
use ds_identity_hub_rs.Common.Assoc.{has}
use ds_identity_hub_rs.Common.Json.{and_then, unwrap_or}
use ds_identity_hub_rs.Common.Text.{format, strip_prefix, split_once, as_bytes}
use ds_identity_hub_rs.External.{External}
use ds_identity_hub_rs.Hub.{base_url, AppState}
use ds_identity_hub_rs.Http.{Response, oauth_error, json}
use ds_identity_hub_rs.Issuer.Definitions.{CredentialDefinition, DefinitionCatalog}
use ds_identity_hub_rs.Sts.{constant_time_eq}
use ds_identity_hub_rs.Oid4vci.{CredentialOffer, offer_ttl_secs, tx_code_length}
use ds_identity_hub_rs.Oid4vci.Table

pub record CreateOfferBody : Type 0 where
  pub credential_configuration_ids : Option (List String)
  pub tx_code : Bool

pub record CreateOfferResponse : Type 0 where
  pub credential_offer : CredentialOffer
  pub credential_offer_uri : String
  pub offer_uri : String
  pub tx_code : Option String

abbrev pub supported_ids : DefinitionCatalog → List String
supported_ids catalog = map (λ (d : CredentialDefinition). d.id) catalog

module _ (x : External) where
  unfoldable pub is_operator : AppState x → Option String → Bool
  unfolding strip_prefix split_once constant_time_eq as_bytes
  is_operator s authorization =
      elim (and_then (and_then (and_then authorization (strip_prefix "Basic ")) x.decode_base64)
        (split_once b':')) [
          | none ↦ false
          | some (id, secret) ↦
              constant_time_eq (as_bytes id) (as_bytes s.sts_config.client_id)
              && constant_time_eq (as_bytes secret) (as_bytes s.sts_config.client_secret)
        ]

  abbrev pub offer_of : AppState x → List String → String → Option String → CredentialOffer
  offer_of s ids code tx_code = record {
    credential_issuer = base_url s.config;
    credential_configuration_ids = ids;
    grants = some (record {
      pre_authorized_code = some (record {
        pre_authorized_code = code;
        tx_code = elim tx_code [
          | none ↦ none
          | some _ ↦ some (record {
            input_mode = some "numeric";
            length = some tx_code_length;
            description = some "Transaction code delivered by the issuer";
          })
        ];
        authorization_server = none;
      });
    });
  }

  -- The state once an offer of some configurations is made.
  unfoldable pub with_offer :
      AppState x → List String → String → Option String → String → ℕ → AppState x
  with_offer s ids code tx_code offer_id now = record s {
    oid4vci = record s.oid4vci {
      pre_authorized_codes =
          Table.insert s.oid4vci.pre_authorized_codes code offer_ttl_secs
            (record { credential_configuration_ids = ids; tx_code = tx_code; failed_attempts = 0 })
            now;
      offers =
          Table.insert s.oid4vci.offers offer_id offer_ttl_secs (offer_of s ids code tx_code) now;
    };
  }

  unfoldable pub create_offer :
      AppState x
      → Option String
      → Option CreateOfferBody
      → String
      → String
      → String
      → ℕ
      → AppState x × Response CreateOfferResponse
  unfolding is_operator with_offer
  create_offer s authorization body code random_tx_code offer_id now =
      let given =
        unwrap_or body (record { credential_configuration_ids = none; tx_code = false }) in
      let supported = supported_ids s.definitions in
      let ids = unwrap_or given.credential_configuration_ids supported in
      let tx_code = if given.tx_code then some random_tx_code else none in
      let uri = format (base_url s.config ∷ "/oid4vci/offers/" ∷ offer_id ∷ []) in
      if not (is_operator s authorization)
      then (
        s,
        oauth_error 401 "invalid_client" "operator endpoint requires HTTP Basic client credentials",
      )
      else if is_empty ids
      then (s, oauth_error 400 "invalid_request" "credential_configuration_ids must not be empty")
      else elim (find (λ id. not (has id supported)) ids) [
        | some unknown ↦ (
          s,
          oauth_error 400 "unknown_credential_configuration"
              (format ("'" ∷ unknown ∷ "' is not offered by this issuer" ∷ [])),
        )
        | none ↦ (
          with_offer s ids code tx_code offer_id now,
          json 201 (record {
            credential_offer = offer_of s ids code tx_code;
            credential_offer_uri = uri;
            offer_uri = x.offer_url uri;
            tx_code = tx_code;
          }),
        )
      ]

-- ===== src/Oid4vci.antt =====
-- The OID4VCI messages (crates/identity-hub-core/src/oid4vci.rs) and the issuer's state
-- (crates/identity-hub-http/src/oid4vci.rs).
pub mod Table
pub mod Proof
pub mod Metadata
pub mod Signing
use ds_identity_hub_rs.Common.{
  ℕ, String, Bool, false, ◌&&◌, Option, none, some, List, [], ◌∷◌, ◌++◌, ◌==◌, if◌then◌else◌,
}
use ds_identity_hub_rs.Common.Json.{unwrap_or}
use ds_identity_hub_rs.Oid4vci.Table.{ExpiringTable}
use ds_identity_hub_rs.Oid4vci.Table

abbrev pub max_oid4vci_entries : ℕ
max_oid4vci_entries = 2048

abbrev pub offer_ttl_secs : ℕ
offer_ttl_secs = 600

abbrev pub access_token_ttl_secs : ℕ
access_token_ttl_secs = 300

abbrev pub nonce_ttl_secs : ℕ
nonce_ttl_secs = 300

abbrev pub max_tx_code_attempts : ℕ
max_tx_code_attempts = 3

abbrev pub tx_code_length : ℕ
tx_code_length = 6

pub record TxCodeDescription : Type 0 where
  pub input_mode : Option String
  pub length : Option ℕ
  pub description : Option String

pub record PreAuthorizedCodeGrant : Type 0 where
  pub pre_authorized_code : String
  pub tx_code : Option TxCodeDescription
  pub authorization_server : Option String

pub record OfferGrants : Type 0 where
  pub pre_authorized_code : Option PreAuthorizedCodeGrant

pub record CredentialOffer : Type 0 where
  pub credential_issuer : String
  pub credential_configuration_ids : List String
  pub grants : Option OfferGrants

pub record PreAuthorizedGrant : Type 0 where
  pub credential_configuration_ids : List String
  pub tx_code : Option String
  pub failed_attempts : ℕ

pub record AccessGrant : Type 0 where
  pub credential_configuration_ids : List String

pub record IssuerState : Type 0 where
  pub offers : ExpiringTable CredentialOffer
  pub pre_authorized_codes : ExpiringTable PreAuthorizedGrant
  pub access_tokens : ExpiringTable AccessGrant
  pub nonces : ExpiringTable (Unit {0})

unfoldable pub default : IssuerState
default = record {
  offers = Table.new max_oid4vci_entries;
  pre_authorized_codes = Table.new max_oid4vci_entries;
  access_tokens = Table.new max_oid4vci_entries;
  nonces = Table.new max_oid4vci_entries;
}

pub record TokenAuthorizationDetail : Type 0 where
  pub detail_type : String
  pub credential_configuration_id : Option String
  pub credential_identifiers : List String

pub record TokenResponse : Type 0 where
  pub access_token : String
  pub token_type : String
  pub expires_in : ℕ
  pub authorization_details : List TokenAuthorizationDetail

abbrev is_detail_for : String → TokenAuthorizationDetail → Bool
is_detail_for configuration_id d =
    d.detail_type == "openid_credential"
    && (elim d.credential_configuration_id [ none ↦ false | some id ↦ id == configuration_id ])

unfoldable pub credential_identifiers_for : List TokenAuthorizationDetail → String → List String
credential_identifiers_for [] configuration_id = []
credential_identifiers_for (d ∷ ds) configuration_id =
    let rest = credential_identifiers_for ds configuration_id in
    if is_detail_for configuration_id d then d.credential_identifiers ++ rest else rest

pub record SingleProof : Type 0 where
  pub proof_type : String
  pub jwt : Option String

-- `proofs` is the list `jwt` of the `Proofs` object.
pub record CredentialRequest : Type 0 where
  pub credential_configuration_id : Option String
  pub credential_identifier : Option String
  pub proofs : Option (List String)
  pub proof : Option SingleProof

abbrev single_jwt : Option SingleProof → List String
single_jwt none = []
single_jwt (some p) = elim p.jwt [
  | none ↦ []
  | some jwt ↦ if p.proof_type == "jwt" then jwt ∷ [] else []
]

unfoldable pub jwt_proofs : CredentialRequest → List String
jwt_proofs r = unwrap_or r.proofs [] ++ single_jwt r.proof

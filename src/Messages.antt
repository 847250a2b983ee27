-- ===== src/Messages.antt =====
-- The protocol messages (crates/identity-hub-core/src/messages.rs).
use ds_identity_hub_rs.Common.{String, Option, none, some, List, [], ◌∷◌}
use ds_identity_hub_rs.Common.Json.{Value}

pub record PresentationQueryMessage : Type 0 where
  pub context : List String
  pub message_type : String
  pub scope : List String
  pub presentation_definition : Option Value

pub record PresentationResponseMessage : Type 0 where
  pub context : List String
  pub message_type : String
  pub presentation : List String
  pub presentation_submission : Option Value

abbrev pub dcp_context : List String
dcp_context = "https://w3id.org/dspace-dcp/v1.0/dcp.jsonld" ∷ []

abbrev pub vc_context : String
vc_context = "https://www.w3.org/2018/credentials/v1"

abbrev pub presentation_response : List String → PresentationResponseMessage
presentation_response presentation = record {
  context = dcp_context;
  message_type = "PresentationResponseMessage";
  presentation = presentation;
  presentation_submission = none;
}

pub record CredentialContainer : Type 0 where
  pub credential_type : String
  pub payload : Value
  pub format : String

pub record CredentialMessage : Type 0 where
  pub context : List String
  pub message_type : String
  pub issuer_pid : String
  pub holder_pid : String
  pub status : String
  pub credentials : List CredentialContainer
  pub rejection_reason : Option String

pub record CredentialRequestMessage : Type 0 where
  pub context : List String
  pub message_type : String
  pub holder_pid : String
  -- the `id` of each `CredentialRef`
  pub credentials : List String

pub record CredentialStatus : Type 0 where
  pub context : List String
  pub message_type : String
  pub issuer_pid : String
  pub holder_pid : String
  pub status : String

abbrev pub credential_status : String → String → String → CredentialStatus
credential_status issuer_pid holder_pid status = record {
  context = dcp_context;
  message_type = "CredentialStatus";
  issuer_pid = issuer_pid;
  holder_pid = holder_pid;
  status = status;
}

pub record CredentialObject : Type 0 where
  pub context : Option (List String)
  pub id : String
  pub object_type : String
  pub credential_type : Option String
  pub binding_methods : Option (List String)
  pub credential_schema : Option String
  pub profile : Option String
  pub issuance_policy : Option Value
  pub offer_reason : Option String

pub record CredentialOfferMessage : Type 0 where
  pub context : List String
  pub message_type : String
  pub issuer : String
  pub credentials : List CredentialObject

pub record IssuerMetadata : Type 0 where
  pub context : List String
  pub message_type : String
  pub issuer : String
  pub credentials_supported : Option (List CredentialObject)

abbrev pub issuer_metadata_message : String → List CredentialObject → IssuerMetadata
issuer_metadata_message issuer credentials_supported = record {
  context = dcp_context;
  message_type = "IssuerMetadata";
  issuer = issuer;
  credentials_supported = some credentials_supported;
}

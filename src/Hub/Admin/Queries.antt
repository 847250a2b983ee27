-- ===== src/Hub/Admin/Queries.antt =====
-- The queries of the admin API (crates/identity-hub-http/src/admin.rs), over the JSON form of the
-- records (crates/identity-hub-http/src/issuer.rs, the derived `Serialize`).
use ds_identity_hub_rs.Common.{
  ℕ, String, Bool, ◌||◌, Option, none, some, List, [], ◌∷◌, map, eqb, if◌then◌else◌, all, Result,
  ok, err,
}
use ds_identity_hub_rs.Common.Json.{Value, null, string, json_object, json_array, json_num}
use ds_identity_hub_rs.External.{External}
use ds_identity_hub_rs.Hub.{AppState}
use ds_identity_hub_rs.Http.{Response, refuse, json}
use ds_identity_hub_rs.Issuer.Error.{IssuerError, into_response}
use ds_identity_hub_rs.Issuer.Definitions.{CredentialDefinition}
use ds_identity_hub_rs.Issuer.Holders.{Holder, HolderStatus}
use ds_identity_hub_rs.Issuer.Holders
use ds_identity_hub_rs.Issuer.Process.{IssuanceProcess, ProcessState}
use ds_identity_hub_rs.Issuer.Process
use ds_identity_hub_rs.Issuer.Issued.{IssuedCredential, CredentialRecordStatus}
use ds_identity_hub_rs.Issuer.Issued
use ds_identity_hub_rs.Issuer.Query.{QuerySpec, apply}
use ds_identity_hub_rs.Issuer.Query
use ds_identity_hub_rs.State.Requests
use ds_identity_hub_rs.Hub.Admin.{parse_body}

abbrev json_or_null : {A : Type 0} → (A → Value) → Option A → Value
json_or_null f none = null
json_or_null f (some a) = f a

abbrev holder_status : HolderStatus → String
holder_status Holders.pending = "pending"
holder_status Holders.approved = "approved"
holder_status Holders.rejected = "rejected"

abbrev process_state : ProcessState → String
process_state Process.submitted = "SUBMITTED"
process_state Process.approved = "APPROVED"
process_state Process.delivered = "DELIVERED"
process_state Process.errored = "ERRORED"
process_state Process.rejected = "REJECTED"

abbrev record_status : CredentialRecordStatus → String
record_status Issued.active = "active"
record_status Issued.revoked = "revoked"

unfoldable pub definition_json : CredentialDefinition → Value
definition_json d = json_object (
    ("id", string d.id)
    ∷ ("credentialType", string d.credential_type)
    ∷ ("format", string d.format)
    ∷ ("validity", json_num d.validity)
    ∷ ("jsonSchemaUrl", json_or_null string d.json_schema_url)
    ∷ ("jsonSchema", json_or_null (λ v. v) d.json_schema)
    ∷ ("mappings", json_array d.mappings)
    ∷ ("rules", json_array d.rules)
    ∷ ("attestations", json_array d.attestations)
    ∷ ("createdAt", json_num d.created_at)
    ∷ [])

unfoldable pub holder_json : Holder → Value
holder_json h = json_object (
    ("holderId", string h.holder_id)
    ∷ ("did", string h.did)
    ∷ ("name", json_or_null string h.name)
    ∷ ("properties", json_object h.properties)
    ∷ ("status", string (holder_status h.status))
    ∷ ("createdAt", json_num h.created_at)
    ∷ [])

unfoldable pub process_json : IssuanceProcess → Value
process_json p = json_object (
    ("id", string p.id)
    ∷ ("state", string (process_state p.state))
    ∷ ("holderId", string p.holder_id)
    ∷ ("holderDid", string p.holder_did)
    ∷ ("holderPid", string p.holder_pid)
    ∷ ("credentialDefinitions", json_array (map string p.credential_definitions))
    ∷ ("errorDetail", json_or_null string p.error_detail)
    ∷ ("createdAt", json_num p.created_at)
    ∷ ("stateTimestamp", json_num p.state_timestamp)
    ∷ [])

unfoldable pub credential_json : IssuedCredential → Value
credential_json r = json_object (
    ("id", string r.id)
    ∷ ("credentialType", string r.credential_type)
    ∷ ("credentialDefinitionId", string r.credential_definition_id)
    ∷ ("holderId", string r.holder_id)
    ∷ ("holderDid", string r.holder_did)
    ∷ ("issuanceProcessId", string r.issuance_process_id)
    ∷ ("format", string r.format)
    ∷ ("issuedAt", json_num r.issued_at)
    ∷ ("expiresAt", json_num r.expires_at)
    ∷ ("status", string (record_status r.status))
    ∷ ("statusListIndex", json_num r.status_list_index)
    ∷ [])

-- `u8::is_ascii_whitespace`.
abbrev is_ascii_whitespace : ℕ → Bool
is_ascii_whitespace b = eqb b 32 || eqb b 9 || eqb b 10 || eqb b 12 || eqb b 13

-- `parse_spec` is what serde makes of a body's bytes.
module _ (x : External) (parse_spec : List ℕ → Result QuerySpec String) where
  unfoldable pub spec_of : List ℕ → Result QuerySpec IssuerError
  spec_of body =
      if all is_ascii_whitespace body then ok Query.default else parse_body (parse_spec body)

  unfoldable pub run_query : List ℕ → List Value → Response (List Value)
  unfolding spec_of apply
  run_query body stored = elim (spec_of body) [
    | err e ↦ into_response e
    | ok spec ↦ elim (apply x spec stored) [ ok page ↦ json 200 page | err m ↦ refuse 400 m ]
  ]

  unfoldable pub query_definitions : AppState x → List ℕ → Response (List Value)
  unfolding run_query
  query_definitions s body = run_query body (map definition_json s.definitions)

  unfoldable pub query_holders : AppState x → List ℕ → Response (List Value)
  unfolding run_query
  query_holders s body = run_query body (map holder_json (Holders.all_holders s.holders))

  unfoldable pub query_processes : AppState x → List ℕ → Response (List Value)
  unfolding run_query
  query_processes s body = run_query body (map process_json (Requests.iter s.requests))

  unfoldable pub query_credentials : AppState x → List ℕ → Response (List Value)
  unfolding run_query
  query_credentials s body = run_query body (map credential_json (Issued.all_issued s.issued))

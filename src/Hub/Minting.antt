-- ===== src/Hub/Minting.antt =====
-- The signed credentials that both protocols hand out (crates/identity-hub-http/src/handlers.rs).
use ds_identity_hub_rs.Common.{ℕ, ◌+◌, String, [], ◌∷◌}
use ds_identity_hub_rs.Common.Json.{Value, string, json_object, json_array, json_num}
use ds_identity_hub_rs.Common.Text.{format}
use ds_identity_hub_rs.Messages.{vc_context}
use ds_identity_hub_rs.External.{External}
use ds_identity_hub_rs.Hub.{base_url, AppState}
use ds_identity_hub_rs.Issuer.Definitions.{CredentialDefinition}
use ds_identity_hub_rs.Issuer.Issued.{IssuedCredential}
use ds_identity_hub_rs.Issuer.Issued

abbrev status_list_path : String
status_list_path = "/statuslist/revocation"

abbrev pub status_list_context : String
status_list_context = "https://w3id.org/vc/status-list/2021/v1"

pub record MintedCredential : Type 0 where
  pub id : String
  pub jws : String
  pub issued_at : ℕ
  pub expires_at : ℕ

module _ (x : External) where
  abbrev pub status_list_url : AppState x → String
  status_list_url s = format (base_url s.config ∷ status_list_path ∷ [])

  -- The claim `vc`; both protocols pass an index.
  unfoldable pub vc_claim : AppState x → CredentialDefinition → String → ℕ → String → ℕ → ℕ → Value
  vc_claim s definition holder_did index id issued_at expires_at =
      let list_url = status_list_url s in
      json_object (
        ("@context", json_array (string vc_context ∷ string status_list_context ∷ []))
        ∷ ("id", string id)
        ∷ (
          "type",
          json_array (string "VerifiableCredential" ∷ string definition.credential_type ∷ []),
        )
        ∷ ("issuer", string s.identity.own_did)
        ∷ ("issuanceDate", string (x.to_rfc3339 issued_at))
        ∷ ("expirationDate", string (x.to_rfc3339 expires_at))
        ∷ ("credentialSubject", json_object (("id", string holder_did) ∷ []))
        ∷ (
          "credentialStatus",
          json_object (
              ("id", string (format (list_url ∷ "#" ∷ x.display index ∷ [])))
              ∷ ("type", string "StatusList2021Entry")
              ∷ ("statusPurpose", string "revocation")
              ∷ ("statusListIndex", string (x.display index))
              ∷ ("statusListCredential", string list_url)
              ∷ []),
        )
        ∷ [])

  unfoldable pub vc_payload : AppState x → CredentialDefinition → String → ℕ → String → ℕ → Value
  unfolding vc_claim
  vc_payload s definition holder_did index id now =
      let expires_at = now + definition.validity in
      json_object (
        ("iss", string s.identity.own_did)
        ∷ ("sub", string holder_did)
        ∷ ("vc", vc_claim s definition holder_did index id now expires_at)
        ∷ ("iat", json_num now)
        ∷ ("nbf", json_num now)
        ∷ ("exp", json_num expires_at)
        ∷ ("jti", string id)
        ∷ [])

  unfoldable pub mint_credential :
      AppState x → CredentialDefinition → String → ℕ → String → ℕ → MintedCredential
  unfolding vc_payload
  mint_credential s definition holder_did index uuid now =
      let id = format ("urn:uuid:" ∷ uuid ∷ []) in
      record {
        id = id;
        jws =
            x.sign_jws (vc_payload s definition holder_did index id now) s.identity.signing_key
              s.identity.own_key_id;
        issued_at = now;
        expires_at = now + definition.validity;
      }

  abbrev pub record_of :
      MintedCredential → CredentialDefinition → String → String → String → ℕ → IssuedCredential
  record_of minted definition holder_id holder_did process_id index = record {
    id = minted.id;
    credential_type = definition.credential_type;
    credential_definition_id = definition.id;
    holder_id = holder_id;
    holder_did = holder_did;
    issuance_process_id = process_id;
    format = definition.format;
    issued_at = minted.issued_at;
    expires_at = minted.expires_at;
    status = Issued.active;
    status_list_index = index;
  }

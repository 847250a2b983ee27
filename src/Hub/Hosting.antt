-- ===== src/Hub/Hosting.antt =====
-- The DID documents, the token endpoint of the STS and the status list
-- (crates/identity-hub-http/src/handlers.rs).
pub mod StatusJwt
use ds_identity_hub_rs.Common.{ℕ, String, Option, none, some, [], ◌∷◌, ◌==◌, if◌then◌else◌, ok, err}
use ds_identity_hub_rs.Common.Json.{Value, string, json_object, json_array, json_num}
use ds_identity_hub_rs.Common.Text.{format}
use ds_identity_hub_rs.Messages.{vc_context}
use ds_identity_hub_rs.External.{External}
use ds_identity_hub_rs.Identity.{did_document}
use ds_identity_hub_rs.Hub.{Mode, credential_service, issuer_service, base_url, AppState}
use ds_identity_hub_rs.External
use ds_identity_hub_rs.Http.{Response, status, json, oauth_error}
use ds_identity_hub_rs.Sts.{
  StsTokenRequest, StsTokenResponse, StsError, issue_token, sts_error_text,
}
use ds_identity_hub_rs.Hub.Minting.{status_list_url, status_list_context}
use ds_identity_hub_rs.Issuer.StatusList.{StatusList}
use ds_identity_hub_rs.Issuer.Issued.{IssuedCredentials}

pub record StsFormBody : Type 0 where
  pub grant_type : String
  pub client_id : String
  pub client_secret : String
  pub audience : String
  pub bearer_access_scope : Option String

abbrev service_type : Mode → String
service_type credential_service = "CredentialService"
service_type issuer_service = "IssuerService"

module _ (x : External) where
  -- `GET /<segment>/did.json`.
  unfoldable pub did_document_endpoint : AppState x → String → Response Value
  unfolding did_document
  did_document_endpoint s segment =
      if segment == s.identity.did_path_segment
      then json 200
          (did_document x s.identity ((service_type s.config.mode, base_url s.config) ∷ []))
      else if segment == s.sts_party.did_path_segment
      then json 200 (did_document x s.sts_party [])
      else status 404

  abbrev token_request : AppState x → StsFormBody → StsTokenRequest
  token_request s body = record {
    grant_type = body.grant_type;
    client_id = body.client_id;
    client_secret = body.client_secret;
    audience = body.audience;
    bearer_access_scope = body.bearer_access_scope;
    own_service_did = s.identity.own_did;
  }

  unfoldable pub sts_token :
      AppState x → StsFormBody → ℕ → String → String → Response StsTokenResponse
  unfolding issue_token
  sts_token s body now jti nested_jti =
      elim (issue_token x s.sts_config s.sts_party (token_request s body) now jti nested_jti) [
        | ok response ↦ json 200 response
        | err e ↦ oauth_error 400 "invalid_client" (sts_error_text e)
      ]

  unfoldable pub encoded : StatusList → String
  encoded l = x.encode_url_safe (x.gzip l.bits)

  unfoldable pub status_list_payload : AppState x → StatusList → ℕ → Value
  unfolding encoded
  status_list_payload s l now =
      let list_url = status_list_url x s in
      json_object (
        ("iss", string s.identity.own_did)
        ∷ ("sub", string list_url)
        ∷ ("iat", json_num now)
        ∷ ("nbf", json_num now)
        ∷ (
          "vc",
          json_object (
              ("@context", json_array (string vc_context ∷ string status_list_context ∷ []))
              ∷ ("id", string list_url)
              ∷ (
                "type",
                json_array (string "VerifiableCredential" ∷ string "StatusList2021Credential" ∷ []),
              )
              ∷ ("issuer", string s.identity.own_did)
              ∷ (
                "credentialSubject",
                json_object (
                    ("id", string (format (list_url ∷ "#list" ∷ [])))
                    ∷ ("type", string "StatusList2021")
                    ∷ ("statusPurpose", string "revocation")
                    ∷ ("encodedList", string (encoded l))
                    ∷ []),
              )
              ∷ []),
        )
        ∷ [])

  unfoldable pub signed_list : AppState x → StatusList → ℕ → String
  unfolding status_list_payload
  signed_list s l now =
      x.sign_jws (status_list_payload s l now) s.identity.signing_key s.identity.own_key_id

  -- `GET /statuslist/revocation`: the token, cached until a bit changes.
  unfoldable pub status_list : AppState x → ℕ → AppState x × Response String
  unfolding signed_list
  status_list s now = elim s.issued.status_list.cached_jwt [
    | some jwt ↦ (s, json 200 jwt)
    | none ↦
        let jwt = signed_list s s.issued.status_list now in
        (
          record s {
            issued = record s.issued {
              status_list = record s.issued.status_list { cached_jwt = some jwt };
            };
          },
          json 200 jwt,
        )
  ]

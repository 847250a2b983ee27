-- ===== src/Hub/Presentation.antt =====
-- The Resolution API (crates/identity-hub-http/src/handlers.rs).
pub mod Granted
use ds_identity_hub_rs.Common.{
  ℕ, ◌+◌, String, Bool, true, false, not, ◌&&◌, Option, none, some, List, [], ◌∷◌, map,
  if◌then◌else◌, is_some, is_empty, retain, Result, ◌>>=◌, ◌>>◌, ok, err,
}
use ds_identity_hub_rs.Common.Assoc.{has}
use ds_identity_hub_rs.Common.Json.{
  Value, string, object, field, as_str, unwrap_or, str_claim, json_object, json_array, json_num,
}
use ds_identity_hub_rs.Messages.{
  PresentationQueryMessage, PresentationResponseMessage, vc_context, presentation_response,
  CredentialContainer,
}
use ds_identity_hub_rs.External.{External}
use ds_identity_hub_rs.Scope.{credential_types, split_scope_string}
use ds_identity_hub_rs.Auth.{AuthError, auth_error_text, verify_nested_access_token}
use ds_identity_hub_rs.Validation.{is_within_validity}
use ds_identity_hub_rs.Hub.{AppState, caller, authenticate}
use ds_identity_hub_rs.Http.{Response, status, refuse, json}
use ds_identity_hub_rs.External
use ds_identity_hub_rs.Http.{Response, refuse, oauth_error, json, status, created_at}

-- A presentation definition of a request: absent, an object with a field, or malformed.
abbrev pub has_definition : Option Value → Bool
has_definition (some (object (field k v fs))) = true
has_definition _ = false

module _ (x : External) where
  unfoldable pub granted_credential_types :
      AppState x → Value → String → ℕ → Result (List String) AuthError
  unfolding str_claim verify_nested_access_token split_scope_string credential_types
  granted_credential_types s claims outer_sub now = elim (str_claim "token" claims) [
    | none ↦ ok []
    | some nested_token ↦
        verify_nested_access_token x nested_token outer_sub s.sts_party now >>= λ nested_payload.
        ok (
          credential_types x (split_scope_string (unwrap_or (str_claim "scope" nested_payload) "")))
  ]

  -- `is_none_or` of the validity of a container that decodes.
  unfoldable pub is_current : CredentialContainer → ℕ → Bool
  unfolding is_within_validity
  is_current c now = elim (as_str c.payload) [
    | none ↦ true
    | some jws ↦ elim (x.decode_jws_unverified jws) [
      | err e ↦ true
      | ok (header, payload) ↦ is_within_validity payload now
    ]
  ]

  -- The first filter, on the rendered payload, with the payloads seen so far.
  unfoldable pub first_of_each : List String → List CredentialContainer → List CredentialContainer
  first_of_each seen [] = []
  first_of_each seen (c ∷ cs) =
      let key = x.to_json_string c.payload in
      if has key seen then first_of_each seen cs else c ∷ first_of_each (key ∷ seen) cs

  unfoldable pub presentable : List CredentialContainer → ℕ → List CredentialContainer
  unfolding first_of_each is_current
  presentable credentials now = retain (λ c. is_current c now) (first_of_each [] credentials)

  unfoldable pub presentation_payload :
      AppState x → String → List CredentialContainer → ℕ → String → Value
  presentation_payload s audience credentials now jti = json_object (
      ("iss", string s.identity.own_did)
      ∷ ("sub", string s.identity.own_did)
      ∷ ("aud", string audience)
      ∷ (
        "vp",
        json_object (
            ("@context", json_array (string vc_context ∷ []))
            ∷ ("type", json_array (string "VerifiablePresentation" ∷ []))
            ∷ ("holder", string s.identity.own_did)
            ∷ (
              "verifiableCredential",
              json_array (map (λ (c : CredentialContainer). c.payload) credentials),
            )
            ∷ []),
      )
      ∷ ("iat", json_num now)
      ∷ ("exp", json_num (now + 300))
      ∷ ("jti", string jti)
      ∷ [])

  unfoldable pub build_presentation :
      AppState x → String → List CredentialContainer → ℕ → String → String
  unfolding presentation_payload
  build_presentation s audience credentials now jti =
      x.sign_jws (presentation_payload s audience credentials now jti) s.identity.signing_key
        s.identity.own_key_id

  abbrev pub effective_types : List String → List String → List String
  effective_types requested_types allowed_types = retain (λ t. has t allowed_types) requested_types

  -- The checks on the shape of the request: the refusal, or none.
  unfoldable pub malformed_query :
      PresentationQueryMessage → Option (Response PresentationResponseMessage)
  malformed_query message =
      let has_scope = not (is_empty message.scope) in
      let defined = has_definition message.presentation_definition in
      if is_some message.presentation_definition && not defined
      then some (refuse 400 "presentationDefinition must be a non-empty object")
      else if has_scope && defined
      then some
          (refuse 400 "PresentationQueryMessage must not set both scope and presentationDefinition")
      else if defined
      then some (status 501)
      else if not has_scope
      then some (
          refuse 400
            "PresentationQueryMessage must set a non-empty scope or a presentationDefinition")
      else none

  -- The credentials that a query is answered with, once its caller is known. `stored` is the
  -- graph's answer for a list of types.
  unfoldable pub matched_credentials :
      AppState x
      → (List String → List CredentialContainer)
      → Value
      → List String
      → ℕ
      → Result (List CredentialContainer) AuthError
  unfolding granted_credential_types credential_types presentable
  matched_credentials s stored claims scope now = do
    allowed_types ← granted_credential_types s claims (caller claims) now
    ok (presentable (stored (effective_types (credential_types x scope) allowed_types)) now)

  unfoldable pub answer_query :
      AppState x
      → (List String → List CredentialContainer)
      → Value
      → PresentationQueryMessage
      → ℕ
      → String
      → Response PresentationResponseMessage
  unfolding matched_credentials build_presentation malformed_query
  answer_query s stored claims message now jti = elim (malformed_query message) [
    | some response ↦ response
    | none ↦ elim (matched_credentials s stored claims message.scope now) [
      | err e ↦ refuse 401 (auth_error_text e)
      | ok matched ↦
          json 200
            (presentation_response (build_presentation s (caller claims) matched now jti ∷ []))
    ]
  ]

  unfoldable pub presentation_query :
      AppState x
      → (List String → List CredentialContainer)
      → Option String
      → PresentationQueryMessage
      → ℕ
      → String
      → AppState x × Response PresentationResponseMessage
  unfolding authenticate answer_query
  presentation_query s stored authorization message now jti =
      let (s', answer) = authenticate x s authorization now in
      (
        s',
        elim answer [
          | err e ↦ refuse 401 (auth_error_text e)
          | ok claims ↦ answer_query s' stored claims message now jti
        ],
      )

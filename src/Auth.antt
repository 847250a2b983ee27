-- ===== src/Auth.antt =====
-- Bearer tokens (crates/identity-hub-http/src/auth.rs). The clock is read once per call.
pub mod Verified
use ds_identity_hub_rs.Common.{
  ℕ, ◌+◌, ◌-◌, String, Bool, true, Option, none, some, List, [], ◌∷◌, ◌==◌, ltb, leb, if◌then◌else◌,
  is_empty, Result, ◌>>=◌, ◌>>◌, guard, ok_or, map_err, ok, err,
}
use ds_identity_hub_rs.Common.Assoc.{has, insert}
use ds_identity_hub_rs.Common.Json.{Value, and_then, unwrap_or, str_claim, u64_claim}
use ds_identity_hub_rs.Common.Text.{format, strip_prefix}
use ds_identity_hub_rs.External.{External}
use ds_identity_hub_rs.Identity.{ServiceIdentity}
use ds_identity_hub_rs.Outbound.{error_text, OutboundPolicy, check_did}
use ds_identity_hub_rs.External
use ds_identity_hub_rs.State.SeenJti.{SeenJtiCache}
use ds_identity_hub_rs.State.SeenJti

pub data AuthError : Type 0 where
  missing_token wrong_audience expired issuer_subject_mismatch not_yet_valid issued_in_future
        token_replayed no_trusted_issuer_configured nested_token_expired
        nested_token_not_bound_to_caller :
      AuthError
  did_resolution invalid_signature key_not_authorized_for_invocation untrusted_issuer
        trust_registry_unavailable invalid_nested_token nested_token_issuer_not_authoritative
        outbound_destination_not_allowed :
      String → AuthError
  not_trusted_for_type : String → String → String → AuthError

-- The texts of the errors.
unfoldable pub auth_error_text : AuthError → String
auth_error_text missing_token = "missing or malformed Authorization: Bearer header"
auth_error_text wrong_audience = "token audience does not match this service's DID"
auth_error_text expired = "token has expired"
auth_error_text issuer_subject_mismatch =
    "token sub does not match iss - a Self-Issued ID Token must be about its own issuer"
auth_error_text not_yet_valid = "token is not yet valid (nbf is in the future)"
auth_error_text issued_in_future = "token iat (issued-at) is in the future"
auth_error_text token_replayed = "token jti has already been used (replay)"
auth_error_text no_trusted_issuer_configured =
    "no trusted issuer is configured for this service - the Storage/Credential Offer API rejects every caller until at least one --trusted-issuer-did is given"
auth_error_text nested_token_expired = "nested access token has expired"
auth_error_text nested_token_not_bound_to_caller =
    "nested access token is not bound to the party presenting it (aud does not match the outer envelope's own caller)"
auth_error_text (did_resolution e) = format ("could not resolve caller DID: " ∷ e ∷ [])
auth_error_text (invalid_signature e) = format ("signature verification failed: " ∷ e ∷ [])
auth_error_text (key_not_authorized_for_invocation kid) = format (
    "signing key '" ∷ kid
    ∷ "' is not listed under the caller's own capabilityInvocation verification relationship" ∷ [])
auth_error_text (untrusted_issuer iss) =
    format ("issuer '" ∷ iss ∷ "' is not on this service's trusted-issuer allow-list" ∷ [])
auth_error_text (trust_registry_unavailable e) =
    format
      ("the trusted issuers registry's snapshot is unavailable, so no issuer is trusted: " ∷ e ∷ [])
auth_error_text (invalid_nested_token e) = format ("nested access token is not valid: " ∷ e ∷ [])
auth_error_text (nested_token_issuer_not_authoritative iss) = format (
    "nested access token issuer '" ∷ iss ∷ "' is not authoritative for this service's credentials"
    ∷ [])
auth_error_text (outbound_destination_not_allowed e) =
    format ("outbound destination is not allowed: " ∷ e ∷ [])
auth_error_text (not_trusted_for_type issuer credential_type reason) = format (
    "issuer '" ∷ issuer ∷ "' is not trusted for credential type '" ∷ credential_type
    ∷ "' by the trusted issuers registry: " ∷ reason ∷ [])

abbrev pub nbf_leeway_secs : ℕ
nbf_leeway_secs = 30

-- `if let Some(t) = .. && t > limit`.
abbrev pub at_most : Option ℕ → ℕ → Bool
at_most none limit = true
at_most (some t) limit = leb t limit

module _ (x : External) where
  -- What a token must be, before its `jti` is looked at.
  unfoldable pub check_envelope :
      Option String → String → Bool → OutboundPolicy → ℕ → Result Value AuthError
  unfolding check_did str_claim u64_claim strip_prefix
  check_envelope authorization_header expected_audience insecure_http outbound now = do
    token ← ok_or (and_then authorization_header (strip_prefix "Bearer ")) missing_token
    decoded ← map_err invalid_signature (x.decode_jws_unverified token)
    let (header, payload) = decoded
    caller_did ← ok_or (str_claim "iss" payload) (invalid_signature "token has no iss claim")
    kid ← ok_or (str_claim "kid" header) (invalid_signature "token has no kid header")
    map_err (λ e. outbound_destination_not_allowed (error_text e))
        (check_did x outbound caller_did insecure_http)
    caller_doc ← map_err did_resolution (x.resolve_did caller_did insecure_http)
    caller_key ← map_err invalid_signature (x.find_verifying_key caller_doc kid)
    map_err invalid_signature (x.verify_jws_signature token caller_key)
    guard (has kid (x.capability_invocation caller_doc)) (key_not_authorized_for_invocation kid)
    guard (unwrap_or (str_claim "sub" payload) "" == caller_did) issuer_subject_mismatch
    guard (unwrap_or (str_claim "aud" payload) "" == expected_audience) wrong_audience
    guard (ltb now (unwrap_or (u64_claim "exp" payload) 0)) expired
    guard (at_most (u64_claim "nbf" payload) (now + nbf_leeway_secs)) not_yet_valid
    guard (at_most (u64_claim "iat" payload) (now + nbf_leeway_secs)) issued_in_future
    ok payload

  -- The last check, on the shared cache.
  unfoldable pub check_replay : SeenJtiCache → Value → SeenJtiCache × Result Value AuthError
  unfolding str_claim
  check_replay seen_jti payload = elim (str_claim "jti" payload) [
    | none ↦ (seen_jti, ok payload)
    | some jti ↦
        let (seen, fresh) = SeenJti.insert seen_jti jti in
        (seen, if fresh then ok payload else err token_replayed)
  ]

  unfoldable pub verify_bearer_token :
      Option String
      → String
      → Bool
      → SeenJtiCache
      → OutboundPolicy
      → ℕ
      → SeenJtiCache × Result Value AuthError
  unfolding check_envelope check_replay
  verify_bearer_token authorization_header expected_audience insecure_http seen_jti outbound now =
      elim (check_envelope authorization_header expected_audience insecure_http outbound now) [
        | err e ↦ (seen_jti, err e)
        | ok payload ↦ check_replay seen_jti payload
      ]

  unfoldable pub verify_nested_access_token :
      String → String → ServiceIdentity x → ℕ → Result Value AuthError
  unfolding str_claim u64_claim
  verify_nested_access_token nested_token outer_sub authority now = do
    decoded ← map_err invalid_nested_token (x.decode_jws_unverified nested_token)
    let (header, payload) = decoded
    nested_iss ←
        ok_or (str_claim "iss" payload) (invalid_nested_token "nested token has no iss claim")
    kid ← ok_or (str_claim "kid" header) (invalid_nested_token "nested token has no kid header")
    guard (nested_iss == authority.own_did) (nested_token_issuer_not_authoritative nested_iss)
    guard (kid == authority.own_key_id) (
        invalid_nested_token
          (format ("nested token kid '" ∷ kid ∷ "' is not the key of '" ∷ nested_iss ∷ "'" ∷ [])))
    map_err invalid_nested_token
        (x.verify_jws_signature nested_token (x.verifying_key authority.signing_key))
    guard (ltb now (unwrap_or (u64_claim "exp" payload) 0)) nested_token_expired
    guard (unwrap_or (str_claim "aud" payload) "" == outer_sub) nested_token_not_bound_to_caller
    ok payload

unfoldable pub check_trusted_issuer : Value → List String → Result (Unit {0}) AuthError
unfolding str_claim
check_trusted_issuer claims trusted_issuer_dids =
    let iss = unwrap_or (str_claim "iss" claims) "" in
    if is_empty trusted_issuer_dids
    then err no_trusted_issuer_configured
    else if has iss trusted_issuer_dids
    then ok tt
    else err (untrusted_issuer iss)

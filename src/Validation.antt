-- ===== src/Validation.antt =====
-- Validation of the delivered and offered credentials
-- (crates/identity-hub-http/src/validation.rs).
pub mod Claims
pub mod Proofs
use ds_identity_hub_rs.Common.{
  ℕ, ◌+◌, String, Bool, true, false, not, ◌&&◌, ◌||◌, Option, none, some, List, [], ◌∷◌, map, ◌==◌,
  ltb, leb, if◌then◌else◌, is_none, is_empty, any, Result, ◌>>=◌, ◌>>◌, guard, ok_or, map_err, ok,
}
use ds_identity_hub_rs.Common.Assoc.{has}
use ds_identity_hub_rs.Common.Json.{
  Value, string, array, items, as_str, member, and_then, unwrap_or, str_claim, u64_claim,
}
use ds_identity_hub_rs.Common.Text.{starts_with, format}
use ds_identity_hub_rs.Messages.{CredentialContainer, CredentialObject}
use ds_identity_hub_rs.External.{External}
use ds_identity_hub_rs.Outbound.{error_text, OutboundPolicy, check_url, check_did}
use ds_identity_hub_rs.External
use Prim.Native.Char.{Char, code}
use Prim.Native.String

pub data ValidationError : Type 0 where
  invalid_status unknown_holder_pid unverifiable_proof unsupported_credential_format
        unknown_credential_id catalog_unavailable untrusted_credential_issuer foreign_subject
        type_not_in_credential :
      String → ValidationError
  empty_credentials outside_validity : ValidationError

unfoldable pub validation_error_text : ValidationError → String
validation_error_text (invalid_status s) = format (
    "credential message status '" ∷ s ∷ "' is not one of the recognized values (ISSUED, REJECTED)"
    ∷ [])
validation_error_text (unknown_holder_pid pid) =
    format (
      "holderPid '" ∷ pid ∷ "' does not match a request this service was configured to expect" ∷ [])
validation_error_text (unverifiable_proof e) =
    format ("a credential's own embedded proof could not be verified: " ∷ e ∷ [])
validation_error_text (unsupported_credential_format f) =
    format ("credential format '" ∷ f ∷ "' cannot be verified by this service" ∷ [])
validation_error_text (unknown_credential_id id) =
    format ("offered credential id '" ∷ id ∷ "' does not match the issuer's own known catalog" ∷ [])
validation_error_text (catalog_unavailable e) =
    format ("could not resolve the offering issuer's own credential catalog: " ∷ e ∷ [])
validation_error_text (untrusted_credential_issuer iss) =
    format ("credential issuer '" ∷ iss ∷ "' is not a trusted issuer" ∷ [])
validation_error_text (foreign_subject sub) =
    format ("credential is bound to '" ∷ sub ∷ "', not to this service" ∷ [])
validation_error_text (type_not_in_credential t) =
    format ("credentialType '" ∷ t ∷ "' is not one of the credential's own vc.type" ∷ [])
validation_error_text empty_credentials =
    "a CredentialOfferMessage must offer at least one credential"
validation_error_text outside_validity = "credential is outside its validity period"

abbrev pub clock_skew_secs : ℕ
clock_skew_secs = 60

abbrev valid_credential_message_statuses : List String
valid_credential_message_statuses = "ISSUED" ∷ "REJECTED" ∷ []

-- `payload.pointer("/a/b")` for keys without an escape.
unfoldable pub pointer : List String → Value → Option Value
unfolding member
pointer [] v = some v
pointer (k ∷ ks) v = elim (member k v) [ none ↦ none | some w ↦ pointer ks w ]

abbrev pub is_text : String → Value → Bool
is_text s (string t) = t == s
is_text s _ = false

abbrev pub type_among : String → Option Value → Bool
type_among credential_type (some (string only)) = only == credential_type
type_among credential_type (some (array types)) = any (is_text credential_type) (items types)
type_among credential_type _ = false

unfoldable pub has_type : Value → String → Bool
unfolding pointer
has_type payload credential_type = type_among credential_type (pointer ("vc" ∷ "type" ∷ []) payload)

-- `claim.is_none_or(|t| t <= limit)` and `claim.is_none_or(|t| now < t)`.
abbrev pub none_or_le : Option ℕ → ℕ → Bool
none_or_le none limit = true
none_or_le (some t) limit = leb t limit

abbrev pub none_or_gt : Option ℕ → ℕ → Bool
none_or_gt none now = true
none_or_gt (some t) now = ltb now t

unfoldable pub is_within_validity : Value → ℕ → Bool
unfolding u64_claim
is_within_validity payload now =
    let nbf_ok = none_or_le (u64_claim "nbf" payload) (now + clock_skew_secs) in
    let exp_ok = none_or_gt (u64_claim "exp" payload) now in nbf_ok && exp_ok

unfoldable pub subject_of : Value → Option String
unfolding str_claim pointer
subject_of payload = elim (str_claim "sub" payload) [
  | some sub ↦ some sub
  | none ↦ and_then (pointer ("vc" ∷ "credentialSubject" ∷ "id" ∷ []) payload) as_str
]

unfoldable pub validate_status : String → Result (Unit {0}) ValidationError
validate_status s = guard (has s valid_credential_message_statuses) (invalid_status s)

unfoldable pub check_known_holder_pid : String → List String → Result (Unit {0}) ValidationError
check_known_holder_pid holder_pid known_holder_pids =
    guard (is_empty known_holder_pids || has holder_pid known_holder_pids)
      (unknown_holder_pid holder_pid)

-- `format.contains("jwt")`.
unfoldable pub contains_jwt : String → Bool
unfolding starts_with
contains_jwt String.[] = false
contains_jwt (String.◌∷◌ c s) = starts_with "jwt" (String.◌∷◌ c s) || contains_jwt s

abbrev pub optional_issuer : Option (List String) → String → Bool
optional_issuer none issuer = true
optional_issuer (some trusted) issuer = has issuer trusted

module _ (x : External) where
  -- The body of the loop of `check_credential_claims`.
  unfoldable pub check_claims :
      CredentialContainer → String → Option (List String) → ℕ → Result (Unit {0}) ValidationError
  unfolding has_type str_claim subject_of is_within_validity
  check_claims container own_did trusted_issuer_dids now = do
    jws ←
        ok_or (as_str container.payload)
          (unverifiable_proof "a jwt-format credential's payload must be a JWS string")
    decoded ← map_err unverifiable_proof (x.decode_jws_unverified jws)
    let (_, payload) = decoded
    guard (has_type payload container.credential_type)
        (type_not_in_credential container.credential_type)
    let issuer = unwrap_or (str_claim "iss" payload) ""
    guard (optional_issuer trusted_issuer_dids issuer) (untrusted_credential_issuer issuer)
    subject ← ok_or (subject_of payload) (foreign_subject "nobody")
    guard (subject == own_did) (foreign_subject subject)
    guard (is_within_validity payload now) outside_validity

  unfoldable pub check_credential_claims :
      List CredentialContainer
      → String
      → Option (List String)
      → ℕ
      → Result (Unit {0}) ValidationError
  unfolding check_claims
  check_credential_claims [] own_did trusted_issuer_dids now = ok tt
  check_credential_claims (c ∷ cs) own_did trusted_issuer_dids now = do
    check_claims c own_did trusted_issuer_dids now
    check_credential_claims cs own_did trusted_issuer_dids now

  -- The body of the loop of `verify_credential_proofs`. White space around a format does not
  -- change whether it contains "jwt".
  unfoldable pub verify_proof :
      CredentialContainer → Bool → OutboundPolicy → Result (Unit {0}) ValidationError
  unfolding contains_jwt str_claim check_did
  verify_proof container insecure_http outbound = do
    guard (contains_jwt (x.to_lowercase container.format))
        (unsupported_credential_format container.format)
    jws ←
        ok_or (as_str container.payload)
          (unverifiable_proof "a jwt-format credential's payload must be a JWS string")
    decoded ← map_err unverifiable_proof (x.decode_jws_unverified jws)
    let (header, payload) = decoded
    vc_issuer ← ok_or (str_claim "iss" payload) (unverifiable_proof "credential has no iss claim")
    kid ← ok_or (str_claim "kid" header) (unverifiable_proof "credential JWS has no kid header")
    map_err (λ e. unverifiable_proof (error_text e)) (check_did x outbound vc_issuer insecure_http)
    issuer_doc ← map_err unverifiable_proof (x.resolve_did vc_issuer insecure_http)
    key ← map_err unverifiable_proof (x.find_verifying_key issuer_doc kid)
    map_err unverifiable_proof (x.verify_jws_signature jws key)

  unfoldable pub verify_credential_proofs :
      List CredentialContainer → Bool → OutboundPolicy → Result (Unit {0}) ValidationError
  unfolding verify_proof
  verify_credential_proofs [] insecure_http outbound = ok tt
  verify_credential_proofs (c ∷ cs) insecure_http outbound = do
    verify_proof c insecure_http outbound
    verify_credential_proofs cs insecure_http outbound

  abbrev sparse_ids : List CredentialObject → List String
  sparse_ids [] = []
  sparse_ids (c ∷ cs) = if is_none c.credential_type then c.id ∷ sparse_ids cs else sparse_ids cs

  unfoldable pub catalog_ids : String → Bool → OutboundPolicy → Result (List String) ValidationError
  unfolding check_did check_url
  catalog_ids issuer_did insecure_http outbound = do
    map_err (λ e. catalog_unavailable (error_text e))
        (check_did x outbound issuer_did insecure_http)
    issuer_doc ← map_err catalog_unavailable (x.resolve_did issuer_did insecure_http)
    endpoint ← map_err catalog_unavailable (x.service_endpoint_url issuer_doc "IssuerService")
    let url = format (endpoint ∷ "/metadata" ∷ [])
    map_err (λ e. catalog_unavailable (error_text e)) (check_url x outbound url)
    response ← map_err catalog_unavailable (x.get_metadata url)
    guard (leb 200 response.0 && ltb response.0 300) (
        catalog_unavailable
          (format ("issuer metadata endpoint returned HTTP " ∷ x.display response.0 ∷ [])))
    metadata ← map_err catalog_unavailable response.1
    ok (map (λ (c : CredentialObject). c.id) (unwrap_or metadata.credentials_supported []))

  unfoldable pub check_known_ids : List String → List String → Result (Unit {0}) ValidationError
  check_known_ids known [] = ok tt
  check_known_ids known (id ∷ ids) = do
    guard (has id known) (unknown_credential_id id)
    check_known_ids known ids

  unfoldable pub validate_offer_credentials :
      String → List CredentialObject → Bool → OutboundPolicy → Result (Unit {0}) ValidationError
  unfolding catalog_ids check_known_ids
  validate_offer_credentials issuer_did credentials insecure_http outbound = do
    guard (not (is_empty credentials)) empty_credentials
    elim (sparse_ids credentials) [
      | [] ↦ ok tt
      | id ∷ ids ↦ catalog_ids issuer_did insecure_http outbound >>= λ known.
          check_known_ids known (id ∷ ids)
    ]

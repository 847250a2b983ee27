-- ===== src/External.antt =====
-- The code outside the repository that the program calls: `dcp_core` (signatures, DID documents),
-- the HTTP client, `reqwest::Url`, `regex`, `chrono`, and the Unicode tables of the standard
-- library. One value of `External` is what they answer while one request is served.
use ds_identity_hub_rs.Common.{ℕ, String, Bool, Option, List, Result}
use ds_identity_hub_rs.Common.Json.{Number, Value}
use ds_identity_hub_rs.Messages.{CredentialMessage, IssuerMetadata}
use Prim.Native.Nat.{Ordering}

pub record Url : Type 0 where
  pub scheme : String
  pub host_str : Option String

-- `STANDARD`, `URL_SAFE`, `STANDARD_NO_PAD` and `URL_SAFE_NO_PAD`.
pub data Engine : Type 0 where
  standard url_safe standard_no_pad url_safe_no_pad : Engine

pub record External : Type 1 where
  -- `dcp_core`: documents, keys and signatures
  pub DidDocument : Type 0
  pub VerifyingKey : Type 0
  pub SigningKey : Type 0
  -- the header and the payload of a token
  pub decode_jws_unverified : String → Result (Value × Value) String
  pub did_web_to_url : String → Bool → Result String String
  pub resolve_did : String → Bool → Result DidDocument String
  pub find_verifying_key : DidDocument → String → Result VerifyingKey String
  pub verify_jws_signature : String → VerifyingKey → Result (Unit {0}) String
  pub capability_invocation : DidDocument → List String
  pub service_endpoint_url : DidDocument → String → Result String String
  pub verifying_key : SigningKey → VerifyingKey
  pub sign_jws : Value → SigningKey → String → String
  -- the answer to `GET <url>`: the status, and the body as a message where it parses
  pub get_metadata : String → Result (ℕ × Result IssuerMetadata String) String
  -- the status of the answer to `POST <endpoint>/credentials` with a bearer token
  pub post_credentials : String → String → CredentialMessage → Result ℕ String
  -- `Url::parse`
  pub parse_url : String → Result Url String
  -- the group `type` of the configured scope pattern
  pub scope_type : String → Option String
  -- `str::to_lowercase` and the `Display` of a JSON value
  pub to_lowercase : String → String
  pub to_json_string : Value → String
  -- `xsd_date_time`'s rendering by chrono, and `usize::to_string`
  pub to_rfc3339 : ℕ → String
  pub display : ℕ → String
  -- the `Debug` of an optional text
  pub debug_text : Option String → String
  -- `PartialEq` of JSON values; `as_f64` of two numbers compared, and the `Display` of a number
  pub value_eq : Value → Value → Bool
  pub number_cmp : Number → Number → Option Ordering
  -- what `slice::sort_by` makes of a list that the comparison does not order totally, where it
  -- does not panic
  pub sort_unordered : (Value → Value → Ordering) → List Value → List Value
  pub display_number : Number → String
  -- `decode` of the four base64 engines, and `String::from_utf8`
  pub engine_decode : Engine → String → Option (List ℕ)
  pub from_utf8 : List ℕ → Option String
  -- `trusted_issuers_core`: a verified snapshot, its validity, the types that it lists for an
  -- issuer, its decision with a reason, and the check of its signature
  pub TrustList : Type 0
  pub list_iat : TrustList → ℕ
  pub list_exp : TrustList → ℕ
  pub listed_types : TrustList → String → Option (List String)
  pub list_check : TrustList → String → String → ℕ → Bool × Option String
  pub snapshot_kid : String → Result String String
  pub verify_snapshot : String → String → VerifyingKey → ℕ → Result TrustList String
  -- the answer to `GET <url>`: the status, and the body as a text
  pub get_text : String → Result (ℕ × Result String String) String
  -- an ES256 signature, SHA-256, `b64_encode` of bytes, and the coordinates of the public key
  pub es256 : SigningKey → String → List ℕ
  pub sha256 : List ℕ → List ℕ
  pub b64_bytes : List ℕ → String
  pub public_key_xy : SigningKey → List ℕ × List ℕ
  -- gzip, and the URL-safe base64 without padding
  pub gzip : List ℕ → List ℕ
  pub encode_url_safe : List ℕ → String
  -- the `Display` of a status code
  pub display_status : ℕ → String
  -- `base64` of the standard alphabet, decoded to a text
  pub decode_base64 : String → Option String
  -- `b64_encode` of a text, and the key of a JWK's two coordinates
  pub b64_encode : String → String
  pub jwk_to_verifying_key : String → String → Result VerifyingKey String
  -- `Url::parse_with_params` of the offer scheme with one parameter
  pub offer_url : String → String

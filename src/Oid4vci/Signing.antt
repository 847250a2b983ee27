-- ===== src/Oid4vci/Signing.antt =====
-- Key proofs, DPoP proofs and client assertions (crates/identity-hub-core/src/oid4vci.rs). The clock
-- and the random identifiers are arguments.
pub mod Proven
use ds_identity_hub_rs.Common.{
  ℕ, ◌+◌, String, Bool, ◌||◌, Option, none, some, List, [], ◌∷◌, ◌==◌, eqb, if◌then◌else◌, any,
}
use ds_identity_hub_rs.Common.Json.{Value, string, set_field, json_object, json_num}
use ds_identity_hub_rs.Common.Text.{starts_with, format, as_bytes}
use ds_identity_hub_rs.External.{External}
use ds_identity_hub_rs.Identity.{ServiceIdentity}
use Prim.Native.Char.{code}
use Prim.Native.String
use ds_identity_hub_rs.External

abbrev pub proof_jwt_typ : String
proof_jwt_typ = "openid4vci-proof+jwt"

abbrev pub dpop_jwt_typ : String
dpop_jwt_typ = "dpop+jwt"

pub data ProofKeyRef : Type 0 where
  did_url jwk : ProofKeyRef

abbrev is_did_method : String → Bool
is_did_method m = m == "did" || starts_with "did:" m

unfoldable pub for_binding_methods : List String → ProofKeyRef
for_binding_methods [] = did_url
for_binding_methods (m ∷ ms) = if any is_did_method (m ∷ ms) then did_url else jwk

-- `if let Some(v) = o { payload[k] = json!(v) }`.
unfoldable pub set_some : String → Option String → Value → Value
unfolding set_field
set_some k none payload = payload
set_some k (some v) payload = set_field k (string v) payload

-- `htu.split(['?', '#']).next()`.
unfoldable pub before_query : String → String
before_query String.[] = ""
before_query (String.◌∷◌ c s) =
    if eqb (code c) b'?' || eqb (code c) b'#' then "" else String.◌∷◌ c (before_query s)

module _ (x : External) where
  abbrev pub signed_header : Value → Value
  signed_header header = set_field "alg" (string "ES256") header

  unfoldable pub sign_jws_with_header : Value → Value → ServiceIdentity x → String
  unfolding set_field
  sign_jws_with_header header payload key_pair =
      let signing_input = format (
        x.b64_encode (x.to_json_string (signed_header header))
        ∷ "."
        ∷ x.b64_encode (x.to_json_string payload)
        ∷ []) in
      format (signing_input ∷ "." ∷ x.b64_bytes (x.es256 key_pair.signing_key signing_input) ∷ [])

  unfoldable pub public_jwk : ServiceIdentity x → Value
  public_jwk key_pair =
      let (px, py) = x.public_key_xy key_pair.signing_key in
      json_object (
        ("kty", string "EC")
        ∷ ("crv", string "P-256")
        ∷ ("x", string (x.b64_bytes px))
        ∷ ("y", string (x.b64_bytes py))
        ∷ [])

  unfoldable pub proof_payload : String → Option String → Option String → ℕ → Value
  unfolding set_some
  proof_payload credential_issuer nonce client_id now = set_some "iss" client_id (
      set_some "nonce" nonce
        (json_object (("aud", string credential_issuer) ∷ ("iat", json_num now) ∷ [])))

  unfoldable pub proof_header : ServiceIdentity x → ProofKeyRef → Value
  unfolding public_jwk
  proof_header key_pair did_url =
      json_object (("typ", string proof_jwt_typ) ∷ ("kid", string key_pair.own_key_id) ∷ [])
  proof_header key_pair jwk =
      json_object (("typ", string proof_jwt_typ) ∷ ("jwk", public_jwk key_pair) ∷ [])

  unfoldable pub build_jwt_proof_for_client :
      ServiceIdentity x → String → Option String → Option String → ProofKeyRef → ℕ → String
  unfolding sign_jws_with_header proof_payload proof_header
  build_jwt_proof_for_client key_pair credential_issuer nonce client_id key now =
      sign_jws_with_header (proof_header key_pair key)
        (proof_payload credential_issuer nonce client_id now) key_pair

  unfoldable pub build_jwt_proof : ServiceIdentity x → String → Option String → ℕ → String
  unfolding build_jwt_proof_for_client
  build_jwt_proof key_pair credential_issuer nonce now =
      build_jwt_proof_for_client key_pair credential_issuer nonce none did_url now

  abbrev token_hash : String → String
  token_hash token = x.b64_bytes (x.sha256 (as_bytes token))

  abbrev hash_of : Option String → Option String
  hash_of none = none
  hash_of (some token) = some (token_hash token)

  unfoldable pub build_dpop_proof :
      ServiceIdentity x → String → String → Option String → Option String → String → ℕ → String
  unfolding sign_jws_with_header set_some public_jwk before_query
  build_dpop_proof key_pair htm htu nonce access_token jti now =
      sign_jws_with_header
        (json_object (("typ", string dpop_jwt_typ) ∷ ("jwk", public_jwk key_pair) ∷ []))
        (set_some "ath" (hash_of access_token) (
          set_some "nonce" nonce (
            json_object (
              ("jti", string jti)
              ∷ ("htm", string htm)
              ∷ ("htu", string (before_query htu))
              ∷ ("iat", json_num now)
              ∷ []))))
        key_pair

  unfoldable pub build_client_assertion : ServiceIdentity x → String → String → String → ℕ → String
  unfolding sign_jws_with_header
  build_client_assertion key_pair client_id audience jti now =
      sign_jws_with_header
        (json_object (("typ", string "JWT") ∷ ("kid", string key_pair.own_key_id) ∷ []))
        (json_object (
          ("iss", string client_id)
          ∷ ("sub", string client_id)
          ∷ ("aud", string audience)
          ∷ ("jti", string jti)
          ∷ ("iat", json_num now)
          ∷ ("exp", json_num (now + 60))
          ∷ []))
        key_pair

-- ===== src/Sts.antt =====
-- The Secure Token Service (crates/identity-hub-core/src/sts.rs). The clock and the two random
-- identifiers are arguments.
pub mod Compare
pub mod Token
pub mod Bytes
use ds_identity_hub_rs.Common.{
  ℕ, zero, suc, ◌+◌, ◌*◌, ◌/◌, ◌%◌, String, Bool, not, ◌&&◌, ◌||◌, Option, none, some, List, [],
  ◌∷◌, ◌==◌, eqb, if◌then◌else◌, length, Result, ◌>>=◌, ◌>>◌, guard, ok,
}
use ds_identity_hub_rs.Common.Json.{Value, string, json_object, json_num}
use ds_identity_hub_rs.Common.Text.{is_blank, format, as_bytes}
use ds_identity_hub_rs.External.{External}
use ds_identity_hub_rs.Identity.{ServiceIdentity}
use ds_identity_hub_rs.External
use Prim.Native.Char.{Char, code}
use Prim.Native.String
use Prim.Native.Nat

pub record StsConfig : Type 0 where
  pub client_id : String
  pub client_secret : String

pub data StsError : Type 0 where
  unsupported_grant_type invalid_client : StsError
  invalid_request : String → StsError

unfoldable pub sts_error_text : StsError → String
sts_error_text unsupported_grant_type =
    "unsupported_grant_type: only client_credentials is supported"
sts_error_text invalid_client = "invalid_client: unknown client_id/client_secret"
sts_error_text (invalid_request e) = format ("invalid_request: " ∷ e ∷ [])

pub record StsTokenRequest : Type 0 where
  pub grant_type : String
  pub client_id : String
  pub client_secret : String
  pub audience : String
  pub bearer_access_scope : Option String
  pub own_service_did : String

pub record StsTokenResponse : Type 0 where
  pub access_token : String
  pub expires_in : ℕ
  pub token_type : String

abbrev pub token_ttl_secs : ℕ
token_ttl_secs = 300

-- The bits of a byte, from the lowest; `a | (x ^ y)`, bit by bit.
abbrev pub odd : ℕ → Bool
odd n = eqb (n % 2) 1

abbrev pub or_xor_bit : Bool → Bool → Bool → ℕ
or_xor_bit a x y = if a || (x && not y || not x && y) then 1 else 0

unfoldable pub or_xor : ℕ → ℕ → ℕ → ℕ → ℕ
or_xor zero a x y = 0
or_xor (suc bits) a x y =
    or_xor_bit (odd a) (odd x) (odd y) + 2 * or_xor bits (a / 2) (x / 2) (y / 2)

-- `a.iter().zip(b).fold(acc, ..)`.
unfoldable pub differences : ℕ → List ℕ → List ℕ → ℕ
unfolding or_xor
differences acc [] bs = acc
differences acc (a ∷ as') [] = acc
differences acc (a ∷ as') (b ∷ bs) = differences (or_xor 8 acc a b) as' bs

unfoldable pub constant_time_eq : List ℕ → List ℕ → Bool
unfolding differences
constant_time_eq a b = eqb (length a) (length b) && eqb (differences 0 a b) 0

module _ (x : External) where
  -- The claims of the nested access token.
  unfoldable pub access_token_payload :
      ServiceIdentity x → StsTokenRequest → String → ℕ → String → Value
  access_token_payload signer req scope now jti =
      let nested_aud =
        if req.audience == req.own_service_did then signer.own_did else req.audience in
      json_object (
        ("iss", string signer.own_did)
        ∷ ("sub", string signer.own_did)
        ∷ ("aud", string nested_aud)
        ∷ ("scope", string scope)
        ∷ ("iat", json_num now)
        ∷ ("exp", json_num (now + token_ttl_secs))
        ∷ ("jti", string jti)
        ∷ [])

  -- `payload["token"] = ..` adds the claim where a scope is asked for.
  unfoldable pub nested_claim :
      ServiceIdentity x → StsTokenRequest → ℕ → String → List (String × Value)
  unfolding access_token_payload
  nested_claim signer req now jti = elim req.bearer_access_scope [
    | none ↦ []
    | some scope ↦
        (
          "token",
          string (
              x.sign_jws (access_token_payload signer req scope now jti) signer.signing_key
                signer.own_key_id),
        )
        ∷ []
  ]

  unfoldable pub id_token_payload :
      ServiceIdentity x → StsTokenRequest → ℕ → String → String → Value
  unfolding nested_claim
  id_token_payload signer req now jti nested_jti = json_object (
      ("iss", string signer.own_did)
      ∷ ("sub", string signer.own_did)
      ∷ ("aud", string req.audience)
      ∷ ("iat", json_num now)
      ∷ ("nbf", json_num now)
      ∷ ("exp", json_num (now + token_ttl_secs))
      ∷ ("jti", string jti)
      ∷ nested_claim signer req now nested_jti)

  unfoldable pub issue_token :
      StsConfig
      → ServiceIdentity x
      → StsTokenRequest
      → ℕ
      → String
      → String
      → Result StsTokenResponse StsError
  unfolding constant_time_eq is_blank as_bytes id_token_payload
  issue_token config signer req now jti nested_jti = do
    guard (req.grant_type == "client_credentials") unsupported_grant_type
    let id_ok = constant_time_eq (as_bytes req.client_id) (as_bytes config.client_id)
    let secret_ok = constant_time_eq (as_bytes req.client_secret) (as_bytes config.client_secret)
    guard (id_ok && secret_ok) invalid_client
    guard (not (is_blank req.audience)) (invalid_request "audience must not be empty")
    ok (record {
      access_token =
          x.sign_jws (id_token_payload signer req now jti nested_jti) signer.signing_key
            signer.own_key_id;
      expires_in = token_ttl_secs;
      token_type = "Bearer";
    })

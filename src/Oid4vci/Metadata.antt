-- ===== src/Oid4vci/Metadata.antt =====
-- The metadata and the answers of OID4VCI, and the well-known URLs
-- (crates/identity-hub-core/src/oid4vci.rs).
use ds_identity_hub_rs.Common.{
  String, Bool, false, not, ◌&&◌, Option, none, some, List, [], ◌∷◌, ◌==◌, eqb, if◌then◌else◌,
  Result, ◌>>=◌, ◌>>◌, guard, ok_or, ok,
}
use ds_identity_hub_rs.Common.Assoc.{Assoc}
use ds_identity_hub_rs.Common.Json.{Value}
use ds_identity_hub_rs.Common.Text.{strip_prefix, trim_end}
use Prim.Native.Char.{code}
use ds_identity_hub_rs.Common.Text

abbrev pub pre_authorized_code_grant : String
pre_authorized_code_grant = "urn:ietf:params:oauth:grant-type:pre-authorized_code"

abbrev pub format_jwt_vc_json : String
format_jwt_vc_json = "jwt_vc_json"

abbrev pub client_assertion_type_jwt_bearer : String
client_assertion_type_jwt_bearer = "urn:ietf:params:oauth:client-assertion-type:jwt-bearer"

abbrev pub credential_issuer_well_known : String
credential_issuer_well_known = "openid-credential-issuer"

abbrev pub authorization_server_well_known : String
authorization_server_well_known = "oauth-authorization-server"

-- `types` of `CredentialDefinition`.
pub record CredentialConfiguration : Type 0 where
  pub format : String
  pub scope : Option String
  pub cryptographic_binding_methods_supported : List String
  pub credential_signing_alg_values_supported : List Value
  pub proof_types_supported : Option Value
  pub credential_definition : Option (List String)

pub record CredentialIssuerMetadata : Type 0 where
  pub credential_issuer : String
  pub authorization_servers : List String
  pub credential_endpoint : String
  pub nonce_endpoint : Option String
  pub credential_configurations_supported : Assoc CredentialConfiguration

pub record AuthorizationServerMetadata : Type 0 where
  pub issuer : String
  pub token_endpoint : String
  pub grant_types_supported : List String
  pub pre_authorized_grant_anonymous_access_supported : Option Bool
  pub dpop_signing_alg_values_supported : List String

pub record CredentialResponse : Type 0 where
  -- the `credential` of each issued credential
  pub credentials : List Value
  pub credential : Option Value
  pub transaction_id : Option String

pub record ErrorResponse : Type 0 where
  pub error : String
  pub error_description : Option String

-- `s.split_once(pattern)` for a pattern of several characters.
unfoldable pub split_at : String → String → Option (String × String)
unfolding strip_prefix
split_at pattern String.[] = none
split_at pattern (String.◌∷◌ c s) =
    let later = split_at pattern s in
    elim (strip_prefix pattern (String.◌∷◌ c s)) [
      | some rest ↦ some ("", rest)
      | none ↦ elim later [ none ↦ none | some (a, b) ↦ some (String.◌∷◌ c a, b) ]
    ]

-- The part before the first '/', and the rest from it on.
unfoldable pub split_path : String → String × String
split_path String.[] = ("", "")
split_path (String.◌∷◌ c s) =
    let (a, b) = split_path s in
    if eqb (code c) b'/' then ("", String.◌∷◌ c s) else (String.◌∷◌ c a, b)

-- `s.ends_with('/')`.
unfoldable pub ends_with_slash : String → Bool
ends_with_slash String.[] = false
ends_with_slash (String.◌∷◌ c String.[]) = eqb (code c) b'/'
ends_with_slash (String.◌∷◌ c (String.◌∷◌ d s)) = ends_with_slash (String.◌∷◌ d s)

abbrev pub trim_slashes : String → String
trim_slashes s = trim_end (λ c. eqb c b'/') s

abbrev is_nonempty : String → Bool
is_nonempty s = not (s == "")

unfoldable pub well_known_url : String → String → Result String String
unfolding split_at split_path ends_with_slash trim_end
well_known_url issuer name = do
  parts ←
      ok_or (split_at "://" (trim_slashes issuer))
        (Text.format ("issuer identifier '" ∷ issuer ∷ "' is not an absolute URL" ∷ []))
  let (scheme, rest) = parts
  let (authority, path) = split_path rest
  guard (is_nonempty authority)
      (Text.format ("issuer identifier '" ∷ issuer ∷ "' has no host" ∷ []))
  let slash =
      if name == credential_issuer_well_known && is_nonempty path && ends_with_slash issuer
      then "/"
      else ""
  ok (Text.format (scheme ∷ "://" ∷ authority ∷ "/.well-known/" ∷ name ∷ path ∷ slash ∷ []))

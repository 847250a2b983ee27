-- ===== src/Issuer/Definitions.antt =====
-- The catalog of credential definitions (crates/identity-hub-http/src/issuer.rs).
pub mod Catalog
use ds_identity_hub_rs.Common.{
  ℕ, zero, suc, String, Bool, false, not, ◌&&◌, ◌||◌, Option, none, some, List, [], ◌∷◌, ◌++◌, ◌==◌,
  leb, eqb, if◌then◌else◌, is_some, length, find, retain, Result, ◌>>=◌, ◌>>◌, guard, ok, err,
}
use ds_identity_hub_rs.Common.Json.{Value, unwrap_or}
use ds_identity_hub_rs.Common.Text.{is_blank, is_alphabetic, is_alphanumeric, all_chars}
use Prim.Native.Char.{code}
use Prim.Native.String
use ds_identity_hub_rs.Common.Text
use ds_identity_hub_rs.Issuer.Error.{IssuerError, invalid, not_found, conflict, full}

abbrev pub max_credential_definitions : ℕ
max_credential_definitions = 256

abbrev pub default_validity_secs : ℕ
default_validity_secs = 3600

abbrev pub format_vc1_0_jwt : String
format_vc1_0_jwt = "VC1_0_JWT"

pub record CredentialDefinition : Type 0 where
  pub id : String
  pub credential_type : String
  pub format : String
  pub validity : ℕ
  pub json_schema_url : Option String
  pub json_schema : Option Value
  pub mappings : List Value
  pub rules : List Value
  pub attestations : List Value
  pub created_at : ℕ

-- An `i64` of a request: `pos n` is n, `negsuc n` is -(n + 1).
pub data ℤ : Type 0 where
  pos : ℕ → ℤ
  negsuc : ℕ → ℤ

pub record CredentialDefinitionInput : Type 0 where
  pub id : String
  pub credential_type : String
  pub format : Option String
  pub validity : Option ℤ
  pub json_schema_url : Option String
  pub json_schema : Option Value
  pub mappings : Option (List Value)
  pub rules : Option (List Value)
  pub attestations : Option (List Value)

abbrev is_type_char : ℕ → Bool
is_type_char c = is_alphanumeric c || eqb c b'_' || eqb c b'.' || eqb c b'-'

unfoldable pub valid_credential_type : String → Bool
unfolding all_chars
valid_credential_type String.[] = false
valid_credential_type (String.◌∷◌ c s) = is_alphabetic (code c) && all_chars is_type_char s

-- The `match` on the validity of a request.
unfoldable pub parse_validity : Option ℤ → Result ℕ IssuerError
parse_validity none = ok default_validity_secs
parse_validity (some (pos zero)) = err (invalid "validity must be > 0")
parse_validity (some (pos (suc n))) = ok (suc n)
parse_validity (some (negsuc n)) = err (invalid "validity must be > 0")

unfoldable pub into_definition :
    CredentialDefinitionInput → ℕ → Result CredentialDefinition IssuerError
unfolding is_blank valid_credential_type parse_validity
into_definition input created_at = do
  guard (not (is_blank input.id)) (invalid "id must not be empty")
  guard (valid_credential_type input.credential_type)
      (invalid "credentialType must match ^[A-Za-z][A-Za-z0-9_.-]*$")
  let format = unwrap_or input.format format_vc1_0_jwt
  guard (format == format_vc1_0_jwt) (
      invalid
        (Text.format ("format '" ∷ format ∷ "' is not supported; only " ∷ format_vc1_0_jwt ∷ [])))
  validity ← parse_validity input.validity
  ok (record {
    id = input.id;
    credential_type = input.credential_type;
    format = format;
    validity = validity;
    json_schema_url = input.json_schema_url;
    json_schema = input.json_schema;
    mappings = unwrap_or input.mappings [];
    rules = unwrap_or input.rules [];
    attestations = unwrap_or input.attestations [];
    created_at = created_at;
  })

abbrev pub DefinitionCatalog : Type 0
DefinitionCatalog = List CredentialDefinition

abbrev seed : CredentialDefinitionInput
seed = record {
  id = "membership-credential";
  credential_type = "MembershipCredential";
  format = none;
  validity = none;
  json_schema_url = none;
  json_schema = none;
  mappings = none;
  rules = none;
  attestations = none;
}

-- `none` is a failed `expect`.
unfoldable pub seeded : ℕ → Option DefinitionCatalog
unfolding into_definition
seeded now = elim (into_definition seed now) [ ok d ↦ some (d ∷ []) | err e ↦ none ]

unfoldable pub get : DefinitionCatalog → String → Option CredentialDefinition
get catalog id = find (λ d. d.id == id) catalog

unfoldable pub create :
    DefinitionCatalog → CredentialDefinition → DefinitionCatalog × Result (Unit {0}) IssuerError
unfolding get
create catalog d =
    if is_some (get catalog d.id)
    then (
      catalog,
      err (conflict (Text.format ("credential definition '" ∷ d.id ∷ "' already exists" ∷ []))),
    )
    else if leb max_credential_definitions (length catalog)
    then (catalog, err (full "at most 256 credential definitions"))
    else (catalog ++ d ∷ [], ok tt)

-- The write through `iter_mut().find(..)`.
unfoldable pub replace_first : CredentialDefinition → DefinitionCatalog → DefinitionCatalog
replace_first new [] = []
replace_first new (d ∷ ds) = if d.id == new.id then new ∷ ds else d ∷ replace_first new ds

unfoldable pub update :
    DefinitionCatalog
    → CredentialDefinition
    → DefinitionCatalog × Result CredentialDefinition IssuerError
unfolding get replace_first
update catalog definition = elim (get catalog definition.id) [
  | none ↦ (
    catalog,
    err (not_found (Text.format ("no credential definition '" ∷ definition.id ∷ "'" ∷ []))),
  )
  | some existing ↦
      let new = record definition { created_at = existing.created_at } in
      (replace_first new catalog, ok new)
]

unfoldable pub remove : DefinitionCatalog → String → DefinitionCatalog × Bool
remove catalog id =
    let kept = retain (λ d. not (d.id == id)) catalog in
    (kept, not (eqb (length catalog) (length kept)))

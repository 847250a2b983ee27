-- ===== src/Issuer/Holders.antt =====
-- The holder registry (crates/identity-hub-http/src/issuer.rs).
pub mod Registry
use ds_identity_hub_rs.Common.{
  ℕ, String, Bool, ◌&&◌, ◌||◌, Option, none, some, List, [], ◌∷◌, ◌++◌, map, leb, eqb,
  if◌then◌else◌, filter_map, Result, ok, err,
}
use ds_identity_hub_rs.Common.Assoc.{Assoc, contains, len}
use ds_identity_hub_rs.Common.Json.{Value, and_then}
use ds_identity_hub_rs.Common.Text.{
  format, is_digit, is_alphanumeric, all_chars, strip_prefix, split, join, to_lower, to_upper,
}
use Prim.Native.Char.{Char, code}
use Prim.Native.String
use ds_identity_hub_rs.Issuer.Error.{IssuerError, conflict, full}
use ds_identity_hub_rs.Common.Assoc
use ds_identity_hub_rs.Common.Text

abbrev pub max_holders : ℕ
max_holders = 4096

pub data HolderStatus : Type 0 where
  pending approved rejected : HolderStatus

pub record Holder : Type 0 where
  pub holder_id : String
  pub did : String
  pub name : Option String
  pub properties : Assoc Value
  pub status : HolderStatus
  pub created_at : ℕ

pub record HolderRegistration : Type 0 where
  pub holder_id : Option String
  pub did : String
  pub name : Option String
  pub properties : Option (Assoc Value)

pub record HolderUpdate : Type 0 where
  pub holder_id : String
  pub name : Option String
  pub properties : Option (Assoc Value)

pub record HolderRegistry : Type 0 where
  pub holders : Assoc Holder
  pub by_did : Assoc String
  pub order : List String

unfoldable pub default : HolderRegistry
default = record { holders = []; by_did = []; order = [] }

abbrev pub is_hex : ℕ → Bool
is_hex c = is_digit c || (leb b'a' c && leb c b'f') || (leb b'A' c && leb c b'F')

-- The loop over the `%` signs, character by character.
unfoldable pub uppercase_escapes : String → String
uppercase_escapes String.[] = String.[]
uppercase_escapes (String.◌∷◌ a String.[]) = String.◌∷◌ a String.[]
uppercase_escapes (String.◌∷◌ a (String.◌∷◌ b String.[])) =
    String.◌∷◌ a (uppercase_escapes (String.◌∷◌ b String.[]))
uppercase_escapes (String.◌∷◌ a (String.◌∷◌ b (String.◌∷◌ c s))) =
    let skip = String.◌∷◌ a (uppercase_escapes (String.◌∷◌ b (String.◌∷◌ c s))) in
    let escape =
      String.◌∷◌ a (String.◌∷◌ (to_upper b) (String.◌∷◌ (to_upper c) (uppercase_escapes s))) in
    if eqb (code a) b'%' && (is_hex (code b) && is_hex (code c)) then escape else skip

-- `segment.split_at(segment.find('%').unwrap_or(segment.len()))`.
unfoldable pub split_at_percent : String → String × String
split_at_percent String.[] = ("", "")
split_at_percent (String.◌∷◌ c s) =
    let rest = split_at_percent s in
    if eqb (code c) b'%' then ("", String.◌∷◌ c s) else (String.◌∷◌ c rest.0, rest.1)

unfoldable pub to_ascii_lowercase : String → String
to_ascii_lowercase String.[] = ""
to_ascii_lowercase (String.◌∷◌ c s) = String.◌∷◌ (to_lower c) (to_ascii_lowercase s)

abbrev is_host_char : ℕ → Bool
is_host_char c = is_alphanumeric c || eqb c b'.' || eqb c b'-'

-- The first segment after `did:web:`.
unfoldable pub fold_host : String → String
unfolding split_at_percent all_chars to_ascii_lowercase uppercase_escapes
fold_host segment =
    let (host, tail) = split_at_percent segment in
    if all_chars is_host_char host
    then uppercase_escapes (format (to_ascii_lowercase host ∷ tail ∷ []))
    else uppercase_escapes segment

abbrev fold_segments : List String → List String
fold_segments [] = []
fold_segments (host ∷ path) = fold_host host ∷ map uppercase_escapes path

unfoldable pub holder_key : String → String
unfolding strip_prefix split join fold_host
holder_key did = elim (strip_prefix "did:web:" did) [
  | none ↦ did
  | some rest ↦ format ("did:web:" ∷ join ":" (fold_segments (split b':' rest)) ∷ [])
]

unfoldable pub get : HolderRegistry → String → Option Holder
get r holder_id = Assoc.get holder_id r.holders

-- The lookup through the index, under a key.
unfoldable pub by_key : HolderRegistry → String → Option Holder
by_key r key = and_then (Assoc.get key r.by_did) (λ id. Assoc.get id r.holders)

unfoldable pub by_did : HolderRegistry → String → Option Holder
unfolding by_key
by_did r did = by_key r (holder_key did)

unfoldable pub insert : HolderRegistry → Holder → HolderRegistry × Result Holder IssuerError
unfolding by_key
insert r holder =
    if Assoc.contains holder.holder_id r.holders
    then (r, err (conflict (format ("holder '" ∷ holder.holder_id ∷ "' already exists" ∷ []))))
    else elim (by_key r (holder_key holder.did)) [
      | some existing ↦ (
        r,
        err (conflict (format ("a holder with did '" ∷ existing.did ∷ "' already exists" ∷ []))),
      )
      | none ↦
          if leb max_holders (len r.holders)
          then (r, err (full "holder registry is full (4096)"))
          else (
            record {
              holders = Assoc.insert holder.holder_id holder r.holders;
              by_did = Assoc.insert (holder_key holder.did) holder.holder_id r.by_did;
              order = r.order ++ holder.holder_id ∷ [];
            },
            ok holder,
          )
    ]

-- `all()`: in the order of registration.
unfoldable pub all_holders : HolderRegistry → List Holder
all_holders r = filter_map (λ id. Assoc.get id r.holders) r.order

-- A write through `get_mut(holder_id)`.
unfoldable pub modify : HolderRegistry → String → (Holder → Holder) → HolderRegistry
modify r holder_id f = record r { holders = Assoc.modify holder_id f r.holders }

-- ===== src/Issuer/Query.antt =====
-- The query language of the admin API: `QuerySpec` (crates/identity-hub-http/src/issuer.rs).
pub mod Sort
pub mod Page
pub mod Accepted
use ds_identity_hub_rs.Common.{
  ℕ, String, Bool, true, false, not, ◌&&◌, ◌||◌, Option, none, some, List, [], ◌∷◌, ◌++◌, ◌==◌, leb,
  if◌then◌else◌, length, take, drop, find, all, retain, Result, ◌>>=◌, ◌>>◌, guard, ok, err,
}
use ds_identity_hub_rs.Common.Json.{Value, null, bool, number, string, items, member, unwrap_or}
use ds_identity_hub_rs.Common.Text.{format, to_upper}
use ds_identity_hub_rs.External.{External}
use Prim.Native.Nat.{compare, min, Ordering}
use Prim.Native.Char.{code}
use Prim.Native.String
use ds_identity_hub_rs.External
use ds_identity_hub_rs.Issuer.Definitions.{ℤ, pos, negsuc}

abbrev pub default_query_limit : ℕ
default_query_limit = 50

abbrev pub max_query_limit : ℕ
max_query_limit = 500

abbrev pub max_filter_criteria : ℕ
max_filter_criteria = 16

pub record Criterion : Type 0 where
  pub operand_left : String
  pub operator : String
  pub operand_right : Value

pub record QuerySpec : Type 0 where
  pub offset : Option ℤ
  pub limit : Option ℤ
  pub filter_expression : Option (List Criterion)
  pub sort_field : Option String
  pub sort_order : Option String

-- The derived `Default`.
abbrev pub default : QuerySpec
default = record {
  offset = none;
  limit = none;
  filter_expression = none;
  sort_field = none;
  sort_order = none;
}

abbrev show_bool : Bool → String
show_bool true = "true"
show_bool false = "false"

-- `Ordering::reverse`.
abbrev pub reverse : Ordering → Ordering
reverse Ordering.lt = Ordering.gt
reverse Ordering.eq = Ordering.eq
reverse Ordering.gt = Ordering.lt

-- `bool::cmp`, and `str::cmp`, which orders by code points.
abbrev pub cmp_bool : Bool → Bool → Ordering
cmp_bool false true = Ordering.lt
cmp_bool true false = Ordering.gt
cmp_bool _ _ = Ordering.eq

unfoldable pub cmp_str : String → String → Ordering
cmp_str String.[] String.[] = Ordering.eq
cmp_str String.[] (String.◌∷◌ d t) = Ordering.lt
cmp_str (String.◌∷◌ c s) String.[] = Ordering.gt
cmp_str (String.◌∷◌ c s) (String.◌∷◌ d t) = elim (compare (code c) (code d)) [
  | Ordering.lt ↦ Ordering.lt
  | Ordering.gt ↦ Ordering.gt
  | Ordering.eq ↦ cmp_str s t
]

unfoldable pub parse_offset : Option ℤ → Result ℕ String
parse_offset none = ok 0
parse_offset (some (pos o)) = ok o
parse_offset (some (negsuc _)) = err "offset must be >= 0"

unfoldable pub parse_limit : Option ℤ → Result ℕ String
parse_limit none = ok default_query_limit
parse_limit (some (pos l)) = ok (min l max_query_limit)
parse_limit (some (negsuc _)) = err "limit must be >= 0"

unfoldable pub to_ascii_uppercase : String → String
to_ascii_uppercase String.[] = ""
to_ascii_uppercase (String.◌∷◌ c s) = String.◌∷◌ (to_upper c) (to_ascii_uppercase s)

-- Whether the order is descending.
unfoldable pub parse_order : Option String → Result Bool String
unfolding to_ascii_uppercase
parse_order none = ok false
parse_order (some o) =
    let order = to_ascii_uppercase o in
    if order == "ASC"
    then ok false
    else if order == "DESC"
    then ok true
    else err (format ("sortOrder must be ASC or DESC, not '" ∷ order ∷ "'" ∷ []))

abbrev pub is_gt : Ordering → Bool
is_gt Ordering.gt = true
is_gt _ = false

-- A stable sort: the element goes in front of the first one that it is not after.
module _ {A : Type 0} (cmp : A → A → Ordering) where
  unfoldable pub insert_sorted : A → List A → List A
  insert_sorted a [] = a ∷ []
  insert_sorted a (b ∷ bs) =
      let rest = insert_sorted a bs in if is_gt (cmp a b) then b ∷ rest else a ∷ b ∷ bs

  unfoldable pub sort_by : List A → List A
  unfolding insert_sorted
  sort_by [] = []
  sort_by (a ∷ as') = insert_sorted a (sort_by as')

-- Whether the comparison orders the elements of a list totally: each pair looks the same from
-- either side, and what does not come after a second, which does not come after a third, does not
-- come after the third.
abbrev pub same_ordering : Ordering → Ordering → Bool
same_ordering Ordering.lt Ordering.lt = true
same_ordering Ordering.eq Ordering.eq = true
same_ordering Ordering.gt Ordering.gt = true
same_ordering _ _ = false

module _ {A : Type 0} (cmp : A → A → Ordering) where
  abbrev pub flips : A → A → Bool
  flips a b = same_ordering (cmp b a) (reverse (cmp a b))

  abbrev pub all_flip : List A → Bool
  all_flip [] = true
  all_flip (a ∷ as') = all (flips a) as' && all_flip as'

  abbrev follows : A → A → A → Bool
  follows a b c = is_gt (cmp a b) || is_gt (cmp b c) || not (is_gt (cmp a c))

  unfoldable pub is_total : List A → Bool
  is_total as' = all_flip as' && all (λ a. all (λ b. all (follows a b) as') as') as'

-- `Vec::reverse`.
unfoldable pub reversed : {A : Type 0} → List A → List A
reversed [] = []
reversed (a ∷ as') = reversed as' ++ a ∷ []

abbrev pub criteria_of : QuerySpec → List Criterion
criteria_of spec = unwrap_or spec.filter_expression []

abbrev pub is_supported : Criterion → Bool
is_supported c = c.operator == "="

module _ (x : External) where
  unfoldable pub operand_matches : Option Value → Value → Bool
  operand_matches f operand =
      let value = unwrap_or f null in
      if x.value_eq value operand then true else printed value operand
    where
      printed : Value → Value → Bool
      printed (number n) (string s) = x.display_number n == s
      printed (bool b) (string s) = show_bool b == s
      printed _ _ = false

  -- The `match` on two fields, where a missing one counts as null.
  unfoldable pub compare_json : Value → Value → Ordering
  unfolding cmp_str
  compare_json (number a) (number b) = unwrap_or (x.number_cmp a b) Ordering.eq
  compare_json (string a) (string b) = cmp_str a b
  compare_json (bool a) (bool b) = cmp_bool a b
  compare_json null null = Ordering.eq
  compare_json null _ = Ordering.lt
  compare_json _ null = Ordering.gt
  compare_json _ _ = Ordering.eq

  unfoldable pub compare_values : Option Value → Option Value → Ordering
  unfolding compare_json
  compare_values a b = compare_json (unwrap_or a null) (unwrap_or b null)

  unfoldable pub matches : List Criterion → Value → Bool
  unfolding operand_matches member
  matches criteria item =
      all (λ (c : Criterion). operand_matches (member c.operand_left item) c.operand_right) criteria

  -- The comparison by a field of the objects, in either direction.
  unfoldable pub by_field : String → Bool → Value → Value → Ordering
  unfolding compare_values member
  by_field f descending a b =
      let ordering = compare_values (member f a) (member f b) in
      if descending then reverse ordering else ordering

  -- `slice::sort_by` sorts stably where the comparison orders the items totally. Where it does
  -- not, as between values of different types, the order is unspecified.
  unfoldable pub arrange : Option String → Bool → List Value → List Value
  unfolding by_field sort_by reversed is_total
  arrange (some f) descending items =
      let cmp = by_field f descending in
      if is_total cmp items then sort_by cmp items else x.sort_unordered cmp items
  arrange none descending items = if descending then reversed items else items

  unfoldable pub check_criteria : List Criterion → Result (Unit {0}) String
  check_criteria criteria =
      guard (leb (length criteria) max_filter_criteria)
        (format ("at most " ∷ x.display max_filter_criteria ∷ " filterExpression criteria" ∷ []))
      >> (elim (find (λ c. not (is_supported c)) criteria) [
        | none ↦ ok tt
        | some c ↦ err (format ("operator '" ∷ c.operator ∷ "' is not supported; only '='" ∷ []))
      ])

  unfoldable pub apply : QuerySpec → List Value → Result (List Value) String
  unfolding parse_offset parse_limit parse_order check_criteria matches arrange
  apply spec items = parse_offset spec.offset >>= λ offset. parse_limit spec.limit >>= λ limit.
      parse_order spec.sort_order >>= λ descending.
      check_criteria (criteria_of spec)
      >> ok (
          take limit (
            drop offset
              (arrange spec.sort_field descending (retain (matches (criteria_of spec)) items))))

-- ===== src/Issuer/Query/Accepted.antt =====
-- Which queries are answered at all (crates/identity-hub-http/src/issuer.rs).
use ds_identity_hub_rs.Common.{
  ℕ, ◌≤◌, String, ◌≡◌, refl, ◌↔◌, ◌⊎◌, inl, inr, Bool, true, false, not, Option, none, some, List,
  [], ◌∷◌, arith, eq_iff, leb, leb→le, le→leb, Option-cases, length, take, drop, find, all, retain,
  All, guard, >>=-eq-ok, guard-eq-ok, ok,
}
use ds_identity_hub_rs.Common.Json.{Value, items}
use ds_identity_hub_rs.External.{External}
use ds_identity_hub_rs.Issuer.Definitions.{ℤ, pos, negsuc}
use ds_identity_hub_rs.Issuer.Query.{
  Criterion, QuerySpec, parse_offset, parse_limit, to_ascii_uppercase, parse_order, criteria_of,
  is_supported, check_criteria, matches, arrange, apply,
}

-- A number that is absent or not negative.
abbrev pub IsNatural : Option ℤ → Type 0
IsNatural none = Unit
IsNatural (some (pos n)) = Unit
IsNatural (some (negsuc n)) = ⊥

-- A direction that is absent, or one of the two words in any case.
abbrev pub IsDirection : Option String → Type 0
IsDirection none = Unit
IsDirection (some o) = (to_ascii_uppercase o ≡ "ASC") ⊎ (to_ascii_uppercase o ≡ "DESC")

abbrev pub IsWellFormed : QuerySpec → Type 0
IsWellFormed spec =
    IsNatural spec.offset
    × IsNatural spec.limit
    × IsDirection spec.sort_order
    × (length (criteria_of spec) ≤ 16)
    × All (λ (c : Criterion). c.operator ≡ "=") (criteria_of spec)

parse_offset-IsNatural : (o : Option ℤ) {n : ℕ} → parse_offset o ≡ ok n → IsNatural o
unfolding parse_offset
parse_offset-IsNatural none h = tt
parse_offset-IsNatural (some (pos n)) h = tt
parse_offset-IsNatural (some (negsuc n)) h = cc

parse_offset_natural : (o : Option ℤ) → IsNatural o → (n : ℕ) × (parse_offset o ≡ ok n)
unfolding parse_offset
parse_offset_natural (some (negsuc n)) h = elim h [ ]
parse_offset_natural none h = (_, refl)
parse_offset_natural (some (pos n)) h = (_, refl)

parse_limit-IsNatural : (l : Option ℤ) {n : ℕ} → parse_limit l ≡ ok n → IsNatural l
unfolding parse_limit
parse_limit-IsNatural none h = tt
parse_limit-IsNatural (some (pos n)) h = tt
parse_limit-IsNatural (some (negsuc n)) h = cc

parse_limit_natural : (l : Option ℤ) → IsNatural l → (n : ℕ) × (parse_limit l ≡ ok n)
unfolding parse_limit
parse_limit_natural (some (negsuc n)) h = elim h [ ]
parse_limit_natural none h = (_, refl)
parse_limit_natural (some (pos n)) h = (_, refl)

parse_order-IsDirection : (o : Option String) {d : Bool} → parse_order o ≡ ok d → IsDirection o
unfolding parse_order
parse_order-IsDirection none h = tt
parse_order-IsDirection (some o) h =
    ground (arith, eq_iff (to_ascii_uppercase o) "ASC", eq_iff (to_ascii_uppercase o) "DESC")

parse_order_direction : (o : Option String) → IsDirection o → (d : Bool) × (parse_order o ≡ ok d)
unfolding parse_order
parse_order_direction none h = (_, refl)
parse_order_direction (some o) (inl e) = (false, rw e refl)
parse_order_direction (some o) (inr e) = (true, rw e refl)

find_unsupported :
    (cs : List Criterion)
    → find (λ c. not (is_supported c)) cs ≡ none
    → All (λ (c : Criterion). c.operator ≡ "=") cs
find_unsupported [] h = tt
find_unsupported (c ∷ cs) h = ground (arith, find_unsupported cs, eq_iff c.operator "=")

find_supported :
    (cs : List Criterion)
    → All (λ (c : Criterion). c.operator ≡ "=") cs
    → find (λ c. not (is_supported c)) cs ≡ none
find_supported [] all = refl
find_supported (c ∷ cs) all = rw (all.0) (find_supported cs all.1)

module _ (x : External) where
  check_criteria_supported :
      (cs : List Criterion)
      → length cs ≤ 16
      → All (λ (c : Criterion). c.operator ≡ "=") cs
      → check_criteria x cs ≡ ok tt
  unfolding check_criteria
  check_criteria_supported cs bound all =
      rw (le→leb (length cs) 16 bound, find_supported cs all) refl

  supported_check_criteria :
      (cs : List Criterion)
      → check_criteria x cs ≡ ok tt
      → (length cs ≤ 16) × All (λ (c : Criterion). c.operator ≡ "=") cs
  unfolding check_criteria
  supported_check_criteria cs h =
      let (_, bound, h1) = >>=-eq-ok (guard (leb (length cs) 16) _) _ h in
      (
        leb→le (length cs) 16 (guard-eq-ok _ _ bound),
        elim (Option-cases (find (λ c. not (is_supported c)) cs)) [
          | inl e ↦ find_unsupported cs e
          | inr (c, e) ↦ absurd (ground (arith, h1, e))
        ],
      )

  answered-IsWellFormed :
      (spec : QuerySpec) (items page : List Value)
      → apply x spec items ≡ ok page
      → IsWellFormed spec
  unfolding apply
  answered-IsWellFormed spec items page h =
      let (_, o, h1) = >>=-eq-ok (parse_offset spec.offset) _ h in
      let (_, l, h2) = >>=-eq-ok (parse_limit spec.limit) _ h1 in
      let (_, d, h3) = >>=-eq-ok (parse_order spec.sort_order) _ h2 in
      let (_, c, _) = >>=-eq-ok (check_criteria x (criteria_of spec)) _ h3 in
      (
        parse_offset-IsNatural spec.offset o,
        parse_limit-IsNatural spec.limit l,
        parse_order-IsDirection spec.sort_order d,
        (supported_check_criteria (criteria_of spec) c).0,
        (supported_check_criteria (criteria_of spec) c).1,
      )

  well_formed-answered :
      (spec : QuerySpec) (items : List Value)
      → IsWellFormed spec
      → (page : List Value) × (apply x spec items ≡ ok page)
  unfolding apply
  well_formed-answered spec items h =
      let (offset, o) = parse_offset_natural spec.offset h.0 in
      let (limit, l) = parse_limit_natural spec.limit h.1 in
      let (descending, d) = parse_order_direction spec.sort_order h.2 in
      let c = check_criteria_supported (criteria_of spec) h.3 h.4 in
      let matched = retain (matches x (criteria_of spec)) items in
      (
        take limit (drop offset (arrange x spec.sort_field descending matched)),
        rw (o, l, d, c) refl,
      )

  -- A query is answered exactly when its offset and limit are not negative, its direction is ASC
  -- or DESC in any case, it has at most 16 criteria, and each has the operator =.
  pub apply-IsWellFormed_iff :
      (spec : QuerySpec) (items : List Value)
      → ((page : List Value) × (apply x spec items ≡ ok page)) ↔ IsWellFormed spec
  apply-IsWellFormed_iff spec items =
      (λ (page, h). answered-IsWellFormed spec items page h, well_formed-answered spec items)

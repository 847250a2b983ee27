-- ===== src/Issuer/Query/Page.antt =====
-- What a query answers (crates/identity-hub-http/src/issuer.rs).
use ds_identity_hub_rs.Common.{
  ℕ, zero, suc, ◌+◌, ◌≤◌, String, ◌≡◌, refl, sym, ap, ◌∙◌, Bool, true, Option, none, some, List, [],
  ◌∷◌, ◌++◌, arith, length, take, drop, all, retain, All, >>=-eq-ok, ok-injective, ok,
}
use ds_identity_hub_rs.Common.Json.{Value, items}
use ds_identity_hub_rs.External.{External}
use Prim.Native.Nat.{min}
use mathlib.Core.List.{Perm}
use mathlib.Core.List.Perm
use ds_identity_hub_rs.Issuer.Definitions.{pos}
use ds_identity_hub_rs.Issuer.Query.{
  QuerySpec, parse_offset, parse_limit, parse_order, matches, by_field, is_total, arrange,
  criteria_of, check_criteria, apply,
}
use ds_identity_hub_rs.Issuer.Query.Sort.{IsInOrder}

take-nil {ℓ} : {A : Type ℓ} (n : ℕ) → take {A = A} n [] ≡ []
take-nil zero = refl
take-nil (suc n) = refl

drop-nil {ℓ} : {A : Type ℓ} (n : ℕ) → drop {A = A} n [] ≡ []
drop-nil zero = refl
drop-nil (suc n) = refl

take-append {ℓ} :
    {A : Type ℓ} (l m : ℕ) (as' : List A) → take l as' ++ take m (drop l as') ≡ take (l + m) as'
take-append zero m as' = let e : m ≡ zero + m = omega arith in ap (λ n. take n as') e
take-append (suc l) m [] = take-nil m ∙ sym (take-nil (suc l + m))
take-append (suc l) m (a ∷ as') =
    let e : suc (l + m) ≡ suc l + m = omega arith in
    ap (λ bs. a ∷ bs) (take-append l m as') ∙ ap (λ n. take n (a ∷ as')) e

drop_add {ℓ} : {A : Type ℓ} (o l : ℕ) (as' : List A) → drop l (drop o as') ≡ drop (o + l) as'
drop_add zero l as' = let e : l ≡ zero + l = omega arith in ap (λ n. drop n as') e
drop_add (suc o) l [] = drop-nil l ∙ sym (drop-nil (suc o + l))
drop_add (suc o) l (a ∷ as') =
    let e : suc (o + l) ≡ suc o + l = omega arith in drop_add o l as' ∙ ap (λ n. drop n (a ∷ as')) e

-- The order of a sorted answer, by the field and the direction that the query names.
abbrev IsArranged : (x : External) → Option String → Bool → List Value → Type 0
IsArranged x none descending items = Unit
IsArranged x (some f) descending items = IsInOrder (by_field x f descending) items

module _ (x : External) where
  -- The field's values, where one is named, order the items totally in the direction asked for.
  abbrev pub IsOrdered : Option String → Bool → List Value → Type 0
  IsOrdered none descending items = Unit
  IsOrdered (some f) descending items = is_total (by_field x f descending) items ≡ true

  -- The answer `page` of a query: a part of at most 500 of the matching items, rearranged into the
  -- asked order.
  abbrev pub IsPage : QuerySpec → List Value → List Value → Type 0
  IsPage spec items page =
      (offset : ℕ) × (limit : ℕ) × (descending : Bool) × (sorted : List Value) × (parse_offset
          spec.offset
        ≡ ok offset)
      × (parse_limit spec.limit ≡ ok limit)
      × (parse_order spec.sort_order ≡ ok descending)
      × Perm sorted (retain (matches x (criteria_of spec)) items)
      × IsArranged x spec.sort_field descending sorted
      × (page ≡ take limit (drop offset sorted))
      × (length page ≤ 500)
      × All (λ item. matches x (criteria_of spec) item ≡ true) page

  apply-parts :
      (spec : QuerySpec) (items : List Value) {page : List Value}
      → apply x spec items ≡ ok page
      → (offset : ℕ) × (limit : ℕ) × (descending : Bool) × (parse_offset spec.offset ≡ ok offset)
        × (parse_limit spec.limit ≡ ok limit)
        × (parse_order spec.sort_order ≡ ok descending)
        × (check_criteria x (criteria_of spec) ≡ ok tt)
        × (take limit (
              drop offset (
                arrange x spec.sort_field descending (retain (matches x (criteria_of spec)) items)))
            ≡ page)
  unfolding apply
  apply-parts spec items h =
      let (offset, o, h1) = >>=-eq-ok (parse_offset spec.offset) _ h in
      let (limit, l, h2) = >>=-eq-ok (parse_limit spec.limit) _ h1 in
      let (descending, d, h3) = >>=-eq-ok (parse_order spec.sort_order) _ h2 in
      let (_, c, h4) = >>=-eq-ok (check_criteria x (criteria_of spec)) _ h3 in
      (offset, limit, descending, o, l, d, c, ok-injective h4)

  -- All that a query matches, in the asked order.
  abbrev ranked : QuerySpec → Bool → List Value → List Value
  ranked spec descending items =
      arrange x spec.sort_field descending (retain (matches x (criteria_of spec)) items)

  abbrev pub paged : QuerySpec → ℕ → ℕ → QuerySpec
  paged spec o l = record spec { offset = some (pos o); limit = some (pos l) }

  apply-paged :
      (spec : QuerySpec) (descending : Bool) (o l : ℕ) (items : List Value)
      → parse_order spec.sort_order ≡ ok descending
      → check_criteria x (criteria_of spec) ≡ ok tt
      → l ≤ 500
      → apply x (paged spec o l) items ≡ ok (take l (drop o (ranked spec descending items)))
  unfolding apply parse_offset parse_limit
  apply-paged spec descending o l items d c bound =
      let e : min l 500 ≡ l = omega arith in rw (d, c, e) refl

  -- Pages tile: a page of l and the page of m that follows it, together at most 500, are the page
  -- of l + m.
  pub apply-tiles :
      (spec : QuerySpec) (o l m : ℕ) (items first second : List Value)
      → l + m ≤ 500
      → apply x (paged spec o l) items ≡ ok first
      → apply x (paged spec (o + l) m) items ≡ ok second
      → apply x (paged spec o (l + m)) items ≡ ok (first ++ second)
  apply-tiles spec o l m items first second bound h1 h2 =
      let (_, _, descending, _, _, d, c, _) = apply-parts (paged spec o l) items h1 in
      let all = ranked spec descending items in
      let e1 = ok-injective (sym (apply-paged spec descending o l items d c (omega arith)) ∙ h1) in
      let e2 =
        ok-injective (sym (apply-paged spec descending (o + l) m items d c (omega arith)) ∙ h2) in
      apply-paged spec descending o (l + m) items d c bound
      ∙ ap ok (
          sym (take-append l m (drop o all))
          ∙ ap (λ r. take l (drop o all) ++ take m r) (drop_add o l all)
          ∙ ap (λ r. r ++ take m (drop (o + l) all)) e1
          ∙ ap (λ r. first ++ r) e2)

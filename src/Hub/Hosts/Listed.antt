-- ===== src/Hub/Hosts/Listed.antt =====
-- Membership in the allow-list of `OutboundPolicy::new` (crates/identity-hub-http/src/outbound.rs).
use ds_identity_hub_rs.Common.{
  String, ◌≡◌, refl, sym, ap, ◌∙◌, ◌⊎◌, inl, inr, true, ◌||◌, Option, none, some, List, [], ◌∷◌,
  ◌++◌, map, arith, ◌==◌, eq_iff, eq_refl, Bool-cases,
}
use ds_identity_hub_rs.Common.Assoc.{has}
use ds_identity_hub_rs.External.{External}
use ds_identity_hub_rs.Issuer.Query.{cmp_str, insert_sorted, sort_by}
use ds_identity_hub_rs.Hub.Hosts.{dedup, new, option_list, is_first}

has-again : (j a : String) (bs : List String) → is_first a bs ≡ true → has j (a ∷ bs) ≡ has j bs
has-again j a [] h = cc
has-again j a (b ∷ bs) h = rw ((eq_iff a b).0 h) (ground arith)

pub has-dedup : (j : String) (as' : List String) → has j (dedup as') ≡ has j as'
unfolding dedup
has-dedup j [] = refl
has-dedup j (a ∷ as') = elim (Bool-cases (is_first a (dedup as'))) [
  | inl e ↦ rw (e, sym (has-dedup j as')) (sym (has-again j a (dedup as') e))
  | inr e ↦ rw (e, has-dedup j as') refl
]

pub has-insert_sorted :
    (j a : String) (as' : List String) → has j (insert_sorted cmp_str a as') ≡ has j (a ∷ as')
unfolding insert_sorted
has-insert_sorted j a [] = refl
has-insert_sorted j a (b ∷ bs) = ground (arith, has-insert_sorted j a bs)

pub has-sort_by : (j : String) (as' : List String) → has j (sort_by cmp_str as') ≡ has j as'
unfolding sort_by
has-sort_by j [] = refl
has-sort_by j (a ∷ as') = rw (has-insert_sorted j a (sort_by cmp_str as'), has-sort_by j as') refl

pub has-append : (j : String) (as' bs : List String) → has j (as' ++ bs) ≡ (has j as' || has j bs)
has-append j [] bs = refl
has-append j (a ∷ as') bs = ground (arith, has-append j as' bs)

pub has-or :
    (j : String) (as' bs : List String)
    → has j (as' ++ bs) ≡ true
    → (has j as' ≡ true) ⊎ (has j bs ≡ true)
has-or j as' bs h = elim (Bool-cases (has j as')) [
  | inl e ↦ inl e
  | inr e ↦ inr (ground (arith, has-append j as' bs, e))
]

pub has-map :
    (f : String → String) (j : String) (as' : List String)
    → has j (map f as') ≡ true
    → (a : String) × (has a as' ≡ true) × (f a ≡ j)
has-map f j [] h = cc
has-map f j (a ∷ as') h = elim (Bool-cases (f a == j)) [
  | inl e ↦ (a, ground (arith, eq_refl a), (eq_iff (f a) j).0 e)
  | inr e ↦ let (b, m, same) = has-map f j as' (ground (arith, e)) in (b, ground (arith, m), same)
]

pub map-has :
    (f : String → String) (a : String) (as' : List String)
    → has a as' ≡ true
    → has (f a) (map f as') ≡ true
map-has f a [] h = cc
map-has f a (b ∷ bs) h = elim (Bool-cases (b == a)) [
  | inl e ↦ rw ((eq_iff b a).0 e) (ground (arith, eq_refl (f a)))
  | inr e ↦ ground (arith, map-has f a bs, e)
]

pub has-cons :
    (h a : String) (bs : List String) → has h (a ∷ bs) ≡ true → (a ≡ h) ⊎ (has h bs ≡ true)
has-cons h a bs m = ground (arith, eq_iff a h)

pub has_one : (h : String) (o : Option String) → has h (option_list o) ≡ true → o ≡ some h
has_one h none m = cc
has_one h (some a) m = ap some ((eq_iff a h).0 (ground arith))

pub one_has : (h : String) (o : Option String) → o ≡ some h → has h (option_list o) ≡ true
one_has h o e = rw (e, eq_refl h) refl

module _ (x : External) where
  pub has-new :
      (hosts : List String) (j : String)
      → has j (new x hosts).allowed_hosts ≡ has j (map x.to_lowercase hosts)
  unfolding new
  has-new hosts j =
      has-dedup j (sort_by cmp_str (map x.to_lowercase hosts))
      ∙ has-sort_by j (map x.to_lowercase hosts)

-- ===== src/Issuer/Query/Sort.antt =====
-- The stable sort and the order of JSON values (crates/identity-hub-http/src/issuer.rs).
use ds_identity_hub_rs.Common.{
  ◌≡◌, refl, inl, inr, true, false, List, [], ◌∷◌, arith, Bool-cases, all, All, All-append,
}
use Prim.Native.Nat.{Ordering}
use mathlib.Core.List.{Perm, perm_append_singleton}
use mathlib.Core.List.Perm
use ds_identity_hub_rs.Issuer.Query.{
  reverse, is_gt, insert_sorted, sort_by, reversed, flips, all_flip, is_total, same_ordering,
}

module _ {A : Type 0} (cmp : A → A → Ordering) where
  -- No element comes after its successor.
  abbrev pub IsInOrder : List A → Type 0
  IsInOrder [] = Unit
  IsInOrder (a ∷ []) = Unit
  IsInOrder (a ∷ b ∷ bs) = (is_gt (cmp a b) ≡ false) × IsInOrder (b ∷ bs)

  pub insert_sorted-perm : (a : A) (as' : List A) → Perm (insert_sorted cmp a as') (a ∷ as')
  unfolding insert_sorted
  insert_sorted-perm a [] = Perm.refl _
  insert_sorted-perm a (b ∷ bs) = elim (Bool-cases (is_gt (cmp a b))) [
    | inl e ↦ rw e (Perm.trans (Perm.cons b (insert_sorted-perm a bs)) (Perm.swap a b bs))
    | inr e ↦ rw e (Perm.refl _)
  ]

  pub sort_by-perm : (as' : List A) → Perm (sort_by cmp as') as'
  unfolding sort_by
  sort_by-perm [] = Perm.refl _
  sort_by-perm (a ∷ as') =
      Perm.trans (insert_sorted-perm a (sort_by cmp as')) (Perm.cons a (sort_by-perm as'))

  pub All-insert_sorted {κ} :
      (P : A → Type κ) (a : A) (as' : List A) → P a → All P as' → All P (insert_sorted cmp a as')
  unfolding insert_sorted
  All-insert_sorted P a [] h all = (h, tt)
  All-insert_sorted P a (b ∷ bs) h all = elim (Bool-cases (is_gt (cmp a b))) [
    | inl e ↦ rw e (all.0, All-insert_sorted P a bs h all.1)
    | inr e ↦ rw e (h, all)
  ]

  pub All-sort_by {κ} : (P : A → Type κ) (as' : List A) → All P as' → All P (sort_by cmp as')
  unfolding sort_by
  All-sort_by P [] all = tt
  All-sort_by P (a ∷ as') all =
      All-insert_sorted P a (sort_by cmp as') all.0 (All-sort_by P as' all.1)

  -- Of the two, not both come after the other.
  abbrev pub NotBoth : A → A → Type 0
  NotBoth a b = is_gt (cmp a b) ≡ true → is_gt (cmp b a) ≡ false

  abbrev pub Pairs : List A → Type 0
  Pairs [] = Unit
  Pairs (a ∷ as') = All (NotBoth a) as' × Pairs as'

  -- In front of the rest stands the new element or the old head.
  insert_sorted-IsInOrder_behind :
      (b a : A) (as' : List A)
      → is_gt (cmp b a) ≡ false
      → All (NotBoth a) as'
      → IsInOrder (b ∷ as')
      → IsInOrder (b ∷ insert_sorted cmp a as')
  unfolding insert_sorted
  insert_sorted-IsInOrder_behind b a [] h n order = (h, tt)
  insert_sorted-IsInOrder_behind b a (c ∷ cs) h n order = elim (Bool-cases (is_gt (cmp a c))) [
    | inl e ↦ rw e (order.0, insert_sorted-IsInOrder_behind c a cs (n.0 e) n.1 order.1)
    | inr e ↦ rw e (h, (e, order.1))
  ]

  insert_sorted-IsInOrder :
      (a : A) (as' : List A)
      → All (NotBoth a) as'
      → IsInOrder as'
      → IsInOrder (insert_sorted cmp a as')
  unfolding insert_sorted
  insert_sorted-IsInOrder a [] n order = tt
  insert_sorted-IsInOrder a (b ∷ bs) n order = elim (Bool-cases (is_gt (cmp a b))) [
    | inl e ↦ rw e (insert_sorted-IsInOrder_behind b a bs (n.0 e) n.1 order)
    | inr e ↦ rw e (e, order)
  ]

  pub sort_by-IsInOrder : (as' : List A) → Pairs as' → IsInOrder (sort_by cmp as')
  unfolding sort_by
  sort_by-IsInOrder [] n = tt
  sort_by-IsInOrder (a ∷ as') n =
      insert_sorted-IsInOrder a (sort_by cmp as') (All-sort_by (NotBoth a) as' n.0)
        (sort_by-IsInOrder as' n.1)

  flips-NotBoth : (a b : A) → flips cmp a b ≡ true → NotBoth a b
  flips-NotBoth a b h g = go (cmp a b) (cmp b a) h g
    where
      go : (o p : Ordering) → same_ordering p (reverse o) ≡ true → is_gt o ≡ true → is_gt p ≡ false
      go Ordering.gt Ordering.lt h g = refl
      go Ordering.gt Ordering.eq h g = refl
      go Ordering.gt Ordering.gt h g = cc
      go Ordering.lt p h g = cc
      go Ordering.eq p h g = cc

  all-NotBoth : (a : A) (bs : List A) → all (flips cmp a) bs ≡ true → All (NotBoth a) bs
  all-NotBoth a [] h = tt
  all-NotBoth a (b ∷ bs) h =
      (flips-NotBoth a b (ground (arith, h)), all-NotBoth a bs (ground (arith, h)))

  flip-Pairs : (as' : List A) → all_flip cmp as' ≡ true → Pairs as'
  flip-Pairs [] h = tt
  flip-Pairs (a ∷ as') h =
      (all-NotBoth a as' (ground (arith, h)), flip-Pairs as' (ground (arith, h)))

  pub is_total-Pairs : (as' : List A) → is_total cmp as' ≡ true → Pairs as'
  unfolding is_total
  is_total-Pairs as' h = flip-Pairs as' (ground (arith, h))

pub reversed-perm : {A : Type 0} (as' : List A) → Perm (reversed as') as'
unfolding reversed
reversed-perm [] = Perm.refl _
reversed-perm (a ∷ as') =
    Perm.trans (perm_append_singleton a (reversed as')) (Perm.cons a (reversed-perm as'))

pub All-reversed {κ} :
    {A : Type 0} (P : A → Type κ) (as' : List A) → All P as' → All P (reversed as')
unfolding reversed
All-reversed P [] all = tt
All-reversed P (a ∷ as') all =
    All-append P (reversed as') (a ∷ []) (All-reversed P as' all.1) (all.0, tt)

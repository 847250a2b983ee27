-- ===== src/Issuer/StatusList/Alloc.antt =====
-- Which indexes of the status list are given out.
use ds_identity_hub_rs.Common.{
  ℕ, ◌+◌, ◌≤◌, ◌<◌, ◌≡◌, refl, sym, ap, ◌∙◌, subst, inl, inr, Bool, true, false, not, ◌&&◌, Option,
  none, some, List, [], ◌∷◌, arith, ltb, eqb, if◌then◌else◌, ltb→lt, Bool-cases, Option-cases,
  some-injective, all, All,
}
use ds_identity_hub_rs.Issuer.StatusList.{
  StatusList, status_list_bits, default, insert_free, allocate_from, allocate, is_set, release,
  release_unset,
}

abbrev pub mem : ℕ → List ℕ → Bool
mem i [] = false
mem i (j ∷ js) = if eqb i j then true else mem i js

-- The abstract view: an index is given out if it was handed out and is not free again.
abbrev pub is_allocated : StatusList → ℕ → Bool
is_allocated l i = ltb i l.next_index && not (mem i l.free)

-- The free indexes ascend, and all were handed out once.
abbrev pub IsAscending : List ℕ → Type 0
IsAscending [] = Unit {0}
IsAscending (i ∷ is) = All (λ j. i < j) is × IsAscending is

pub record HasFree (l : StatusList) : Type 0 where
  pub ascending : IsAscending l.free
  pub below : All (λ i. i < l.next_index) l.free
  pub bounded : l.next_index ≤ status_list_bits

pub default-HasFree : HasFree default
unfolding default
default-HasFree = record { ascending = tt; below = tt; bounded = omega arith }

mem-insert_free :
    (i j : ℕ) (js : List ℕ) → mem j (insert_free i js) ≡ (if eqb j i then true else mem j js)
unfolding insert_free
mem-insert_free i j [] = refl
mem-insert_free i j (k ∷ js) = ground (arith, mem-insert_free i j js)

All-insert_free : (P : ℕ → Type 0) (i : ℕ) (js : List ℕ) → P i → All P js → All P (insert_free i js)
unfolding insert_free
All-insert_free P i [] h all = (h, tt)
All-insert_free P i (k ∷ js) h all = ground (arith, All-insert_free P i js h all.1)

All-lt_trans : (i j : ℕ) (js : List ℕ) → i < j → All (λ k. j < k) js → All (λ k. i < k) js
All-lt_trans i j [] h all = tt
All-lt_trans i j (k ∷ js) h all = (omega (arith, all.0), All-lt_trans i j js h all.1)

insert_free-IsAscending : (i : ℕ) (js : List ℕ) → IsAscending js → IsAscending (insert_free i js)
unfolding insert_free
insert_free-IsAscending i [] a = (tt, tt)
insert_free-IsAscending i (k ∷ js) a = ground (
  arith,
  insert_free-IsAscending i js a.1,
  All-insert_free (λ j. k < j) i js,
  All-lt_trans i k js,
)

not-mem-above : (i : ℕ) (js : List ℕ) → All (λ j. i < j) js → mem i js ≡ false
not-mem-above i [] all = refl
not-mem-above i (j ∷ js) all = ground (arith, not-mem-above i js all.1)

not-mem-below : (n i : ℕ) (js : List ℕ) → All (λ j. j < n) js → n ≤ i → mem i js ≡ false
not-mem-below n i [] all h = refl
not-mem-below n i (j ∷ js) all h = ground (arith, not-mem-below n i js all.1 h)

allocate_from-bits : (l : StatusList) (free : List ℕ) → (allocate_from l free).0.bits ≡ l.bits
unfolding allocate_from
allocate_from-bits l [] = ground arith
allocate_from-bits l (i ∷ free) = refl

pub allocate-bits : (l : StatusList) → (allocate l).0.bits ≡ l.bits
unfolding allocate
allocate-bits l = allocate_from-bits l l.free

release_unset-bits : (l : StatusList) (i : ℕ) (b : Bool) → (release_unset l i b).bits ≡ l.bits
unfolding release_unset
release_unset-bits l i true = refl
release_unset-bits l i false = refl

pub release-bits :
    (l : StatusList) (i : ℕ) {l' : StatusList} → release l i ≡ some l' → l'.bits ≡ l.bits
unfolding release
release-bits l i h = elim (Bool-cases (ltb i l.next_index)) [
  | inl e ↦ elim (Option-cases (is_set l i)) [
    | inl n ↦ absurd (ground (arith, e, n, h))
    | inr (b, n) ↦
        let shape : release l i ≡ some (release_unset l i b) = rw (e, release, n, release) in
        ap (λ (k : StatusList). k.bits) (sym (some-injective (sym shape ∙ h)))
        ∙ release_unset-bits l i b
  ]
  | inr e ↦
      let shape : release l i ≡ some l = rw (e, release) in
      ap (λ (k : StatusList). k.bits) (sym (some-injective (sym shape ∙ h)))
]

pub is_set-bits : (l k : StatusList) (i : ℕ) → l.bits ≡ k.bits → is_set l i ≡ is_set k i
unfolding is_set
is_set-bits l k i e = rw e refl

module _ (l : StatusList) (w : HasFree l) where
  abbrev GivesOut : ℕ → StatusList × Option ℕ → Type 0
  GivesOut i r =
      (is_allocated l i ≡ false)
      × (i < status_list_bits)
      × ((j : ℕ) → is_allocated r.0 j ≡ (if eqb j i then true else is_allocated l j))
      × HasFree r.0

  All-lt-suc : (n : ℕ) (js : List ℕ) → All (λ j. j < n) js → All (λ j. j < n + 1) js
  All-lt-suc n [] all = tt
  All-lt-suc n (j ∷ js) all = (omega (arith, all.0), All-lt-suc n js all.1)

  allocate_from-GivesOut :
      (free : List ℕ) (i : ℕ)
      → l.free ≡ free
      → (allocate_from l free).1 ≡ some i
      → GivesOut i (allocate_from l free)
  unfolding allocate_from
  allocate_from-GivesOut [] i e h = (
    ground arith,
    ground arith,
    λ j. ground arith,
    ground (arith, All-lt-suc l.next_index l.free w.below, w.ascending, w.bounded),
  )
  allocate_from-GivesOut (index ∷ free) i e h =
      let one : some index ≡ some i = h in
      let same : index ≡ i = cc in
      let ascending = subst IsAscending e w.ascending in
      let below = subst (All (λ k. k < l.next_index)) e w.below in
      (
        ground arith,
        omega (arith, below.0, w.bounded),
        λ j. ground (arith, not-mem-above index free ascending.0, below.0),
        record { ascending = ascending.1; below = below.1; bounded = w.bounded },
      )

  -- On a list whose free indexes ascend below the next one, an allocation gives out an index
  -- inside the list that was not given out, marks exactly that index, and keeps the list in order.
  pub allocate-is_allocated :
      (i : ℕ)
      → (allocate l).1 ≡ some i
      → (is_allocated l i ≡ false)
        × (i < status_list_bits)
        × ((j : ℕ) → is_allocated (allocate l).0 j ≡ (if eqb j i then true else is_allocated l j))
        × HasFree (allocate l).0
  unfolding allocate
  allocate-is_allocated i h = allocate_from-GivesOut l.free i refl h

  allocate_from-none :
      (free : List ℕ) (i : ℕ)
      → l.free ≡ free
      → (allocate_from l free).1 ≡ none
      → i < status_list_bits
      → (is_allocated l i ≡ true) × ((allocate_from l free).0 ≡ l)
  unfolding allocate_from
  allocate_from-none [] i e h lt = ground arith
  allocate_from-none (index ∷ free) i e h lt = cc h

  -- An allocation fails only where every index is given out, and then changes nothing.
  pub allocate-none :
      (i : ℕ)
      → (allocate l).1 ≡ none
      → i < status_list_bits
      → (is_allocated l i ≡ true) × ((allocate l).0 ≡ l)
  unfolding allocate
  allocate-none i h lt = allocate_from-none l.free i refl h lt

  release_unset-HasFree : (i : ℕ) (b : Bool) → i < l.next_index → HasFree (release_unset l i b)
  unfolding release_unset
  release_unset-HasFree i true h = w
  release_unset-HasFree i false h = record {
    ascending = insert_free-IsAscending i l.free w.ascending;
    below = All-insert_free (λ k. k < l.next_index) i l.free h w.below;
    bounded = w.bounded;
  }

  -- A released index is free again unless its bit is set, no other index changes, and the list
  -- stays in order.
  pub release-is_allocated :
      (i : ℕ) (b : Bool)
      → is_set l i ≡ some b
      → (l' : StatusList) × (release l i ≡ some l')
        × ((j : ℕ)
            → is_allocated l' j
              ≡ (if eqb j i then (if b then is_allocated l i else false) else is_allocated l j))
        × HasFree l'
  unfolding release
  release-is_allocated i b e = elim (Bool-cases (ltb i l.next_index)) [
    | inl handed ↦ (
      release_unset l i b,
      rw (handed, release, e, release),
      λ j. ground (arith, mem-insert_free i j l.free),
      release_unset-HasFree i b (ltb→lt i l.next_index handed),
    )
    | inr never ↦ (l, rw (never, release), λ j. ground arith, w)
  ]

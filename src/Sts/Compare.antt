-- ===== src/Sts/Compare.antt =====
-- The constant-time comparison is equality.
use ds_identity_hub_rs.Common.{
  ℕ, zero, suc, ◌/◌, ◌^◌, ◌<◌, ◌≡◌, refl, ap, ◌↔◌, inl, inr, true, List, [], ◌∷◌, arith, eqb,
  Bool-cases, length, All,
}
use ds_identity_hub_rs.Sts.{or_xor, differences, constant_time_eq}

or_xor_bound : (bits a x y : ℕ) → or_xor bits a x y < 2 ^ bits
unfolding or_xor
or_xor_bound zero a x y = ground arith
or_xor_bound (suc bits) a x y = ground (arith, or_xor_bound bits (a / 2) (x / 2) (y / 2))

or_xor_zero :
    (bits a x y : ℕ)
    → a < 2 ^ bits
    → x < 2 ^ bits
    → y < 2 ^ bits
    → (or_xor bits a x y ≡ 0) ↔ ((a ≡ 0) × (x ≡ y))
unfolding or_xor
or_xor_zero zero a x y ha hx hy = ground arith
or_xor_zero (suc bits) a x y ha hx hy =
    let ih = or_xor_zero bits (a / 2) (x / 2) (y / 2) (omega arith) (omega arith) (omega arith) in
    (λ e. ground (arith, ih.0), λ e. ground (arith, ih.1))

or_xor_le : (a x y : ℕ) → or_xor 8 a x y < 256
or_xor_le a x y = or_xor_bound 8 a x y

-- The fold ends at zero exactly where it starts there and no two bytes differ.
differences_zero :
    (acc : ℕ) (as' bs : List ℕ)
    → acc < 256
    → All (λ b. b < 256) as'
    → All (λ b. b < 256) bs
    → length as' ≡ length bs
    → (differences acc as' bs ≡ 0) ↔ ((acc ≡ 0) × (as' ≡ bs))
unfolding differences
differences_zero acc [] [] h ha hb e = (λ z. (z, refl), λ p. p.0)
differences_zero acc [] (b ∷ bs) h ha hb e = absurd (omega arith)
differences_zero acc (a ∷ as') [] h ha hb e = absurd (omega arith)
differences_zero acc (a ∷ as') (b ∷ bs) h ha hb e =
    let step = or_xor_zero 8 acc a b h ha.0 hb.0 in
    let ih =
      differences_zero (or_xor 8 acc a b) as' bs (or_xor_le acc a b) ha.1 hb.1 (omega arith) in
    (
      λ z.
          let (zero_here, rest) = ih.0 z in
          let (acc_zero, same) = step.0 zero_here in (acc_zero, cc),
      λ p. let head : a ≡ b = cc in let tail : as' ≡ bs = cc in ih.1 (step.1 (p.0, head), tail),
    )

-- On byte lists the constant-time comparison answers whether the lists are equal.
pub constant_time_eq_iff :
    (a b : List ℕ)
    → All (λ n. n < 256) a
    → All (λ n. n < 256) b
    → (constant_time_eq a b ≡ true) ↔ (a ≡ b)
unfolding constant_time_eq
constant_time_eq_iff a b ha hb = elim (Bool-cases (eqb (length a) (length b))) [
  | inl e ↦
      let d = differences_zero 0 a b (omega arith) ha hb (ground arith) in
      (λ h. (d.0 (ground arith)).1, λ p. let z = d.1 (refl, p) in ground arith)
  | inr e ↦ (
    λ h. absurd (ground arith),
    λ p. let l : length a ≡ length b = ap length p in absurd (ground arith),
  )
]

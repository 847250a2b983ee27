-- ===== src/State/Evict.antt =====
-- The eviction loop that `SeenJtiCache::insert` (crates/identity-hub-http/src/state.rs) and
-- `ExpiringTable::insert` (crates/identity-hub-http/src/oid4vci.rs) both run.
use ds_identity_hub_rs.Common.{
  ℕ, zero, suc, ◌+◌, ◌-◌, ◌≤◌, String, ◌≡◌, refl, inl, inr, List, [], ◌∷◌, arith, eq_refl, ltb, leb,
  if◌then◌else◌, leb→le, Bool-cases, drop,
}
use ds_identity_hub_rs.Common.Assoc.{Assoc, remove, len, keys}
use ds_identity_hub_rs.Common.Assoc.Laws.{IsDistinct, remove_fresh}

module _ {ℓ} {V : Type ℓ} where
  -- `while map.len() > capacity { match order.pop_front() { .. } }`; the head is the front.
  unfoldable pub evict_oldest : ℕ → Assoc V → List String → Assoc V × List String
  evict_oldest capacity m [] = (m, [])
  evict_oldest capacity m (oldest ∷ order) =
      let rest = evict_oldest capacity (remove oldest m) order in
      if ltb capacity (len m) then rest else (m, oldest ∷ order)

  pub evict_oldest_within :
      (capacity : ℕ) (m : Assoc V) (order : List String)
      → len m ≤ capacity
      → evict_oldest capacity m order ≡ (m, order)
  unfolding evict_oldest
  evict_oldest_within capacity m [] h = refl
  evict_oldest_within capacity m (o ∷ os) h = ground arith

  -- Where the queue lists the entries in order, the loop drops exactly the excess.
  pub evict_oldest-drop :
      (capacity excess : ℕ) (m : Assoc V)
      → IsDistinct m
      → len m ≡ excess + capacity
      → evict_oldest capacity m (keys m) ≡ (drop excess m, drop excess (keys m))
  unfolding evict_oldest remove
  evict_oldest-drop capacity zero m d e = evict_oldest_within capacity m (keys m) (omega arith)
  evict_oldest-drop capacity (suc excess) [] d e = absurd (omega arith)
  evict_oldest-drop capacity (suc excess) ((k, v) ∷ m) d e =
      ground (arith, eq_refl k, remove_fresh k m, evict_oldest-drop capacity excess m d.1)

  pub evict_oldest_lem :
      (capacity : ℕ) (m : Assoc V)
      → IsDistinct m
      → evict_oldest capacity m (keys m)
        ≡ (drop (len m - capacity) m, drop (len m - capacity) (keys m))
  evict_oldest_lem capacity m d = elim (Bool-cases (leb (len m) capacity)) [
    | inl h ↦
        let e : len m - capacity ≡ 0 = ground arith in
        rw e (evict_oldest_within capacity m (keys m) (leb→le (len m) capacity h))
    | inr h ↦ evict_oldest-drop capacity (len m - capacity) m d (ground arith)
  ]

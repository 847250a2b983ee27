-- ===== src/State/SeenJti/Replay.antt =====
-- How long a claim stays in the replay cache.
use ds_identity_hub_rs.Common.{
  ℕ, zero, suc, ◌+◌, ◌-◌, ◌≤◌, ◌<◌, String, ◌≡◌, refl, ap, ◌∙◌, inl, inr, true, false, not, List,
  [], ◌∷◌, ◌++◌, arith, eq_refl, Bool-cases, length, drop, length-append,
}
use ds_identity_hub_rs.Common.Assoc.{has}
use ds_identity_hub_rs.State.SeenJti.{SeenJtiCache, new, insert}
use ds_identity_hub_rs.State.SeenJti.Window.{IsTracked, slide, insert-slide, length-order}

unfoldable pub insert_all : SeenJtiCache → List String → SeenJtiCache
insert_all c [] = c
insert_all c (j ∷ js) = insert_all (insert c j).0 js

-- A claim stands in the window with at most `n` newer ones behind it.
abbrev Recent : ℕ → String → List String → Type 0
Recent n j xs =
    (pre : List String) × (post : List String) × (xs ≡ pre ++ j ∷ post) × (length post ≤ n)

has-append : (j : String) (pre post : List String) → has j (pre ++ j ∷ post) ≡ true
has-append j [] post = rw (eq_refl j)
has-append j (x ∷ pre) post = ground (arith, has-append j pre post)

append_after :
    (j k : String) (pre post : List String)
    → (pre ++ j ∷ post) ++ k ∷ [] ≡ pre ++ j ∷ (post ++ k ∷ [])
append_after j k [] post = refl
append_after j k (p ∷ pre) post = ap (◌∷◌ p) (append_after j k pre post)

Recent-append :
    (n excess : ℕ) (j k : String) (pre post : List String)
    → length post ≤ n
    → excess ≤ length pre
    → excess ≤ 1
    → Recent (n + 1) j (drop excess ((pre ++ j ∷ post) ++ k ∷ []))
Recent-append n zero j k pre post h room one =
    (pre, post ++ k ∷ [], append_after j k pre post, omega (arith, length-append post (k ∷ [])))
Recent-append n (suc zero) j k [] post h room one = absurd (omega arith)
Recent-append n (suc zero) j k (p ∷ pre) post h room one =
    (pre, post ++ k ∷ [], append_after j k pre post, omega (arith, length-append post (k ∷ [])))
Recent-append n (suc (suc excess)) j k pre post h room one = absurd (omega arith)

drop-append :
    (n : ℕ) (xs : List String) (j : String)
    → n ≤ length xs
    → drop n (xs ++ j ∷ []) ≡ drop n xs ++ j ∷ []
drop-append zero xs j h = refl
drop-append (suc n) [] j h = absurd (omega arith)
drop-append (suc n) (x ∷ xs) j h = drop-append n xs j (omega arith)

Recent-insert :
    (n : ℕ) (c : SeenJtiCache) (j k : String)
    → IsTracked c
    → Recent n j c.order
    → n + 1 < c.capacity
    → Recent (n + 1) j (insert c k).0.order
Recent-insert n c j k t (pre, post, e, h) room =
    let step = (insert-slide k t).2 in
    let sizes : length c.order ≡ length pre + suc (length post) =
      ap length e ∙ length-append pre (j ∷ post) in
    elim (Bool-cases (has k c.order)) [
      | inl old ↦
          let same : (insert c k).0.order ≡ c.order = step ∙ (rw old) in
          (pre, post, same ∙ e, omega arith)
      | inr new ↦
          let moved : (insert c k).0.order ≡ slide c.capacity c.order k = step ∙ (rw new) in
          let excess = length c.order + 1 - c.capacity in
          let cut : slide c.capacity c.order k ≡ drop excess ((pre ++ j ∷ post) ++ k ∷ []) =
            ap (λ xs. drop excess (xs ++ k ∷ [])) e in
          rw (moved, cut)
            (Recent-append n excess j k pre post h (omega (arith, length-order t, t.bounded))
              (omega (arith, length-order t, t.bounded)))
    ]

Recent-insert_all :
    (n : ℕ) (c : SeenJtiCache) (j : String) (js : List String)
    → IsTracked c
    → Recent n j c.order
    → n + length js < c.capacity
    → IsTracked (insert_all c js) × (has j (insert_all c js).order ≡ true)
unfolding insert_all
Recent-insert_all n c j [] t (pre, post, e, h) room = (t, rw e (has-append j pre post))
Recent-insert_all n c j (k ∷ js) t recent room =
    let step = insert-slide k t in
    Recent-insert_all (n + 1) (insert c k).0 j js step.0
      (Recent-insert n c j k t recent (omega arith)) (omega (arith, step.3))

-- `insert` keeps the newest claim in place: it is the last of the window.
insert-Recent :
    (c : SeenJtiCache) (j : String)
    → IsTracked c
    → 0 < c.capacity
    → (insert c j).1 ≡ true
    → Recent 0 j (insert c j).0.order
insert-Recent c j t room accepted =
    let step = insert-slide j t in
    elim (Bool-cases (has j c.order)) [
      | inl old ↦ cc (step.1, old)
      | inr new ↦
          let moved : (insert c j).0.order ≡ slide c.capacity c.order j = step.2 ∙ (rw new) in
          let excess = length c.order + 1 - c.capacity in
          let fits : excess ≤ length c.order = omega arith in
          (drop excess c.order, [], moved ∙ drop-append excess c.order j fits, omega arith)
    ]

-- A jti that a well-formed replay cache accepted is refused again as long as fewer other claims
-- than its capacity arrive in between.
pub insert-replay :
    (c : SeenJtiCache) (j : String) (js : List String)
    → IsTracked c
    → length js < c.capacity
    → (insert c j).1 ≡ true
    → (insert (insert_all (insert c j).0 js) j).1 ≡ false
insert-replay c j js t room accepted =
    let step = insert-slide j t in
    let (tracked, held) =
      Recent-insert_all 0 (insert c j).0 j js step.0 (insert-Recent c j t (omega arith) accepted)
        (omega (arith, step.3)) in
    (insert-slide j tracked).1 ∙ ap not held

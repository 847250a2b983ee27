-- ===== src/State/SeenJti/Window.antt =====
-- The replay cache is a sliding window over the claims that arrive.
use ds_identity_hub_rs.Common.{
  ℕ, zero, suc, ◌+◌, ◌-◌, ◌≤◌, String, ◌≡◌, refl, sym, ap, ◌∙◌, subst, inl, inr, true, false, not,
  none, List, [], ◌∷◌, ◌++◌, arith, if◌then◌else◌, Option-cases, is_some, length, drop,
  length-append, length-drop,
}
use ds_identity_hub_rs.Common.Assoc.{Assoc, has, get, contains, len, keys}
use ds_identity_hub_rs.Common.Assoc.Laws.{
  IsDistinct, insert_fresh, insert-IsDistinct, keys-append, length-keys, contains-keys,
}
use ds_identity_hub_rs.State.Evict.{evict_oldest_lem}
use ds_identity_hub_rs.State.SeenJti.{SeenJtiCache, new, insert}
use ds_identity_hub_rs.Common.Assoc

-- The set and the queue hold the same claims, each once, and no more than the capacity.
pub record IsTracked (c : SeenJtiCache) : Type 0 where
  pub same : keys c.seen ≡ c.order
  pub distinct : IsDistinct c.seen
  pub bounded : len c.seen ≤ c.capacity

-- The specification: a list of claims, newest last, cut to the capacity from the front.
abbrev pub slide : ℕ → List String → String → List String
slide capacity xs j = drop (length xs + 1 - capacity) (xs ++ j ∷ [])

new-IsTracked : (capacity : ℕ) → IsTracked (new capacity)
unfolding new
new-IsTracked capacity = record { same = refl; distinct = tt; bounded = omega arith }

drop-IsDistinct : (n : ℕ) (m : Assoc (Unit {0})) → IsDistinct m → IsDistinct (drop n m)
drop-IsDistinct zero m d = d
drop-IsDistinct (suc n) [] d = tt
drop-IsDistinct (suc n) ((k, v) ∷ m) d = drop-IsDistinct n m d.1

keys-drop : (n : ℕ) (m : Assoc (Unit {0})) → keys (drop n m) ≡ drop n (keys m)
keys-drop zero m = refl
keys-drop (suc n) [] = refl
keys-drop (suc n) ((k, v) ∷ m) = keys-drop n m

append-IsDistinct :
    (m : Assoc (Unit {0})) (j : String)
    → IsDistinct m
    → Assoc.get j m ≡ none
    → IsDistinct (m ++ (j, tt) ∷ [])
append-IsDistinct m j d fresh =
    subst IsDistinct (insert_fresh j tt m fresh) (insert-IsDistinct j tt m d)

-- One call on a new claim, in terms of the window.
insert_slides :
    {c : SeenJtiCache} (t : IsTracked c) (j : String)
    → Assoc.get j c.seen ≡ none
    → insert c j ≡ (
      record c {
        seen = drop (len c.seen + 1 - c.capacity) (c.seen ++ (j, tt) ∷ []);
        order = drop (len c.seen + 1 - c.capacity) (c.order ++ j ∷ []);
      },
      true,
    )
unfolding insert
insert_slides {c} t j fresh =
    let m = c.seen ++ (j, tt) ∷ [] in
    let same : c.order ++ j ∷ [] ≡ keys m =
      ap (λ xs. xs ++ j ∷ []) (sym t.same) ∙ sym (keys-append c.seen _) in
    let e : len m ≡ len c.seen + 1 = length-append c.seen _ in
    rw (
      fresh,
      insert_fresh j tt c.seen fresh,
      same,
      evict_oldest_lem c.capacity m (append-IsDistinct c.seen j t.distinct fresh),
      e,
    )

pub length-order : {c : SeenJtiCache} → IsTracked c → length c.order ≡ len c.seen
length-order {c} t = ap length (sym t.same) ∙ length-keys c.seen

has-order : {c : SeenJtiCache} (j : String) → IsTracked c → Assoc.contains j c.seen ≡ has j c.order
has-order {c} j t = contains-keys j c.seen ∙ ap (has j) t.same

slide-IsTracked :
    {c : SeenJtiCache} (j : String)
    → IsTracked c
    → Assoc.get j c.seen ≡ none
    → IsTracked (insert c j).0
slide-IsTracked {c} j t fresh = rw (insert_slides t j fresh) (record {
  same =
      keys-drop (len c.seen + 1 - c.capacity) (c.seen ++ (j, tt) ∷ [])
      ∙ ap (drop (len c.seen + 1 - c.capacity))
          (keys-append c.seen ((j, tt) ∷ []) ∙ ap (λ xs. xs ++ j ∷ []) t.same);
  distinct = drop-IsDistinct _ _ (append-IsDistinct c.seen j t.distinct fresh);
  bounded = omega (
    arith,
    t.bounded,
    length-drop (len c.seen + 1 - c.capacity) (c.seen ++ (j, tt) ∷ []),
    length-append c.seen ((j, tt) ∷ []),
  );
})

-- The replay cache implements a sliding window of the newest claims: its answer and its queue are
-- those of the window, and its well-formedness is kept.
pub insert-slide :
    {c : SeenJtiCache} (j : String)
    → IsTracked c
    → IsTracked (insert c j).0
      × ((insert c j).1 ≡ not (has j c.order))
      × ((insert c j).0.order ≡ (if has j c.order then c.order else slide c.capacity c.order j))
      × ((insert c j).0.capacity ≡ c.capacity)
insert-slide {c} j t = elim (Option-cases (Assoc.get j c.seen)) [
  | inl fresh ↦
      let new_claim : has j c.order ≡ false = sym (has-order j t) ∙ ap is_some fresh in
      (
        slide-IsTracked j t fresh,
        rw (insert_slides t j fresh, new_claim),
        rw (insert_slides t j fresh, new_claim, length-order t),
        rw (insert_slides t j fresh),
      )
  | inr (u, old) ↦
      let seen_claim : has j c.order ≡ true = sym (has-order j t) ∙ ap is_some old in
      let same : insert c j ≡ (c, false) = unfold insert in rw old in
      rw (same, seen_claim) (t, refl, refl, refl)
]

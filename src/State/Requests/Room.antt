-- ===== src/State/Requests/Room.antt =====
-- What the eviction loop of `RequestTable::insert` does to a table that is in order.
use ds_identity_hub_rs.Common.{
  ℕ, zero, suc, ◌≤◌, ◌<◌, String, ◌≡◌, refl, sym, ap, ◌∙◌, ◌⊎◌, inl, inr, Bool, true, false, none,
  some, List, [], ◌∷◌, arith, ◌==◌, eq_iff, ltb, ltb→lt, lt→ltb, le→leb, ltb_false→le, Bool-cases,
  Option-cases, is_some, length,
}
use ds_identity_hub_rs.Common.Assoc.{Assoc, get, remove, contains, len, keys}
use ds_identity_hub_rs.Common.Assoc.Laws.{
  get-remove, IsDistinct, remove_fresh, remove-IsDistinct, len-remove, length-keys,
}
use ds_identity_hub_rs.Issuer.Process.{IssuanceProcess, is_active, is_terminal}
use ds_identity_hub_rs.State.Requests.{RequestTable, new, is_evictable, remove_first, make_room}
use mathlib.Core.Option
use ds_identity_hub_rs.Common.Assoc

-- The map and the queue hold the same ids, each once, and no more than the capacity.
pub record IsTracked (t : RequestTable) : Type 0 where
  pub same : keys t.records ≡ t.order
  pub distinct : IsDistinct t.records
  pub bounded : len t.records ≤ t.capacity

pub new-IsTracked : (capacity : ℕ) → IsTracked (new capacity)
unfolding new
new-IsTracked capacity = record { same = refl; distinct = tt; bounded = omega arith }

remove_first-keys :
    (p : String → Bool) (m : Assoc IssuanceProcess) (o : String) (rest : List String)
    → IsDistinct m
    → remove_first p (keys m) ≡ some (o, rest)
    → (keys (Assoc.remove o m) ≡ rest) × (p o ≡ true) × (Assoc.contains o m ≡ true)
unfolding remove_first Assoc.remove Assoc.get
remove_first-keys p [] o rest d e = cc
remove_first-keys p ((k, v) ∷ m) o rest d e = elim (Bool-cases (p k)) [
  | inl hit ↦ ground (arith, eq_iff k o, remove_fresh k m)
  | inr miss ↦
      let (found, e', same) = (Option.map-eq-some_iff _ _).0 (rw (miss, remove_first) at e) in
      let (kept, hit, held) = remove_first-keys p m found.0 found.1 d.1 e' in
      ground (arith, eq_iff k o)
]

remove_first-none :
    (p : String → Bool) (m : Assoc IssuanceProcess) (k : String) (v : IssuanceProcess)
    → remove_first p (keys m) ≡ none
    → Assoc.get k m ≡ some v
    → p k ≡ false
unfolding remove_first Assoc.get
remove_first-none p [] k v e h = cc
remove_first-none p ((j, w) ∷ m) k v e h = ground (arith, eq_iff j k, remove_first-none p m k v)

make_room_within :
    (fuel capacity : ℕ) (m : Assoc IssuanceProcess) (order : List String)
    → len m < capacity
    → make_room fuel capacity m order ≡ (m, order, true)
unfolding make_room
make_room_within zero capacity m order h = rw (lt→ltb (len m) capacity h)
make_room_within (suc fuel) capacity m order h = ground arith

-- The table that the loop leaves has room, and lacks terminal processes only.
pub record Cleared (t : RequestTable) (m : Assoc IssuanceProcess) (order : List String)
    : Type 0 where
  pub same : keys m ≡ order
  pub distinct : IsDistinct m
  pub room : len m < t.capacity
  pub kept :
      (k : String) (p : IssuanceProcess)
      → Assoc.get k t.records ≡ some p
      → is_active p.state ≡ true
      → Assoc.get k m ≡ some p
  pub old :
      (k : String) (p : IssuanceProcess) → Assoc.get k m ≡ some p → Assoc.get k t.records ≡ some p
  pub spare :
      (len t.records < t.capacity)
      ⊎ ((k : String) × (p : IssuanceProcess) × (Assoc.get k t.records ≡ some p)
          × (is_active p.state ≡ false))

abbrev pub IsFull : RequestTable → Type 0
IsFull t =
    (t.capacity ≤ len t.records)
    × ((k : String) (p : IssuanceProcess)
        → Assoc.get k t.records ≡ some p
        → is_active p.state ≡ true)

abbrev pub loop_of : RequestTable → Assoc IssuanceProcess × List String × Bool
loop_of t = make_room (length t.order) t.capacity t.records t.order

evictable-terminal :
    (m : Assoc IssuanceProcess) (k : String) (p : IssuanceProcess)
    → Assoc.get k m ≡ some p
    → is_evictable m k ≡ is_terminal p.state
unfolding is_evictable
evictable-terminal m k p e = rw (e, is_evictable)

length-order : {t : RequestTable} → IsTracked t → length t.order ≡ len t.records
length-order {t} v = ap length (sym v.same) ∙ length-keys t.records

not_evicted :
    (m : Assoc IssuanceProcess) (o k : String) (p : IssuanceProcess)
    → Assoc.get k m ≡ some p
    → is_active p.state ≡ true
    → is_evictable m o ≡ true
    → (o == k) ≡ false
unfolding is_terminal
not_evicted m o k p h a e = ground (arith, eq_iff o k, evictable-terminal m k p h)

evicted_terminal :
    (m : Assoc IssuanceProcess) (o : String)
    → is_evictable m o ≡ true
    → Assoc.contains o m ≡ true
    → (k : String) × (p : IssuanceProcess) × (Assoc.get k m ≡ some p) × (is_active p.state ≡ false)
unfolding is_terminal
evicted_terminal m o hit held = elim (Option-cases (Assoc.get o m)) [
  | inl e ↦ cc (held, ap is_some e)
  | inr (p, e) ↦ (o, p, e, ground (arith, evictable-terminal m o p e))
]

evicted-Cleared :
    {t : RequestTable} (o : String) (rest : List String)
    → IsTracked t
    → remove_first (is_evictable t.records) t.order ≡ some (o, rest)
    → Cleared t (Assoc.remove o t.records) rest
evicted-Cleared {t} o rest v e =
    let (same, hit, held) =
      remove_first-keys (is_evictable t.records) t.records o rest v.distinct
        (ap (remove_first (is_evictable t.records)) v.same ∙ e) in
    record {
      same = same;
      distinct = remove-IsDistinct o t.records v.distinct;
      room = ground (arith, len-remove o t.records v.distinct, v.bounded);
      kept =
          λ k p h a. ground (arith, get-remove o k t.records, not_evicted t.records o k p h a hit);
      old = λ k p h. ground (arith, get-remove o k t.records);
      spare = inr (evicted_terminal t.records o hit held);
    }

make_room_full :
    (fuel capacity : ℕ) (m : Assoc IssuanceProcess) (order : List String)
    → capacity ≤ len m
    → remove_first (is_evictable m) order ≡ none
    → make_room fuel capacity m order ≡ (m, order, false)
unfolding make_room
make_room_full zero capacity m order h e = ground arith
make_room_full (suc fuel) capacity m order h e =
    rw (le→leb capacity (len m) h, make_room, e, make_room)

make_room_evict :
    (capacity : ℕ) (m : Assoc IssuanceProcess) (order : List String) (o : String)
    (rest : List String)
    → capacity ≤ len m
    → len (Assoc.remove o m) < capacity
    → remove_first (is_evictable m) order ≡ some (o, rest)
    → make_room (length order) capacity m order ≡ (Assoc.remove o m, rest, true)
make_room_evict capacity m [] o rest h k e = unfold remove_first in cc e
make_room_evict capacity m (x ∷ xs) o rest h k e =
    unfold make_room in
    rw (le→leb capacity (len m) h, make_room, e, make_room)
      (make_room_within (length xs) capacity (Assoc.remove o m) rest k)

untouched-Cleared :
    {t : RequestTable} → IsTracked t → len t.records < t.capacity → Cleared t t.records t.order
untouched-Cleared v h = record {
  same = v.same;
  distinct = v.distinct;
  room = h;
  kept = λ k p e a. e;
  old = λ k p e. e;
  spare = inl h;
}

stuck-IsFull :
    {t : RequestTable}
    → IsTracked t
    → t.capacity ≤ len t.records
    → remove_first (is_evictable t.records) t.order ≡ none
    → IsFull t
unfolding is_terminal
stuck-IsFull {t} v h e = (
  h,
  λ k p found.
      let none_left : remove_first (is_evictable t.records) (keys t.records) ≡ none =
        ap (remove_first (is_evictable t.records)) v.same ∙ e in
      ground (
        arith,
        remove_first-none (is_evictable t.records) t.records k p none_left found,
        evictable-terminal t.records k p found,
      ),
)

-- The loop ends with room, or the table is full of active processes and stays as it is.
pub loop_cases :
    {t : RequestTable}
    → IsTracked t
    → ((m : Assoc IssuanceProcess) × (order : List String) × (loop_of t ≡ (m, order, true))
        × Cleared t m order)
      ⊎ ((loop_of t ≡ (t.records, t.order, false)) × IsFull t)
loop_cases {t} v = elim (Bool-cases (ltb (len t.records) t.capacity)) [
  | inl room ↦
      let h = ltb→lt (len t.records) t.capacity room in
      inl (
        t.records,
        t.order,
        make_room_within (length t.order) t.capacity t.records t.order h,
        untouched-Cleared v h,
      )
  | inr tight ↦
      let h = ltb_false→le (len t.records) t.capacity tight in
      elim (Option-cases (remove_first (is_evictable t.records) t.order)) [
        | inl e ↦
            inr
              (make_room_full (length t.order) t.capacity t.records t.order h e, stuck-IsFull v h e)
        | inr ((o, rest), e) ↦
            let c = evicted-Cleared o rest v e in
            inl (
              Assoc.remove o t.records,
              rest,
              make_room_evict t.capacity t.records t.order o rest h c.room e,
              c,
            )
      ]
]

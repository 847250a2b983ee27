-- ===== src/Oid4vci/Table/Live.antt =====
-- Single use, expiry and bounds of an expiring table.
use ds_identity_hub_rs.Common.{
  ℕ, ◌+◌, ◌≤◌, String, ◌≡◌, refl, ap, ◌∙◌, inl, inr, true, false, ◌||◌, none, some, List, [], ◌∷◌,
  ◌++◌, arith, ◌==◌, eq_iff, eq_refl, ltb, leb, if◌then◌else◌, Bool-cases, Option-cases, is_some,
}
use ds_identity_hub_rs.Common.Assoc.{Assoc, has, get, remove, contains, len}
use ds_identity_hub_rs.Common.Assoc.Laws.{get-insert, get-remove}
use ds_identity_hub_rs.State.Evict.{evict_oldest}
use ds_identity_hub_rs.Oid4vci.Table.{ExpiringTable, insert, get_live, take}
use ds_identity_hub_rs.Common.Assoc

has-snoc :
    (k key : String) (order : List String) → has k (order ++ key ∷ []) ≡ (has k order || key == k)
has-snoc k key [] = ground arith
has-snoc k key (o ∷ os) = ground (arith, has-snoc k key os)

module _ {ℓ} {V : Type ℓ} where
  pub take_absent :
      (t : ExpiringTable V) (key : String) (now : ℕ)
      → Assoc.get key t.entries ≡ none
      → take t key now ≡ (t, none)
  unfolding take
  take_absent t key now e = rw (e, take)

  get_live_absent :
      (t : ExpiringTable V) (key : String) (now : ℕ)
      → Assoc.get key t.entries ≡ none
      → get_live t key now ≡ (t, none)
  unfolding get_live
  get_live_absent t key now e = rw (e, get_live)

  pub take_entry :
      (t : ExpiringTable V) (key : String) (now exp : ℕ) (value : V)
      → Assoc.get key t.entries ≡ some (exp, value)
      → take t key now ≡ (
        record t { entries = Assoc.remove key t.entries },
        if ltb now exp then some value else none,
      )
  unfolding take
  take_entry t key now exp value e = rw (e, take) (ground arith)

  pub get_live_entry :
      (t : ExpiringTable V) (key : String) (now exp : ℕ) (value : V)
      → Assoc.get key t.entries ≡ some (exp, value)
      → get_live t key now ≡ (
          if leb exp now
          then (record t { entries = Assoc.remove key t.entries }, none)
          else (t, some value))
  unfolding get_live
  get_live_entry t key now exp value e = rw (e, get_live)

  pub take-absent :
      (t : ExpiringTable V) (key : String) (now : ℕ)
      → Assoc.get key (take t key now).0.entries ≡ none
  take-absent t key now = elim (Option-cases (Assoc.get key t.entries)) [
    | inl e ↦ rw (take_absent t key now e) e
    | inr ((exp, value), e) ↦
        rw (take_entry t key now exp value e)
          (ground (arith, get-remove key key t.entries, eq_refl key))
  ]

  -- A key that was taken from an expiring table is found by no later take or lookup.
  pub take-single_use :
      (t : ExpiringTable V) (key : String) (now later : ℕ)
      → ((take (take t key now).0 key later).1 ≡ none)
        × ((get_live (take t key now).0 key later).1 ≡ none)
  take-single_use t key now later =
      let gone = take-absent t key now in
      (
        ap (λ r. r.1) (take_absent (take t key now).0 key later gone),
        ap (λ r. r.1) (get_live_absent (take t key now).0 key later gone),
      )

  take_same :
      (t u : ExpiringTable V) (key : String) (now : ℕ)
      → Assoc.get key t.entries ≡ Assoc.get key u.entries
      → (take t key now).1 ≡ (take u key now).1
  take_same t u key now same = elim (Option-cases (Assoc.get key u.entries)) [
    | inl e ↦ rw (take_absent t key now (same ∙ e), take_absent u key now e)
    | inr ((exp, value), e) ↦
        rw (take_entry t key now exp value (same ∙ e), take_entry u key now exp value e)
  ]

  -- A key is taken exactly as it is looked up, and taking one key leaves the others as they are.
  pub take-get_live :
      (t : ExpiringTable V) (key : String) (now : ℕ)
      → ((take t key now).1 ≡ (get_live t key now).1)
        × ((other : String)
            → ((key == other) ≡ false)
            → (take (take t key now).0 other now).1 ≡ (take t other now).1)
  take-get_live t key now = elim (Option-cases (Assoc.get key t.entries)) [
    | inl e ↦ (
      rw (take_absent t key now e, get_live_absent t key now e),
      λ other ne. rw (take_absent t key now e),
    )
    | inr ((exp, value), e) ↦ (
      rw (take_entry t key now exp value e, get_live_entry t key now exp value e) (ground arith),
      λ other ne. rw (take_entry t key now exp value e) (
          take_same (record t { entries = Assoc.remove key t.entries }) t other now
            (get-remove key other t.entries
              ∙ ap (λ b. if b then none else Assoc.get other t.entries) ne)),
    )
  ]

  -- The queue lists every key of the map.
  abbrev pub IsQueued : Assoc (ℕ × V) → List String → Type 0
  IsQueued m order = (k : String) → is_some (Assoc.get k m) ≡ true → has k order ≡ true

  abbrev pub IsTable : ExpiringTable V → Type 0
  IsTable t = IsQueued t.entries t.order × (len t.entries ≤ t.capacity)

  unqueued : (m : Assoc (ℕ × V)) → IsQueued m [] → len m ≡ 0
  unfolding Assoc.get
  unqueued [] q = refl
  unqueued ((k, v) ∷ m) q = absurd (cc (q k (ground (arith, eq_refl k))))

  evict_oldest-IsQueued :
      (capacity : ℕ) (m : Assoc (ℕ × V)) (order : List String)
      → IsQueued m order
      → IsQueued (evict_oldest capacity m order).0 (evict_oldest capacity m order).1
        × (len (evict_oldest capacity m order).0 ≤ capacity)
  unfolding evict_oldest
  evict_oldest-IsQueued capacity m [] q = (q, omega (arith, unqueued m q))
  evict_oldest-IsQueued capacity m (o ∷ os) q =
      let ih =
        evict_oldest-IsQueued capacity (Assoc.remove o m) os
          (λ k h. ground (arith, get-remove o k m, q k, eq_iff o k)) in
      elim (Bool-cases (ltb capacity (len m))) [
        | inl e ↦ rw (e, evict_oldest) ih
        | inr e ↦ rw (e, evict_oldest) (q, ground arith)
      ]

  -- An insertion into an expiring table whose queue lists all keys leaves at most as many entries
  -- as the capacity, and the queue still lists them.
  pub insert-IsTable :
      (t : ExpiringTable V) (key : String) (ttl_secs : ℕ) (value : V) (now : ℕ)
      → IsTable t
      → IsTable (insert t key ttl_secs value now)
  unfolding insert
  insert-IsTable t key ttl_secs value now h =
      evict_oldest-IsQueued t.capacity (Assoc.insert key (now + ttl_secs, value) t.entries)
        (if contains key t.entries then t.order else t.order ++ key ∷ [])
        (λ k e. ground (
          arith,
          get-insert key k (now + ttl_secs, value) t.entries,
          h.0 k,
          has-snoc k key t.order,
          eq_iff key k,
        ))

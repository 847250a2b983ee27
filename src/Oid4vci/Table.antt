-- ===== src/Oid4vci/Table.antt =====
-- `ExpiringTable` (crates/identity-hub-http/src/oid4vci.rs): a bounded map whose entries expire.
-- The clock is an argument.
pub mod Live
use ds_identity_hub_rs.Common.{
  ℕ, ◌+◌, String, Option, none, some, List, [], ◌∷◌, ◌++◌, ltb, leb, if◌then◌else◌,
}
use ds_identity_hub_rs.Common.Assoc.{Assoc, get, remove, contains, modify}
use ds_identity_hub_rs.State.Evict.{evict_oldest}
use ds_identity_hub_rs.Common.Assoc

pub record ExpiringTable {ℓ} (V : Type ℓ) : Type ℓ where
  pub entries : Assoc (ℕ × V)
  pub order : List String
  pub capacity : ℕ

module _ {ℓ} {V : Type ℓ} where
  unfoldable pub new : ℕ → ExpiringTable V
  new capacity = record { entries = []; order = []; capacity = capacity }

  unfoldable pub insert : ExpiringTable V → String → ℕ → V → ℕ → ExpiringTable V
  insert t key ttl_secs value now =
      let entries = Assoc.insert key (now + ttl_secs, value) t.entries in
      let order = if Assoc.contains key t.entries then t.order else t.order ++ key ∷ [] in
      let (kept, queue) = evict_oldest t.capacity entries order in
      record t { entries = kept; order = queue }

  -- `get_mut`: the table it leaves, and the live value.
  unfoldable pub get_live : ExpiringTable V → String → ℕ → ExpiringTable V × Option V
  get_live t key now = elim (Assoc.get key t.entries) [
    | none ↦ (t, none)
    | some (exp, value) ↦
        if leb exp now
        then (record t { entries = Assoc.remove key t.entries }, none)
        else (t, some value)
  ]

  -- A write through the reference that `get_mut` returned.
  unfoldable pub write : ExpiringTable V → String → (V → V) → ExpiringTable V
  write t key f = record t { entries = Assoc.modify key (λ (e : ℕ × V). (e.0, f e.1)) t.entries }

  unfoldable pub take : ExpiringTable V → String → ℕ → ExpiringTable V × Option V
  take t key now = elim (Assoc.get key t.entries) [
    | none ↦ (t, none)
    | some (exp, value) ↦
        let left = record t { entries = Assoc.remove key t.entries } in
        if ltb now exp then (left, some value) else (left, none)
  ]

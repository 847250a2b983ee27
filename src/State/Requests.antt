-- ===== src/State/Requests.antt =====
-- `RequestTable` (crates/identity-hub-http/src/state.rs): the bounded table of issuance processes.
pub mod Room
pub mod Retention
pub mod Pending
use ds_identity_hub_rs.Common.{
  ℕ, zero, suc, ◌+◌, String, Bool, true, false, Option, none, some, List, [], ◌∷◌, ◌++◌, map, ◌==◌,
  ltb, leb, if◌then◌else◌, length, all, filter_map, Result, ok, err,
}
use ds_identity_hub_rs.Common.Assoc.{Assoc, remove, len, values}
use ds_identity_hub_rs.Issuer.Process.{
  ProcessState, submitted, IssuanceProcess, is_terminal, state_eq,
}
use mathlib.Core.Option
use ds_identity_hub_rs.Common.Assoc

abbrev pub max_tracked_requests : ℕ
max_tracked_requests = 2048

pub data TableFull : Type 0 where
  table_full : TableFull

pub record RequestTable : Type 0 where
  pub records : Assoc IssuanceProcess
  pub order : List String
  pub capacity : ℕ

unfoldable pub new : ℕ → RequestTable
new capacity = record { records = []; order = []; capacity = capacity }

-- The test that `insert` runs on an id of the queue: its record is gone, or terminal.
unfoldable pub is_evictable : Assoc IssuanceProcess → String → Bool
is_evictable records id = elim (Assoc.get id records) [
  | none ↦ true
  | some process ↦ is_terminal process.state
]

-- `order.iter().position(p)`, then `order.remove(position)`.
unfoldable pub remove_first : (String → Bool) → List String → Option (String × List String)
remove_first p [] = none
remove_first p (id ∷ order) =
    if p id
    then some (id, order)
    else Option.map (λ (o : String × List String). (o.0, id ∷ o.1)) (remove_first p order)

-- The loop of `insert`; the flag says whether there is room at its end. Each round takes one id
-- off the queue, so that the queue's length is fuel enough: without fuel the queue is empty.
unfoldable pub make_room :
    ℕ → ℕ → Assoc IssuanceProcess → List String → Assoc IssuanceProcess × List String × Bool
unfolding remove_first is_evictable
make_room zero capacity records order = (records, order, ltb (len records) capacity)
make_room (suc fuel) capacity records order = elim (leb capacity (len records)) [
  | false ↦ (records, order, true)
  | true ↦ elim (remove_first (is_evictable records) order) [
    | none ↦ (records, order, false)
    | some (oldest, rest) ↦ make_room fuel capacity (Assoc.remove oldest records) rest
  ]
]

unfoldable pub insert :
    RequestTable → String → IssuanceProcess → RequestTable × Result (Unit {0}) TableFull
unfolding make_room
insert t id process =
    let (records, order, room) = make_room (length t.order) t.capacity t.records t.order in
    if room
    then (record t { records = Assoc.insert id process records; order = order ++ id ∷ [] }, ok tt)
    else (record t { records = records; order = order }, err table_full)

-- One step of the fold of `pending_counts`.
abbrev pub count_pending : String → ℕ × ℕ → IssuanceProcess → ℕ × ℕ
count_pending holder_id (mine, all) p =
    if state_eq p.state submitted
    then ((if p.holder_id == holder_id then mine + 1 else mine), all + 1)
    else (mine, all)

unfoldable pub pending_from : String → ℕ × ℕ → List IssuanceProcess → ℕ × ℕ
pending_from holder_id counts [] = counts
pending_from holder_id counts (p ∷ ps) =
    pending_from holder_id (count_pending holder_id counts p) ps

unfoldable pub pending_counts : RequestTable → String → ℕ × ℕ
unfolding pending_from
pending_counts t holder_id = pending_from holder_id (0, 0) (values t.records)

unfoldable pub get : RequestTable → String → Option IssuanceProcess
get t id = Assoc.get id t.records

-- A write through `get_mut(id)`.
unfoldable pub modify : RequestTable → String → (IssuanceProcess → IssuanceProcess) → RequestTable
modify t id f = record t { records = Assoc.modify id f t.records }

-- `iter()`: oldest first.
unfoldable pub iter : RequestTable → List IssuanceProcess
iter t = filter_map (λ id. Assoc.get id t.records) t.order

-- Writes through `iter_mut()`.
unfoldable pub modify_all : RequestTable → (IssuanceProcess → IssuanceProcess) → RequestTable
modify_all t f = record t { records = Assoc.modify_all f t.records }

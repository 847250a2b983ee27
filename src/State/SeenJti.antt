-- ===== src/State/SeenJti.antt =====
-- `SeenJtiCache` (crates/identity-hub-http/src/state.rs): the replay cache of `jti` claims.
pub mod Window
pub mod Replay
use ds_identity_hub_rs.Common.{ℕ, String, Bool, true, false, List, [], ◌∷◌, ◌++◌, if◌then◌else◌}
use ds_identity_hub_rs.Common.Assoc.{Assoc, contains}
use ds_identity_hub_rs.State.Evict.{evict_oldest}
use ds_identity_hub_rs.Common.Assoc

abbrev pub max_seen_jti : ℕ
max_seen_jti = 4096

pub record SeenJtiCache : Type 0 where
  pub seen : Assoc (Unit {0})
  pub order : List String
  pub capacity : ℕ

unfoldable pub new : ℕ → SeenJtiCache
new capacity = record { seen = []; order = []; capacity = capacity }

-- `HashSet::insert` answers whether the value is new. The method answers the same.
unfoldable pub insert : SeenJtiCache → String → SeenJtiCache × Bool
insert c jti =
    if Assoc.contains jti c.seen
    then (c, false)
    else let (seen, order) =
        evict_oldest c.capacity (Assoc.insert jti tt c.seen) (c.order ++ jti ∷ []) in
      (record c { seen = seen; order = order }, true)

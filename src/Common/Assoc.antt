-- ===== src/Common/Assoc.antt =====
-- `HashMap<String, V>` as an association list, and `HashSet<String>` as the map to the unit type.
-- A new key goes to the end; the iteration order of a hash map is not specified.
pub mod Laws
use Prim.Native.Nat.{ℕ}
use Prim.Native.String.{String}
use mathlib.Core.Bool.{Bool, true, false}
use mathlib.Core.Option.{Option, none, some}
use mathlib.Core.List.{List, [], ◌∷◌, map}
use text.Mathlib.Text.{◌==◌}
use ds_identity_hub_rs.Common.Tests.{if◌then◌else◌, is_some}
use ds_identity_hub_rs.Common.Lists.{length}

abbrev pub Assoc {ℓ} : Type ℓ → Type ℓ
Assoc V = List (String × V)

-- `slice.contains(&s)`.
abbrev pub has : String → List String → Bool
has j [] = false
has j (x ∷ xs) = if x == j then true else has j xs

module _ {ℓ} {V : Type ℓ} where
  unfoldable pub get : String → Assoc V → Option V
  get k [] = none
  get k ((j, v) ∷ m) = if j == k then some v else get k m

  unfoldable pub insert : String → V → Assoc V → Assoc V
  insert k v [] = (k, v) ∷ []
  insert k v ((j, w) ∷ m) = if j == k then (j, v) ∷ m else (j, w) ∷ insert k v m

  unfoldable pub remove : String → Assoc V → Assoc V
  remove k [] = []
  remove k ((j, w) ∷ m) = if j == k then remove k m else (j, w) ∷ remove k m

  abbrev pub contains : String → Assoc V → Bool
  contains k m = is_some (get k m)

  abbrev pub len : Assoc V → ℕ
  len = length

  abbrev pub keys : Assoc V → List String
  keys [] = []
  keys ((k, v) ∷ m) = k ∷ keys m

  abbrev pub values : Assoc V → List V
  values [] = []
  values ((k, v) ∷ m) = v ∷ values m

  -- A write through `get_mut(k)`; nothing where the key is missing.
  unfoldable pub modify : String → (V → V) → Assoc V → Assoc V
  modify k f [] = []
  modify k f ((j, w) ∷ m) = if j == k then (j, f w) ∷ m else (j, w) ∷ modify k f m

  -- Writes through `values_mut()`.
  unfoldable pub modify_all : (V → V) → Assoc V → Assoc V
  modify_all f [] = []
  modify_all f ((j, w) ∷ m) = (j, f w) ∷ modify_all f m

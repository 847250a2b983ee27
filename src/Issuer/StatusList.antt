-- ===== src/Issuer/StatusList.antt =====
-- `StatusList` (crates/identity-hub-http/src/issuer.rs): the StatusList2021 revocation bits and the
-- allocation of their indexes. A byte is a number below 256; `none` is a panic (an index past the
-- end of the bits).
pub mod Bits
pub mod Alloc
use ds_identity_hub_rs.Common.{
  ℕ, ◌+◌, ◌/◌, ◌%◌, ◌^◌, String, Bool, true, false, not, Option, none, some, List, [], ◌∷◌, ltb,
  eqb, if◌then◌else◌, get_elem?, set_elem, replicate,
}
use Prim.Native.Nat.{bit_and, bit_or}

abbrev pub status_list_bits : ℕ
status_list_bits = 131072

pub record StatusList : Type 0 where
  pub bits : List ℕ
  pub next_index : ℕ
  pub free : List ℕ
  pub cached_jwt : Option String

unfoldable pub default : StatusList
default = record {
  bits = replicate (status_list_bits / 8) 0;
  next_index = 0;
  free = [];
  cached_jwt = none;
}

-- `BTreeSet::insert` on the ascending list of the free indexes; `pop_first` takes its head.
unfoldable pub insert_free : ℕ → List ℕ → List ℕ
insert_free i [] = i ∷ []
insert_free i (j ∷ js) =
    let rest = insert_free i js in
    if ltb i j then i ∷ j ∷ js else if eqb i j then j ∷ js else j ∷ rest

allocate_from : StatusList → List ℕ → StatusList × Option ℕ
allocate_from l [] =
    if ltb l.next_index status_list_bits
    then (record l { next_index = l.next_index + 1 }, some l.next_index)
    else (l, none)
allocate_from l (index ∷ free) = (record l { free = free }, some index)

unfoldable pub allocate : StatusList → StatusList × Option ℕ
unfolding allocate_from
allocate l = allocate_from l l.free

-- `0x80u8 >> (index % 8)`.
abbrev pub mask : ℕ → ℕ
mask index = 0x80 / 2 ^ (index % 8)

unfoldable pub is_set : StatusList → ℕ → Option Bool
is_set l index = elim (get_elem? l.bits (index / 8)) [
  | none ↦ none
  | some byte ↦ some (not (eqb (bit_and byte (mask index)) 0))
]

unfoldable pub set : StatusList → ℕ → Option StatusList
set l index = elim (get_elem? l.bits (index / 8)) [
  | none ↦ none
  | some byte ↦
      if eqb (bit_and byte (mask index)) 0
      then some (record l {
        bits = set_elem l.bits (index / 8) (bit_or byte (mask index));
        cached_jwt = none;
      })
      else some l
]

release_unset : StatusList → ℕ → Bool → StatusList
release_unset l index revoked = if revoked then l else record l { free = insert_free index l.free }

unfoldable pub release : StatusList → ℕ → Option StatusList
unfolding release_unset is_set
release l index = elim (ltb index l.next_index) [
  | false ↦ some l
  | true ↦ elim (is_set l index) [ none ↦ none | some b ↦ some (release_unset l index b) ]
]

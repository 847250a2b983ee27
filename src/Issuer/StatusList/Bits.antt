-- ===== src/Issuer/StatusList/Bits.antt =====
-- The revocation bits: reading a bit after a bit was set.
use ds_identity_hub_rs.Common.{
  ℕ, zero, suc, ◌/◌, ◌%◌, ◌^◌, ◌<◌, ◌≡◌, refl, sym, ap, ◌∙◌, subst, inl, inr, Bool, true, false,
  not, ◌&&◌, Option, none, some, List, arith, ltb, eqb, if◌then◌else◌, ltb→lt, Bool-cases,
  Option-cases, length, all, All, get_elem?, set_elem, length-replicate, All-replicate,
  length-set_elem, All-set_elem, get_elem?-set_elem_self, get_elem?-set_elem_ne, All-get_elem?,
  get_elem?_total,
}
use Prim.Native.Nat.{bit_and, bit_or}
use native.Mathlib.Decide.{ℕ_discrete}
use ds_identity_hub_rs.Issuer.StatusList.{StatusList, status_list_bits, default, mask, set, is_set}

-- The list has its full length, and its entries are bytes.
pub record HasBytes (l : StatusList) : Type 0 where
  pub size : length l.bits ≡ status_list_bits / 8
  pub bytes : All (λ b. b < 256) l.bits

pub default-HasBytes : HasBytes default
unfolding default
default-HasBytes = record {
  size = length-replicate (status_list_bits / 8) 0;
  bytes = All-replicate (λ b. b < 256) (status_list_bits / 8) 0 (omega arith);
}

-- A small range is checked value by value.
every_upto : (ℕ → Bool) → ℕ → Bool
every_upto q zero = true
every_upto q (suc k) = every_upto q k && q k

every_upto-lt : (q : ℕ → Bool) (k i : ℕ) → i < k → every_upto q k ≡ true → q i ≡ true
unfolding every_upto
every_upto-lt q zero i small e = absurd (omega arith)
every_upto-lt q (suc k) i small e = ground (arith, every_upto-lt q k i)

abbrev reads : ℕ → ℕ → Bool
reads byte r = not (eqb (bit_and byte (0x80 / 2 ^ r)) 0)

abbrev same : Bool → Bool → Bool
same true b = b
same false b = not b

-- Of a byte `b`: setting bit `r` leaves a byte, in which bit `s` reads as set if it is `r`, and as
-- before if not.
abbrev bit_ok : ℕ → ℕ → ℕ → Bool
bit_ok b r s =
    same (reads (bit_or b (0x80 / 2 ^ r)) s) (if eqb r s then true else reads b s)
    && ltb (bit_or b (0x80 / 2 ^ r)) 256

table : every_upto (λ b. every_upto (λ r. every_upto (bit_ok b r) 8) 8) 256 ≡ true
unfolding every_upto
table = refl

bit_table : (b r s : ℕ) → b < 256 → r < 8 → s < 8 → bit_ok b r s ≡ true
bit_table b r s hb hr hs =
    let byte_row =
      every_upto-lt (λ b. every_upto (λ r. every_upto (bit_ok b r) 8) 8) 256 b hb table in
    let bit_row = every_upto-lt (λ r. every_upto (bit_ok b r) 8) 8 r hr byte_row in
    every_upto-lt (bit_ok b r) 8 s hs bit_row

same-eq : (a b : Bool) → same a b ≡ true → a ≡ b
same-eq true true h = refl
same-eq true false h = cc
same-eq false true h = cc
same-eq false false h = refl

reads_set :
    (b r s : ℕ)
    → b < 256
    → r < 8
    → s < 8
    → reads (bit_or b (0x80 / 2 ^ r)) s ≡ (if eqb r s then true else reads b s)
reads_set b r s hb hr hs = same-eq _ _ (ground (arith, bit_table b r s hb hr hs))

set_byte : (b r : ℕ) → b < 256 → r < 8 → bit_or b (0x80 / 2 ^ r) < 256
set_byte b r hb hr = ltb→lt _ 256 (ground (arith, bit_table b r 0 hb hr (omega arith)))

-- Two indexes are one where they agree on the byte and on the bit in it.
eqb-mod : (i j : ℕ) → i / 8 ≡ j / 8 → eqb (i % 8) (j % 8) ≡ eqb i j
eqb-mod i j p = ground arith

eqb-div : (i j : ℕ) → (i / 8 ≡ j / 8 → ⊥) → eqb i j ≡ false
eqb-div i j q = ground arith

read_after_set :
    (bits : List ℕ) (byte i j : ℕ)
    → All (λ b. b < 256) bits
    → get_elem? bits (i / 8) ≡ some byte
    → (k : ℕ) → get_elem? bits (j / 8) ≡ some k
    → (k' : ℕ) × (get_elem? (set_elem bits (i / 8) (bit_or byte (mask i))) (j / 8) ≡ some k')
      × (reads k' (j % 8) ≡ (if eqb i j then true else reads k (j % 8)))
read_after_set bits byte i j all e k f = elim (ℕ_discrete (i / 8) (j / 8)) [
  | yes p ↦
      let one : some byte ≡ some k = sym e ∙ ap (get_elem? bits) p ∙ f in
      let same_byte : byte ≡ k = cc in
      (
        bit_or byte (mask i),
        ap (get_elem? (set_elem bits (i / 8) (bit_or byte (mask i)))) (sym p)
            ∙ get_elem?-set_elem_self bits (i / 8) (bit_or byte (mask i)) byte e,
        reads_set byte (i % 8) (j % 8) (All-get_elem? (λ b. b < 256) bits (i / 8) byte all e)
              (omega arith) (omega arith)
            ∙ (λ t. if (eqb-mod i j p t) then true else reads (same_byte t) (j % 8)),
      )
  | no q ↦ (
    k,
    get_elem?-set_elem_ne bits (i / 8) (j / 8) (bit_or byte (mask i)) q ∙ f,
    rw (eqb-div i j q),
  )
]

already_set :
    (bits : List ℕ) (byte i j k : ℕ)
    → get_elem? bits (i / 8) ≡ some byte
    → get_elem? bits (j / 8) ≡ some k
    → eqb (bit_and byte (mask i)) 0 ≡ false
    → reads k (j % 8) ≡ (if eqb i j then true else reads k (j % 8))
already_set bits byte i j k e f was_set = elim (ℕ_discrete i j) [
  | yes p ↦
      let one : some k ≡ some byte = sym f ∙ ap (λ n. get_elem? bits (n / 8)) (sym p) ∙ e in
      let same_byte : k ≡ byte = cc in
      let here : reads k (j % 8) ≡ true =
        (λ t. reads (same_byte t) (sym p t % 8)) ∙ ap not was_set in
      rw here (ground arith)
  | no q ↦ let apart : eqb i j ≡ false = ground arith in rw apart
]

byte_at :
    (l : StatusList) (i : ℕ)
    → HasBytes l
    → i < status_list_bits
    → (byte : ℕ) × (get_elem? l.bits (i / 8) ≡ some byte)
byte_at l i w h = get_elem?_total l.bits (i / 8) (omega (arith, w.size))

-- On a status list of full size every index reads, and setting one bit makes it read as set and
-- every other bit as before.
pub is_set-set :
    (l : StatusList) (i j : ℕ)
    → HasBytes l
    → i < status_list_bits
    → j < status_list_bits
    → (l' : StatusList) × (b : Bool) × (set l i ≡ some l')
      × (is_set l j ≡ some b)
      × (is_set l' j ≡ some (if eqb i j then true else b))
unfolding set is_set
is_set-set l i j w hi hj =
    let (byte, e) = byte_at l i w hi in
    let (k, f) = byte_at l j w hj in
    elim (Bool-cases (eqb (bit_and byte (mask i)) 0)) [
      | inl unset ↦
          let (k', f', r) = read_after_set l.bits byte i j w.bytes e k f in
          (
            record l { bits = set_elem l.bits (i / 8) (bit_or byte (mask i)); cached_jwt = none },
            reads k (j % 8),
            rw (e, set) (rw (unset)),
            rw (f, is_set),
            rw (f', is_set) (ap some r),
          )
      | inr was_set ↦ (
        l,
        reads k (j % 8),
        rw (e, set) (rw (was_set)),
        rw (f, is_set),
        rw (f, is_set) (ap some (already_set l.bits byte i j k e f was_set)),
      )
    ]

unwrap : {a b : StatusList} → ◌≡◌ {A = Option StatusList} (some a) (some b) → a ≡ b
unwrap e = cc

pub set-HasBytes : (l l' : StatusList) (i : ℕ) → HasBytes l → set l i ≡ some l' → HasBytes l'
unfolding set
set-HasBytes l l' i w e = elim (Option-cases (get_elem? l.bits (i / 8))) [
  | inl out ↦ cc (rw (out, set) at e)
  | inr (byte, at_i) ↦ elim (Bool-cases (eqb (bit_and byte (mask i)) 0)) [
    | inl unset ↦
        let new : some (record l {
          bits = set_elem l.bits (i / 8) (bit_or byte (mask i));
          cached_jwt = none;
        })
            ≡ some l' =
          sym (rw (at_i, set) (rw (unset))) ∙ e in
        subst HasBytes (unwrap new) (record {
          size = length-set_elem l.bits (i / 8) (bit_or byte (mask i)) ∙ w.size;
          bytes =
              All-set_elem (λ b. b < 256) l.bits (i / 8) (bit_or byte (mask i))
                (set_byte byte (i % 8)
                  (All-get_elem? (λ b. b < 256) l.bits (i / 8) byte w.bytes at_i) (omega arith))
                w.bytes;
        })
    | inr was_set ↦
        let same : some l ≡ some l' = sym (rw (at_i, set) (rw (was_set))) ∙ e in
        subst HasBytes (unwrap same) w
  ]
]

-- ===== src/Common/Assoc/Laws.antt =====
-- Lookup after insertion and removal, and the sizes.
use ds_identity_hub_rs.Common.Tests.{if◌then◌else◌, is_some}
use ds_identity_hub_rs.Common.Lists.{length}
use ds_identity_hub_rs.Common.Assoc.{Assoc, get, insert, remove, len, keys}
use Prim.Native.Nat.{suc, ◌≤◌}
use Prim.Native.String.{String}
use mathlib.Core.Option
use ds_identity_hub_rs.Common.Assoc.{modify, modify_all, contains, has}
use mathlib.Core.Bool.{false}
use mathlib.Core.Path.{sym, ◌∙◌, subst, ◌≡◌, refl, ap}
use mathlib.Core.Option.{Option, none, some}
use mathlib.Core.List.{[], ◌∷◌, ◌++◌}
use native.Mathlib.Omega.{arith}
use text.Mathlib.Text.{◌==◌}
use text.Mathlib.TextEquality.{eq_iff}

module _ {ℓ} {V : Type ℓ} where
  pub get-insert :
      (k j : String) (v : V) (m : Assoc V)
      → get j (insert k v m) ≡ (if k == j then some v else get j m)
  unfolding get insert
  get-insert k j v [] = refl
  get-insert k j v ((i, w) ∷ m) =
      ground (arith, eq_iff k j, eq_iff i k, eq_iff i j, get-insert k j v m)

  pub get-remove :
      (k j : String) (m : Assoc V) → get j (remove k m) ≡ (if k == j then none else get j m)
  unfolding get remove
  get-remove k j [] = ground arith
  get-remove k j ((i, w) ∷ m) = ground (arith, eq_iff k j, eq_iff i k, eq_iff i j, get-remove k j m)

  -- No key stands twice.
  abbrev pub IsDistinct : Assoc V → Type ℓ
  IsDistinct [] = Unit
  IsDistinct ((k, v) ∷ m) = (get k m ≡ none) × IsDistinct m

  pub insert_fresh :
      (k : String) (v : V) (m : Assoc V) → get k m ≡ none → insert k v m ≡ m ++ (k, v) ∷ []
  unfolding get insert
  insert_fresh k v [] h = refl
  insert_fresh k v ((j, w) ∷ m) h = ground (arith, insert_fresh k v m)

  pub remove_fresh : (k : String) (m : Assoc V) → get k m ≡ none → remove k m ≡ m
  unfolding get remove
  remove_fresh k [] h = refl
  remove_fresh k ((j, w) ∷ m) h = ground (arith, remove_fresh k m)

  pub insert-IsDistinct :
      (k : String) (v : V) (m : Assoc V) → IsDistinct m → IsDistinct (insert k v m)
  unfolding insert get
  insert-IsDistinct k v [] d = (refl, tt)
  insert-IsDistinct k v ((j, w) ∷ m) d =
      ground (arith, eq_iff j k, eq_iff k j, insert-IsDistinct k v m, get-insert k j v m)

  pub remove-IsDistinct : (k : String) (m : Assoc V) → IsDistinct m → IsDistinct (remove k m)
  unfolding remove
  remove-IsDistinct k [] d = d
  remove-IsDistinct k ((j, w) ∷ m) d = ground (arith, remove-IsDistinct k m, get-remove k j m)

  pub len-insert :
      (k : String) (v : V) (m : Assoc V)
      → len (insert k v m) ≡ (if is_some (get k m) then len m else suc (len m))
  unfolding insert get
  len-insert k v [] = refl
  len-insert k v ((j, w) ∷ m) = ground (arith, len-insert k v m)

  pub len-remove :
      (k : String) (m : Assoc V)
      → IsDistinct m
      → (if is_some (get k m) then suc (len (remove k m)) else len (remove k m)) ≡ len m
  unfolding remove get
  len-remove k [] d = refl
  len-remove k ((j, w) ∷ m) d = ground (arith, eq_iff j k, len-remove k m d.1, remove_fresh k m)

  pub len-remove-le : (k : String) (m : Assoc V) → len (remove k m) ≤ len m
  unfolding remove
  len-remove-le k [] = omega arith
  len-remove-le k ((j, w) ∷ m) = ground (arith, len-remove-le k m)

  pub keys-append : (m n : Assoc V) → keys (m ++ n) ≡ keys m ++ keys n
  keys-append [] n = refl
  keys-append ((k, v) ∷ m) n = ap (◌∷◌ k) (keys-append m n)

  pub length-keys : (m : Assoc V) → length (keys m) ≡ len m
  length-keys [] = refl
  length-keys ((k, v) ∷ m) = ap suc (length-keys m)

  pub get-modify :
      (k j : String) (f : V → V) (m : Assoc V)
      → get j (modify k f m) ≡ (if k == j then Option.map f (get j m) else get j m)
  unfolding get modify
  get-modify k j f [] = ground arith
  get-modify k j f ((i, w) ∷ m) =
      ground (arith, eq_iff k j, eq_iff i k, eq_iff i j, get-modify k j f m)

  pub keys-modify : (k : String) (f : V → V) (m : Assoc V) → keys (modify k f m) ≡ keys m
  unfolding modify
  keys-modify k f [] = refl
  keys-modify k f ((i, w) ∷ m) = ground (arith, keys-modify k f m)

  pub get-modify_all :
      (j : String) (f : V → V) (m : Assoc V) → get j (modify_all f m) ≡ Option.map f (get j m)
  unfolding get modify_all
  get-modify_all j f [] = refl
  get-modify_all j f ((i, w) ∷ m) = ground (arith, get-modify_all j f m)

  pub keys-modify_all : (f : V → V) (m : Assoc V) → keys (modify_all f m) ≡ keys m
  unfolding modify_all
  keys-modify_all f [] = refl
  keys-modify_all f ((i, w) ∷ m) = ap (◌∷◌ i) (keys-modify_all f m)

  pub contains-keys : (k : String) (m : Assoc V) → contains k m ≡ has k (keys m)
  unfolding get
  contains-keys k [] = refl
  contains-keys k ((j, v) ∷ m) = ground (arith, contains-keys k m)

  get-eq-none : (k : String) (m : Assoc V) → has k (keys m) ≡ false → get k m ≡ none
  get-eq-none k m h = ground (arith, contains-keys k m)

  pub keys-IsDistinct : (m n : Assoc V) → keys m ≡ keys n → IsDistinct m → IsDistinct n
  keys-IsDistinct [] [] e d = tt
  keys-IsDistinct [] (q ∷ n) e d = cc
  keys-IsDistinct (p ∷ m) [] e d = cc
  keys-IsDistinct ((i, v) ∷ m) ((j, w) ∷ n) e d =
      let head : i ≡ j = cc in
      let rest : keys m ≡ keys n = cc in
      let missing : has i (keys m) ≡ false = sym (contains-keys i m) ∙ ap is_some d.0 in
      let fresh : has j (keys n) ≡ false =
        subst (λ k. has k (keys n) ≡ false) head (ap (has i) (sym rest) ∙ missing) in
      (get-eq-none j n fresh, keys-IsDistinct m n rest d.1)

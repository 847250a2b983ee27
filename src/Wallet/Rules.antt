-- ===== src/Wallet/Rules.antt =====
-- Rules for calls over the network (crates/identity-hub-http/src/oid4vci.rs): what a call keeps of
-- the network's state, and what holds of the value that it answers.
use ds_identity_hub_rs.Common.{◌≡◌, subst, inl, inr, Result, Result-cases, ok-injective, ok, err}
use ds_identity_hub_rs.Wallet.{WalletError}
use ds_identity_hub_rs.Wallet.Network.{Call, ◌>>=◌, ◌>>◌, lift, read}

-- From a state where `I` holds, the call ends in one, and a value that it answers has `P`.
unfoldable pub Triple : {W : Type 0} {A : Type 0} → (W → Type 0) → (A → Type 0) → Call W A → Type 0
Triple {W} {A} I P m = (w : W) → I w → I ((m w).0) × ((a : A) → (m w).1 ≡ ok a → P a)

module _ {W : Type 0} (I : W → Type 0) where
  pub Triple-lift :
      {A : Type 0} (P : A → Type 0) (r : Result A WalletError)
      → ((a : A) → r ≡ ok a → P a)
      → Triple I P (lift r)
  unfolding Triple
  Triple-lift P r h w i = (i, h)

  pub Triple-pure : {A : Type 0} (P : A → Type 0) (a : A) → P a → Triple I P (lift (ok a))
  unfolding Triple
  Triple-pure P a p w i = (i, λ b h. subst P (ok-injective h) p)

  pub Triple-fail : {A : Type 0} (P : A → Type 0) (e : WalletError) → Triple I P (lift (err e))
  unfolding Triple
  Triple-fail P e w i = (i, λ a h. cc)

  pub Triple-bind :
      {A : Type 0} {B : Type 0} (P : A → Type 0) (Q : B → Type 0) (m : Call W A) (f : A → Call W B)
      → Triple I P m
      → ((a : A) → P a → Triple I Q (f a))
      → Triple I Q (m >>= f)
  unfolding ◌>>=◌ Triple
  Triple-bind P Q m f first next w i = elim (Result-cases ((m w).1)) [
    | inl (a, e) ↦
        let (kept, found) = first w i in
        let (kept', found') = next a (found a e) ((m w).0) kept in rw (e, ◌>>=◌) (kept', found')
    | inr (e', e) ↦ rw (e, ◌>>=◌) ((first w i).0, λ b h. cc)
  ]

  pub Triple-then :
      {B : Type 0} (P : Type 0) (Q : B → Type 0) (m : Call W (Unit {0})) (k : Call W B)
      → Triple I (λ _. P) m
      → (P → Triple I Q k)
      → Triple I Q (m >> k)
  unfolding ◌>>◌
  Triple-then P Q m k first next = Triple-bind (λ _. P) Q m (λ _. k) first (λ _. next)

  pub Triple-read :
      {A : Type 0} (m : W → W × A)
      → ((w : W) → I w → I ((m w).0))
      → Triple I (λ (_ : A). Unit {0}) (read m)
  unfolding Triple
  Triple-read m keep w i = (keep w i, λ a h. tt)

  -- The two facts of a triple about one run.
  pub Triple-keeps :
      {A : Type 0} (P : A → Type 0) (m : Call W A) → Triple I P m → (w : W) → I w → I ((m w).0)
  unfolding Triple
  Triple-keeps P m t w i = (t w i).0

  pub Triple-answers :
      {A : Type 0} (P : A → Type 0) (m : Call W A)
      → Triple I P m
      → (w : W) → I w
      → (a : A) → (m w).1 ≡ ok a
      → P a
  unfolding Triple
  Triple-answers P m t w i = (t w i).1

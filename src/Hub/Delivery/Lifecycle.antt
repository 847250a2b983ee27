-- ===== src/Hub/Delivery/Lifecycle.antt =====
-- What no order of decisions and deliveries breaks.
use ds_identity_hub_rs.Common.{
  ℕ, String, ◌≡◌, refl, sym, ap, ◌∙◌, subst, ◌⊎◌, inl, inr, true, false, some, List, ◌∷◌, arith,
  ◌==◌, eq_iff, Bool-cases, some-injective, Result,
}
use ds_identity_hub_rs.Common.Assoc.{has}
use ds_identity_hub_rs.Hub.Delivery.Runs.{
  Move, decides, begins, declines, ends, Run, done, then_moves, IsSound, drop_id, mapped, held_all,
  held_same, held_other, claimed, declined, has-drop_same, has-drop_other,
}
use ds_identity_hub_rs.Hub.Admin.{decided}
use ds_identity_hub_rs.Hub.Admin.Decisions.{
  IsDecision, IsConsistent, decided-Step, Step-IsConsistent, decided-final, claims, finishes,
}
use ds_identity_hub_rs.Hub.Delivery.{started, finish_process}
use ds_identity_hub_rs.Issuer.Process.{
  ProcessState, state_eq, is_terminal, is_active, IssuanceProcess,
}
use ds_identity_hub_rs.Issuer.Process
use ds_identity_hub_rs.Issuer.Holders.{HolderStatus}
use ds_identity_hub_rs.Issuer.Issued.{IssuedCredential}
use ds_identity_hub_rs.State.Requests
use ds_identity_hub_rs.State.Requests.{RequestTable}
use mathlib.Core.Option

-- Delivered, rejected or failed.
abbrev pub IsFinal : IssuanceProcess → Type 0
IsFinal p =
    (p.state ≡ Process.delivered) ⊎ (p.state ≡ Process.rejected) ⊎ (p.state ≡ Process.errored)

final_terminal : (p : IssuanceProcess) → IsFinal p → is_terminal p.state ≡ true
unfolding is_terminal is_active
final_terminal p (inl e) = rw e refl
final_terminal p (inr (inl e)) = rw e refl
final_terminal p (inr (inr e)) = rw e refl

approved-not_final : (p : IssuanceProcess) → p.state ≡ Process.approved → IsFinal p → ⊥
approved-not_final p a (inl e) = cc
approved-not_final p a (inr (inl e)) = cc
approved-not_final p a (inr (inr e)) = cc

approved-not_waiting :
    (p : IssuanceProcess) → p.state ≡ Process.approved → state_eq p.state Process.submitted ≡ false
approved-not_waiting p e = rw e refl

-- What is known of a process under `id` with these deliveries running.
abbrev IsSoundAt : String → List String → IssuanceProcess → Type 0
IsSoundAt id running p =
    IsConsistent p
    × (has id running ≡ true → (p.state ≡ Process.approved) × (p.delivery_started ≡ true))

decided-IsSoundAt :
    (id holder_id : String) (running : List String) (s : HolderStatus) (next : ProcessState)
    (now : ℕ) (p : IssuanceProcess)
    → IsDecision s next
    → IsSoundAt id running p
    → IsSoundAt id running (decided holder_id next now p)
decided-IsSoundAt id holder_id running s next now p d (consistent, held) = (
  Step-IsConsistent p _ (decided-Step holder_id next now s p d) consistent,
  λ m.
      let (approved, claimed_) = held m in
      subst (λ (q : IssuanceProcess). (q.state ≡ Process.approved) × (q.delivery_started ≡ true))
        (sym ((decided-final holder_id next now p).2 claimed_ (approved-not_waiting p approved)))
        (approved, claimed_),
)

begun-IsSound :
    (t : RequestTable) (running : List String) (k : String) (c : IssuanceProcess)
    → Requests.get t k ≡ some c
    → c.state ≡ Process.approved
    → IsSound (t, running)
    → IsSound (Requests.modify t k started, k ∷ running)
begun-IsSound t running k c e approved sound id q h = elim (Bool-cases (k == id)) [
  | inl same ↦
      let k_is : k ≡ id = (eq_iff k id).0 same in
      let (p, f, g) = mapped started (Requests.get t id) (
        sym (held_same t started id)
        ∙ subst (λ j. Requests.get (Requests.modify t j started) id ≡ some q) k_is h) in
      let p_is : c ≡ p = some-injective (sym e ∙ ap (Requests.get t) k_is ∙ f) in
      let state : p.state ≡ Process.approved =
        subst (λ (r : IssuanceProcess). r.state ≡ Process.approved) p_is approved in
      subst (IsSoundAt id (k ∷ running)) g
        (Step-IsConsistent p (started p) (claims p state) ((sound id p f).0), λ m. (state, refl))
  | inr other ↦
      let (consistent, held) = sound id q (sym (held_other t started k id other) ∙ h) in
      (consistent, λ m. held (ground (arith, m, other)))
]

ended-IsSound :
    (t : RequestTable) (running : List String) (k : String)
    (outcome : Result (List IssuedCredential) String) (now : ℕ)
    → has k running ≡ true
    → IsSound (t, running)
    → IsSound (Requests.modify t k (finish_process outcome now), drop_id k running)
ended-IsSound t running k outcome now m sound id q h = elim (Bool-cases (k == id)) [
  | inl same ↦
      let k_is : k ≡ id = (eq_iff k id).0 same in
      let f = finish_process outcome now in
      let (p, e, g) = mapped f (Requests.get t id) (
        sym (held_same t f id)
        ∙ subst (λ j. Requests.get (Requests.modify t j f) id ≡ some q) k_is h) in
      let (consistent, held) = sound id p e in
      let (approved, claimed_) = held (subst (λ j. has j running ≡ true) k_is m) in
      (
        subst IsConsistent g
            (Step-IsConsistent p (f p) (finishes p outcome now approved claimed_) consistent),
        λ n. absurd (
            ground (
              arith,
              n,
              subst (λ j. has j (drop_id k running) ≡ false) k_is (has-drop_same k running),
            )),
      )
  | inr other ↦
      let (consistent, held) =
        sound id q (sym (held_other t (finish_process outcome now) k id other) ∙ h) in
      (consistent, λ n. held (sym (has-drop_other k id running other) ∙ n))
]

Move-IsSound : (s u : RequestTable × List String) → Move s u → IsSound s → IsSound u
Move-IsSound _ _ (decides t running holder_id h next now d) sound = λ id q e.
    let (p, f, g) =
      mapped _ (Requests.get t id) (sym (held_all t (decided holder_id next now) id) ∙ e) in
    subst (IsSoundAt id running) g
      (decided-IsSoundAt id holder_id running h next now p d (sound id p f))
Move-IsSound _ _ (begins t t' running k c idle h) sound =
    let (p, e, approved, same) = claimed t t' k c h in
    subst (λ v. IsSound (v, k ∷ running)) same (begun-IsSound t running k p e approved sound)
Move-IsSound _ _ (declines t t' running k h) sound =
    subst (λ v. IsSound (v, running)) (declined t t' k h) sound
Move-IsSound _ _ (ends t running k outcome now m) sound =
    ended-IsSound t running k outcome now m sound

-- In every order of the operator's decisions and of the beginnings and ends of deliveries, where
-- no second delivery of a process begins while one runs, a table stays sound: a process whose
-- delivery runs is approved and claimed, only a claimed process is delivered or fails, and a
-- waiting or rejected one was never claimed.
pub Run-IsSound : (s u : RequestTable × List String) → Run s u → IsSound s → IsSound u
Run-IsSound s _ (done _) sound = sound
Run-IsSound s v (then_moves _ u _ m r) sound = Run-IsSound u v r (Move-IsSound s u m sound)

Move-final :
    (s u : RequestTable × List String) (id : String) (p : IssuanceProcess)
    → Move s u
    → IsSound s
    → Requests.get (s.0) id ≡ some p
    → IsFinal p
    → Requests.get (u.0) id ≡ some p
Move-final _ _ id p (decides t running holder_id h next now d) sound e final =
    held_all t (decided holder_id next now) id
    ∙ ap (Option.map (decided holder_id next now)) e
    ∙ ap some ((decided-final holder_id next now p).0 (final_terminal p final))
Move-final _ _ id p (begins t t' running k c idle h) sound e final =
    let (q, f, approved, same) = claimed t t' k c h in
    elim (Bool-cases (k == id)) [
      | inl k_id ↦
          let p_is : q ≡ p =
            some-injective (sym f ∙ ap (Requests.get t) ((eq_iff k id).0 k_id) ∙ e) in
          absurd (
            approved-not_final p
              (subst (λ (r : IssuanceProcess). r.state ≡ Process.approved) p_is approved) final)
      | inr other ↦
          subst (λ v. Requests.get v id ≡ some p) same (held_other t started k id other ∙ e)
    ]
Move-final _ _ id p (declines t t' running k h) sound e final =
    subst (λ v. Requests.get v id ≡ some p) (declined t t' k h) e
Move-final _ _ id p (ends t running k outcome now m) sound e final = elim (Bool-cases (k == id)) [
  | inl k_id ↦
      let running_id = subst (λ j. has j running ≡ true) ((eq_iff k id).0 k_id) m in
      absurd (approved-not_final p ((sound id p e).1 running_id).0 final)
  | inr other ↦ held_other t (finish_process outcome now) k id other ∙ e
]

-- From a sound table, no order of the operator's decisions and of the beginnings and ends of
-- deliveries, where no second delivery of a process begins while one runs, changes a process that
-- is delivered, rejected or failed.
pub Run-final :
    (s u : RequestTable × List String) (id : String) (p : IssuanceProcess)
    → Run s u
    → IsSound s
    → Requests.get (s.0) id ≡ some p
    → IsFinal p
    → Requests.get (u.0) id ≡ some p
Run-final s _ id p (done _) sound e final = e
Run-final s v id p (then_moves _ u _ m r) sound e final =
    Run-final u v id p r (Move-IsSound s u m sound) (Move-final s u id p m sound e final) final

-- ===== src/Tests/Lifecycles.antt =====
-- A table with a waiting, an approved and a rejected process, and what happens to it.
use ds_identity_hub_rs.Common.{
  String, ◌≡◌, refl, subst, ◌⊎◌, inl, inr, false, some, [], ◌∷◌, arith, ◌==◌, Bool-cases,
  some-injective, ok,
}
use ds_identity_hub_rs.Common.Assoc.{Assoc, get, modify}
use ds_identity_hub_rs.Tests.{process}
use ds_identity_hub_rs.Hub.Delivery.{claim, started, finish_process}
use ds_identity_hub_rs.Hub.Delivery.Runs.{Run, done, then_moves, begins, ends, IsSound, drop_id}
use ds_identity_hub_rs.Hub.Delivery.Lifecycle.{Run-IsSound, Run-final}
use ds_identity_hub_rs.Hub.Admin.Decisions.{IsConsistent}
use ds_identity_hub_rs.Issuer.Process
use ds_identity_hub_rs.Issuer.Process.{IssuanceProcess}
use ds_identity_hub_rs.Common.Assoc
use ds_identity_hub_rs.State.Requests
use ds_identity_hub_rs.State.Requests.{RequestTable}

abbrev mixed : RequestTable
mixed = record {
  records =
      ("p1", process "p1" Process.submitted)
      ∷ ("p2", process "p2" Process.approved)
      ∷ ("p4", process "p4" Process.rejected)
      ∷ [];
  order = "p1" ∷ "p2" ∷ "p4" ∷ [];
  capacity = 4;
}

abbrev IsQuiet : IssuanceProcess → Type 0
IsQuiet p =
    (p.delivery_started ≡ false)
    × ((p.state ≡ Process.submitted) ⊎ (p.state ≡ Process.approved) ⊎ (p.state ≡ Process.rejected))

quiet-IsConsistent : (p : IssuanceProcess) → IsQuiet p → IsConsistent p
quiet-IsConsistent p (idle, inl e) = record {
  waits = λ z. idle;
  delivers = λ z. cc;
  fails = λ z. cc;
  rejects = λ z. idle;
}
quiet-IsConsistent p (idle, inr (inl e)) = record {
  waits = λ z. idle;
  delivers = λ z. cc;
  fails = λ z. cc;
  rejects = λ z. idle;
}
quiet-IsConsistent p (idle, inr (inr e)) = record {
  waits = λ z. idle;
  delivers = λ z. cc;
  fails = λ z. cc;
  rejects = λ z. idle;
}

mixed-IsQuiet : (id : String) (p : IssuanceProcess) → Requests.get mixed id ≡ some p → IsQuiet p
unfolding Requests.get Assoc.get
mixed-IsQuiet id p e = elim (Bool-cases ("p1" == id)) [
  | inl f ↦ subst IsQuiet (some-injective (rw f at e)) (refl, inl refl)
  | inr f ↦ elim (Bool-cases ("p2" == id)) [
    | inl g ↦ subst IsQuiet (some-injective (rw (f, g) at e)) (refl, inr (inl refl))
    | inr g ↦ elim (Bool-cases ("p4" == id)) [
      | inl h ↦ subst IsQuiet (some-injective (rw (f, g, h) at e)) (refl, inr (inr refl))
      | inr h ↦ absurd (ground (arith, rw (f, g, h) at e))
    ]
  ]
]

mixed-IsSound : IsSound (mixed, [])
mixed-IsSound id p e = (quiet-IsConsistent p (mixed-IsQuiet id p e), λ m. cc)

abbrev begun : RequestTable
begun = Requests.modify mixed "p2" started

p2_claimed : claim mixed "p2" ≡ (begun, some (started (process "p2" Process.approved)))
unfolding claim Requests.get Assoc.get
p2_claimed = refl

abbrev delivered : RequestTable
delivered = Requests.modify begun "p2" (finish_process (ok []) 9)

delivery : Run (mixed, []) (delivered, drop_id "p2" ("p2" ∷ []))
delivery =
    then_moves (mixed, []) (begun, "p2" ∷ []) (delivered, drop_id "p2" ("p2" ∷ []))
      (begins mixed begun [] "p2" (started (process "p2" Process.approved)) refl p2_claimed)
      (then_moves (begun, "p2" ∷ []) (delivered, drop_id "p2" ("p2" ∷ []))
        (delivered, drop_id "p2" ("p2" ∷ [])) (ends begun ("p2" ∷ []) "p2" (ok []) 9 refl)
        (done (delivered, drop_id "p2" ("p2" ∷ []))))

Run-IsSound_example : IsSound (delivered, drop_id "p2" ("p2" ∷ []))
Run-IsSound_example =
    Run-IsSound (mixed, []) (delivered, drop_id "p2" ("p2" ∷ [])) delivery mixed-IsSound

p4_held : Requests.get mixed "p4" ≡ some (process "p4" Process.rejected)
unfolding Requests.get Assoc.get
p4_held = refl

Run-final_example : Requests.get delivered "p4" ≡ some (process "p4" Process.rejected)
Run-final_example =
    Run-final (mixed, []) (delivered, drop_id "p2" ("p2" ∷ [])) "p4" (process "p4" Process.rejected)
      delivery mixed-IsSound p4_held (inr (inl refl))

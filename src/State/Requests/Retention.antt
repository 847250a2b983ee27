-- ===== src/State/Requests/Retention.antt =====
-- What `RequestTable::insert` keeps, evicts and refuses.
use ds_identity_hub_rs.Common.{
  String, ◌≡◌, refl, ap, ◌∙◌, ◌↔◌, inl, inr, true, false, none, some, List, [], ◌∷◌, ◌++◌, arith,
  eq_iff, eq_refl, Option-cases, ok, err,
}
use ds_identity_hub_rs.Common.Assoc.{Assoc, keys}
use ds_identity_hub_rs.Common.Assoc.Laws.{
  get-insert, insert_fresh, insert-IsDistinct, len-insert, keys-append,
}
use ds_identity_hub_rs.Issuer.Process.{IssuanceProcess, is_active}
use ds_identity_hub_rs.State.Requests.{RequestTable, table_full, insert, get}
use ds_identity_hub_rs.State.Requests.Room.{IsTracked, Cleared, IsFull, loop_of, loop_cases}
use ds_identity_hub_rs.Common.Assoc

module _ (t : RequestTable) (id : String) (process : IssuanceProcess) where
  placed :
      (m : Assoc IssuanceProcess) (order : List String)
      → loop_of t ≡ (m, order, true)
      → insert t id process
        ≡ (record t { records = Assoc.insert id process m; order = order ++ id ∷ [] }, ok tt)
  unfolding insert
  placed m order e = rw e

  refused : loop_of t ≡ (t.records, t.order, false) → insert t id process ≡ (t, err table_full)
  unfolding insert
  refused e = rw e

  Cleared-fresh :
      (m : Assoc IssuanceProcess) (order : List String)
      → Cleared t m order
      → get t id ≡ none
      → Assoc.get id m ≡ none
  unfolding get
  Cleared-fresh m order c fresh = elim (Option-cases (Assoc.get id m)) [
    | inl e ↦ e
    | inr (p, e) ↦ cc (c.old id p e, fresh)
  ]

  -- Inserting under a new id keeps the table well-formed: its queue lists the ids of its records
  -- in order without repeats, and the capacity is not exceeded.
  pub insert-IsTracked : IsTracked t → get t id ≡ none → IsTracked (insert t id process).0
  insert-IsTracked v fresh = elim (loop_cases v) [
    | inl (m, order, e, c) ↦
        let new_id = Cleared-fresh m order c fresh in
        rw (placed m order e) (record {
          same =
              ap keys (insert_fresh id process m new_id)
              ∙ keys-append m ((id, process) ∷ [])
              ∙ ap (λ xs. xs ++ id ∷ []) c.same;
          distinct = insert-IsDistinct id process m c.distinct;
          bounded = ground (arith, len-insert id process m, c.room);
        })
    | inr (e, full) ↦ rw (refused e) v
  ]

  -- Inserting a new process into a well-formed table keeps every active process unchanged.
  pub insert_keeps_active :
      (k : String) (p : IssuanceProcess)
      → IsTracked t
      → get t id ≡ none
      → get t k ≡ some p
      → is_active p.state ≡ true
      → get (insert t id process).0 k ≡ some p
  unfolding get
  insert_keeps_active k p v fresh held active = elim (loop_cases v) [
    | inl (m, order, e, c) ↦
        rw (placed m order e)
          (ground (arith, get-insert id k process m, eq_iff id k, c.kept k p held active))
    | inr (e, full) ↦ rw (refused e) held
  ]

  not-IsFull : (m : Assoc IssuanceProcess) (order : List String) → Cleared t m order → ¬ IsFull t
  not-IsFull m order c (h, busy) = elim c.spare [
    | inl room ↦ omega arith
    | inr (k, p, e, done) ↦ cc (busy k p e, done)
  ]

  -- On a well-formed table, a new process is refused exactly when the table is full of active
  -- processes, a refusal changes nothing, and an accepted process can be looked up.
  pub insert-IsFull_iff :
      IsTracked t
      → (((insert t id process).1 ≡ err table_full) ↔ IsFull t)
        × (((insert t id process).1 ≡ err table_full) → (insert t id process).0 ≡ t)
        × (((insert t id process).1 ≡ ok tt) → get (insert t id process).0 id ≡ some process)
  insert-IsFull_iff v = elim (loop_cases v) [
    | inl (m, order, e, c) ↦ rw (placed m order e) (
      (λ h. cc, λ f. absurd (not-IsFull m order c f)),
      λ h. cc,
      λ _. unfold get in ground (arith, get-insert id id process m, eq_refl id),
    )
    | inr (e, full) ↦ rw (refused e) ((λ _. full, λ _. refl), λ _. refl, λ h. cc)
  ]

-- ===== src/Issuer/Holders/Registry.antt =====
-- The registry's invariant: each holder is found by its DID, and no two have one DID.
use ds_identity_hub_rs.Common.{
  ◌≤◌, ◌<◌, String, ◌≡◌, refl, sym, ap, ◌∙◌, ◌⊎◌, inl, inr, Bool, true, false, none, some, [], ◌∷◌,
  ◌++◌, arith, ◌==◌, eq_iff, eq_refl, leb, leb_false→lt, Bool-cases, Option-cases, Result, ok, err,
}
use ds_identity_hub_rs.Common.Assoc.{Assoc, len}
use ds_identity_hub_rs.Common.Assoc.Laws.{get-insert, len-insert}
use ds_identity_hub_rs.Issuer.Holders.{
  Holder, HolderRegistry, max_holders, holder_key, by_key, by_did, get, insert, default,
}
use ds_identity_hub_rs.Common.Assoc

-- Every index entry names a holder with that key, and every holder is indexed under its key.
pub record IsRegistry (r : HolderRegistry) : Type 0 where
  pub indexed :
      (id : String) (h : Holder)
      → Assoc.get id r.holders ≡ some h
      → Assoc.get (holder_key h.did) r.by_did ≡ some id
  pub named :
      (key id : String)
      → Assoc.get key r.by_did ≡ some id
      → (h : Holder) × (Assoc.get id r.holders ≡ some h) × (holder_key h.did ≡ key)
  pub bounded : len r.holders ≤ max_holders

pub default-IsRegistry : IsRegistry default
unfolding default Assoc.get
default-IsRegistry = record {
  indexed = λ id h e. cc;
  named = λ key id e. cc;
  bounded = omega arith;
}

-- Two holders whose DIDs have one key are the same holder.
pub IsRegistry-unique :
    (r : HolderRegistry) (i j : String) (h k : Holder)
    → IsRegistry r
    → Assoc.get i r.holders ≡ some h
    → Assoc.get j r.holders ≡ some k
    → holder_key h.did ≡ holder_key k.did
    → i ≡ j
IsRegistry-unique r i j h k v e f same =
    let a = v.indexed i h e in
    let b = v.indexed j k f in
    let c : Assoc.get (holder_key h.did) r.by_did ≡ some j =
      ap (λ key. Assoc.get key r.by_did) same ∙ b in
    cc (a, c)

by_key_free :
    (r : HolderRegistry) (key : String)
    → IsRegistry r
    → by_key r key ≡ none
    → Assoc.get key r.by_did ≡ none
unfolding by_key
by_key_free r key v e = elim (Option-cases (Assoc.get key r.by_did)) [
  | inl gone ↦ gone
  | inr (id, f) ↦ let (h, g, _) = v.named key id f in absurd (ground (arith, e, f, g))
]

abbrev added : HolderRegistry → Holder → HolderRegistry
added r h = record {
  holders = Assoc.insert h.holder_id h r.holders;
  by_did = Assoc.insert (holder_key h.did) h.holder_id r.by_did;
  order = r.order ++ h.holder_id ∷ [];
}

abbrev pub is_ok {ℓ κ} : {A : Type ℓ} {E : Type κ} → Result A E → Bool
is_ok (ok a) = true
is_ok (err e) = false

-- The branches of `insert`.
insert_branches :
    (r : HolderRegistry) (h : Holder)
    → (((insert r h).0 ≡ r) × (is_ok (insert r h).1 ≡ false))
      ⊎ ((Assoc.get h.holder_id r.holders ≡ none)
          × (by_key r (holder_key h.did) ≡ none)
          × (len r.holders < max_holders)
          × (insert r h ≡ (added r h, ok h)))
unfolding insert
insert_branches r h = elim (Option-cases (Assoc.get h.holder_id r.holders)) [
  | inr (old, e) ↦ inl (rw (e, insert), rw (e, insert))
  | inl e ↦ elim (Option-cases (by_key r (holder_key h.did))) [
    | inr (other, f) ↦ inl (rw (e, insert, f), rw (e, insert, f))
    | inl f ↦ elim (Bool-cases (leb max_holders (len r.holders))) [
      | inl g ↦ inl (rw (e, insert, f, g), rw (e, insert, f, g))
      | inr g ↦ inr (e, f, leb_false→lt max_holders (len r.holders) g, rw (e, insert, f, g))
    ]
  ]
]

-- A lookup after an insertion finds the new value under its key, or an old one under another.
get-insert-cases {ℓ} :
    {V : Type ℓ} (k j : String) (v w : V) (m : Assoc V)
    → Assoc.get j (Assoc.insert k v m) ≡ some w
    → ((k ≡ j) × (v ≡ w)) ⊎ (((k == j) ≡ false) × (Assoc.get j m ≡ some w))
get-insert-cases k j v w m e = elim (Bool-cases (k == j)) [
  | inl same ↦
      let found = sym (get-insert k j v m) ∙ e in inl ((eq_iff k j).0 same, cc (rw same at found))
  | inr differ ↦ let found = sym (get-insert k j v m) ∙ e in inr (differ, rw differ at found)
]

added_indexed :
    (r : HolderRegistry) (h : Holder) (id : String) (k : Holder)
    → IsRegistry r
    → Assoc.get h.holder_id r.holders ≡ none
    → Assoc.get (holder_key h.did) r.by_did ≡ none
    → Assoc.get id (added r h).holders ≡ some k
    → Assoc.get (holder_key k.did) (added r h).by_did ≡ some id
added_indexed r h id k v new_id new_key e = elim (get-insert-cases h.holder_id id h k r.holders e) [
  | inl (same, value) ↦
      let keys_same : holder_key h.did ≡ holder_key k.did =
        ap (λ (h : Holder). holder_key h.did) value in
      get-insert (holder_key h.did) (holder_key k.did) h.holder_id r.by_did
      ∙ ground (arith, eq_iff (holder_key h.did) (holder_key k.did), keys_same, same)
  | inr (differ, found) ↦
      get-insert (holder_key h.did) (holder_key k.did) h.holder_id r.by_did
      ∙ ground (arith, eq_iff (holder_key h.did) (holder_key k.did), v.indexed id k found, new_key)
]

added_named :
    (r : HolderRegistry) (h : Holder) (key id : String)
    → IsRegistry r
    → Assoc.get h.holder_id r.holders ≡ none
    → Assoc.get key (added r h).by_did ≡ some id
    → (k : Holder) × (Assoc.get id (added r h).holders ≡ some k) × (holder_key k.did ≡ key)
added_named r h key id v new_id e =
    elim (get-insert-cases (holder_key h.did) key h.holder_id id r.by_did e) [
      | inl (same, value) ↦ (
        h,
        get-insert h.holder_id id h r.holders ∙ ground (arith, eq_iff h.holder_id id, value),
        same,
      )
      | inr (differ, found) ↦
          let (k, there, keyed) = v.named key id found in
          (
            k,
            get-insert h.holder_id id h r.holders
                ∙ ground (arith, eq_iff h.holder_id id, new_id, there),
            keyed,
          )
    ]

added-IsRegistry :
    (r : HolderRegistry) (h : Holder)
    → IsRegistry r
    → Assoc.get h.holder_id r.holders ≡ none
    → Assoc.get (holder_key h.did) r.by_did ≡ none
    → len r.holders < max_holders
    → IsRegistry (added r h)
added-IsRegistry r h v new_id new_key room = record {
  indexed = λ id k e. added_indexed r h id k v new_id new_key e;
  named = λ key id e. added_named r h key id v new_id e;
  bounded = ground (arith, len-insert h.holder_id h r.holders);
}

-- Every insertion keeps the registry in order (each holder is indexed by the key of its DID, each
-- index entry names such a holder, at most 4096 holders), and a refused insertion changes nothing.
pub insert-IsRegistry :
    (r : HolderRegistry) (h : Holder)
    → IsRegistry r
    → IsRegistry (insert r h).0 × (is_ok (insert r h).1 ≡ false → (insert r h).0 ≡ r)
insert-IsRegistry r h v = elim (insert_branches r h) [
  | inl (same, refused) ↦ rw same (v, λ _. refl)
  | inr (new_id, new_key, room, e) ↦
      rw e
        (added-IsRegistry r h v new_id (by_key_free r (holder_key h.did) v new_key) room, λ z. cc)
]

-- After an accepted insertion the holder is found by every DID that has the key of its own, and
-- holders that were there keep their records.
pub by_did-insert :
    (r : HolderRegistry) (h : Holder) (did id : String) (old : Holder)
    → IsRegistry r
    → is_ok (insert r h).1 ≡ true
    → holder_key did ≡ holder_key h.did
    → (by_did (insert r h).0 did ≡ some h)
      × (get r id ≡ some old → get (insert r h).0 id ≡ some old)
unfolding by_did by_key get
by_did-insert r h did id old v accepted same = elim (insert_branches r h) [
  | inl (kept, refused) ↦ cc (accepted, refused)
  | inr (new_id, new_key, room, e) ↦
      rw (e, same)
        (
          ground (
            arith,
            get-insert (holder_key h.did) (holder_key h.did) h.holder_id r.by_did,
            get-insert h.holder_id h.holder_id h r.holders,
            eq_refl h.holder_id,
            eq_refl (holder_key h.did),
          ),
          λ f. ground (arith, get-insert h.holder_id id h r.holders, eq_iff h.holder_id id),
        )
]

-- ===== src/Hub/Hosting/StatusJwt.antt =====
-- The served status list is the current one (crates/identity-hub-http/src/handlers.rs).
use ds_identity_hub_rs.Common.{
  ℕ, ◌/◌, ◌<◌, String, ◌≡◌, refl, sym, ap, ◌∙◌, subst, ◌⊎◌, inl, inr, Bool, true, none, some, [],
  arith, eqb, if◌then◌else◌, Bool-cases, Option-cases, some-injective, get_elem?, set_elem,
}
use ds_identity_hub_rs.Common.Assoc.{modify}
use ds_identity_hub_rs.External.{External}
use ds_identity_hub_rs.Hub.{AppState}
use Prim.Native.Nat.{bit_and, bit_or}
use ds_identity_hub_rs.Http.{json}
use ds_identity_hub_rs.Issuer.StatusList.{StatusList, is_set, set, mask, status_list_bits}
use ds_identity_hub_rs.Issuer.StatusList.Bits.{HasBytes, is_set-set}
use ds_identity_hub_rs.Issuer.Issued.{IssuedCredential, IssuedCredentials, as_revoked, revoke}
use ds_identity_hub_rs.Issuer.Issued
use ds_identity_hub_rs.Issuer.Issued.Revocation.{revoked_as}
use ds_identity_hub_rs.Hub.Hosting.{signed_list, status_list}

module _ (x : External) (s : AppState x) where
  -- A cached token was signed, at some time, over the bits as they are.
  abbrev pub IsCurrent : StatusList → Type 0
  IsCurrent l = (jwt : String) → l.cached_jwt ≡ some jwt → (t : ℕ) × (jwt ≡ signed_list x s l t)

  -- A token is over the bits alone.
  signed_list-bits :
      (l l' : StatusList) (t : ℕ) → l.bits ≡ l'.bits → signed_list x s l t ≡ signed_list x s l' t
  unfolding signed_list
  signed_list-bits l l' t same =
      ap
        (λ bits.
          signed_list x s (record { bits = bits; next_index = 0; free = []; cached_jwt = none }) t)
        same

  same_bits-IsCurrent :
      (l l' : StatusList)
      → l.bits ≡ l'.bits
      → l.cached_jwt ≡ l'.cached_jwt
      → IsCurrent l
      → IsCurrent l'
  same_bits-IsCurrent l l' bits cached current jwt h =
      let (t, e) = current jwt (cached ∙ h) in (t, e ∙ signed_list-bits l l' t bits)

  -- A bit that is set drops the cached token; a bit that was set leaves the list alone.
  set-cached_jwt :
      (l l' : StatusList) (i : ℕ) → set l i ≡ some l' → (l'.cached_jwt ≡ none) ⊎ (l ≡ l')
  unfolding set
  set-cached_jwt l l' i h = elim (Option-cases (get_elem? l.bits (i / 8))) [
    | inl e ↦ absurd (ground (arith, h, e))
    | inr (byte, e) ↦ elim (Bool-cases (eqb (bit_and byte (mask i)) 0)) [
      | inl f ↦
          let written = record l {
            bits = set_elem l.bits (i / 8) (bit_or byte (mask i));
            cached_jwt = none;
          } in
          let h' : some written ≡ some l' = sym (rw (e, f, set) refl) ∙ h in
          inl (ap (λ (k : StatusList). k.cached_jwt) (sym (some-injective h')))
      | inr f ↦ let h' : some l ≡ some l' = sym (rw (e, f, set) refl) ∙ h in inr (some-injective h')
    ]
  ]

  set-IsCurrent : (l l' : StatusList) (i : ℕ) → set l i ≡ some l' → IsCurrent l → IsCurrent l'
  set-IsCurrent l l' i h current = elim (set-cached_jwt l l' i h) [
    | inl e ↦ λ jwt h'. absurd (ground (arith, e, h'))
    | inr e ↦ subst IsCurrent e current
  ]

  -- The answer of the endpoint
  pub status_list-IsCurrent :
      (now : ℕ)
      → IsCurrent s.issued.status_list
      → let (s', answer) = status_list x s now in
        IsCurrent s'.issued.status_list
        × (s'.issued.status_list.bits ≡ s.issued.status_list.bits)
        × ((t : ℕ) × (answer ≡ json 200 (signed_list x s s.issued.status_list t)))
  unfolding status_list
  status_list-IsCurrent now current = elim (Option-cases s.issued.status_list.cached_jwt) [
    | inr (jwt, e) ↦
        let (t, same) = current jwt e in
        rw (e, status_list) (current, refl, (t, ap (json 200) same))
    | inl e ↦ rw (e, status_list) (λ jwt h. (now, some-injective (sym h)), refl, (now, refl))
  ]

eqb_self : (i : ℕ) (b : Bool) → (if eqb i i then true else b) ≡ true
eqb_self i b = ground arith

module _ (x : External) (s : AppState x) where
  -- On a full-size list whose cached token, if any, was signed over its bits, revoking a recorded
  -- credential sets its bit, and the status list endpoint then answers a token that is signed over
  -- the list with that bit.
  pub revoke-served :
      (id : String) (r : IssuedCredential) (now : ℕ)
      → HasBytes s.issued.status_list
      → Issued.get s.issued id ≡ some r
      → r.status_list_index < status_list_bits
      → IsCurrent x s s.issued.status_list
      → (c : IssuedCredentials) × (revoke s.issued id ≡ some (c, some (as_revoked r)))
        × (is_set c.status_list r.status_list_index ≡ some true)
        × ((t : ℕ) × ((status_list x (record s { issued = c }) now).1
              ≡ json 200 (signed_list x s c.status_list t)))
  unfolding signed_list
  revoke-served id r now w e bound current =
      let i = r.status_list_index in
      let (l, b, h, before, after) = is_set-set s.issued.status_list i i w bound bound in
      let c = record s.issued {
        records = modify id as_revoked s.issued.records;
        status_list = l;
      } in
      let (_, _, served) =
        status_list-IsCurrent x (record s { issued = c }) now
          (set-IsCurrent x s s.issued.status_list l i h current) in
      (c, revoked_as s.issued id r l e h, after ∙ ap some (eqb_self i b), served)

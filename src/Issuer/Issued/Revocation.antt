-- ===== src/Issuer/Issued/Revocation.antt =====
-- Revocation of issued credentials.
use ds_identity_hub_rs.Common.{ℕ, ◌<◌, String, ◌≡◌, Bool, true, some, ◌==◌, eqb, if◌then◌else◌}
use ds_identity_hub_rs.Common.Assoc.{Assoc, modify}
use ds_identity_hub_rs.Common.Assoc.Laws.{get-modify}
use ds_identity_hub_rs.Issuer.Issued.{IssuedCredential, IssuedCredentials, revoke, as_revoked, get}
use ds_identity_hub_rs.Issuer.Issued
use ds_identity_hub_rs.Issuer.StatusList
use ds_identity_hub_rs.Issuer.StatusList.{StatusList, is_set}
use ds_identity_hub_rs.Issuer.StatusList.Bits.{HasBytes, is_set-set, set-HasBytes}
use ds_identity_hub_rs.Common.Assoc
use mathlib.Core.Option

pub revoked_as :
    (c : IssuedCredentials) (id : String) (r : IssuedCredential) (l : StatusList)
    → get c id ≡ some r
    → StatusList.set c.status_list r.status_list_index ≡ some l
    → revoke c id
      ≡ some (
        record c { records = Assoc.modify id as_revoked c.records; status_list = l },
        some (as_revoked r),
      )
unfolding revoke get
revoked_as c id r l e f = rw (e, revoke, f)

-- On a status list of full size, revoking a recorded credential whose index is inside the list
-- answers the record with the status revoked, sets its bit and no other, and leaves every other
-- record as it is.
pub revoke-is_set :
    (c : IssuedCredentials) (id : String) (r : IssuedCredential) (other : ℕ)
    → HasBytes c.status_list
    → get c id ≡ some r
    → r.status_list_index < StatusList.status_list_bits
    → other < StatusList.status_list_bits
    → (c' : IssuedCredentials) × (b : Bool) × (revoke c id
        ≡ some (c', some (record r { status = Issued.revoked })))
      × HasBytes c'.status_list
      × (is_set c.status_list other ≡ some b)
      × (is_set c'.status_list other ≡ some (if eqb r.status_list_index other then true else b))
      × ((k : String)
          → get c' k ≡ (
              if id == k
              then Option.map
                  (λ (q : IssuedCredential). record q { status = Issued.revoked })
                  (get c k)
              else get c k))
revoke-is_set c id r other w e hi hj =
    let (l, b, s, before, after) = is_set-set c.status_list r.status_list_index other w hi hj in
    (
      record c { records = Assoc.modify id as_revoked c.records; status_list = l },
      b,
      revoked_as c id r l e s,
      set-HasBytes c.status_list l r.status_list_index w s,
      before,
      after,
      λ k. unfold get in get-modify id k as_revoked c.records,
    )

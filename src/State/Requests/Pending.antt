-- ===== src/State/Requests/Pending.antt =====
-- `pending_counts` against a count of its own for each of the two numbers.
use ds_identity_hub_rs.Common.{
  ℕ, suc, ◌+◌, String, ◌≡◌, Bool, ◌&&◌, List, [], ◌∷◌, arith, ◌==◌, if◌then◌else◌, all,
}
use ds_identity_hub_rs.Common.Assoc.{values}
use ds_identity_hub_rs.Issuer.Process.{IssuanceProcess, submitted, state_eq}
use ds_identity_hub_rs.State.Requests.{RequestTable, pending_from, pending_counts}

-- How many entries of a list pass a test.
abbrev pub count {ℓ} : {A : Type ℓ} → (A → Bool) → List A → ℕ
count p [] = 0
count p (x ∷ xs) = if p x then suc (count p xs) else count p xs

abbrev pub waits : IssuanceProcess → Bool
waits p = state_eq p.state submitted

abbrev pub waits_of : String → IssuanceProcess → Bool
waits_of holder_id p = waits p && p.holder_id == holder_id

pending_from-count :
    (h : String) (mine all : ℕ) (ps : List IssuanceProcess)
    → pending_from h (mine, all) ps ≡ (mine + count (waits_of h) ps, all + count waits ps)
unfolding pending_from
pending_from-count h mine all [] = ground arith
pending_from-count h mine all (p ∷ ps) = ground (
  arith,
  pending_from-count h mine all ps,
  pending_from-count h (mine + 1) (all + 1) ps,
  pending_from-count h mine (all + 1) ps,
)

-- pending_counts counts the waiting processes of the holder and all waiting processes of the
-- table.
pub pending_counts-count :
    (t : RequestTable) (h : String)
    → pending_counts t h ≡ (count (waits_of h) (values t.records), count waits (values t.records))
unfolding pending_counts
pending_counts-count t h = ground (arith, pending_from-count h 0 0 (values t.records))

-- ===== src/Hub/Offers/Redeem.antt =====
-- The redemption of pre-authorized codes.
use ds_identity_hub_rs.Common.{
  ℕ, ◌<◌, String, ◌≡◌, refl, ap, ◌∙◌, inl, inr, Bool, true, false, Option, none, some, arith, ◌==◌,
  Option-cases, is_none, ok,
}
use ds_identity_hub_rs.Common.Assoc.{Assoc, get}
use ds_identity_hub_rs.Hub.Offers.{take_checked, check_tx_code, redeem_code}
use ds_identity_hub_rs.Oid4vci.{PreAuthorizedGrant}
use ds_identity_hub_rs.Oid4vci.Table.{ExpiringTable, get_live}
use ds_identity_hub_rs.Oid4vci.Table.Live.{get_live_entry, take-single_use}
use ds_identity_hub_rs.Common.Assoc

-- A live code, with its grant.
abbrev pub HoldsGrant : ExpiringTable PreAuthorizedGrant → String → ℕ → PreAuthorizedGrant → Type 0
HoldsGrant t code now grant =
    (exp : ℕ) × (Assoc.get code t.entries ≡ some (exp, grant)) × (now < exp)

-- Whether the code the caller presents is the one the grant wants.
abbrev pub matches : PreAuthorizedGrant → Option String → Bool
matches grant given = elim grant.tx_code [
  | none ↦ is_none given
  | some expected ↦ elim given [ none ↦ false | some t ↦ expected == t ]
]

looked_up :
    (t : ExpiringTable PreAuthorizedGrant) (code : String) (now : ℕ) (grant : PreAuthorizedGrant)
    → HoldsGrant t code now grant
    → get_live t code now ≡ (t, some grant)
looked_up t code now grant (exp, e, alive) = get_live_entry t code now exp grant e ∙ ground arith

redeem_live :
    (t : ExpiringTable PreAuthorizedGrant) (code : String) (given : Option String) (now : ℕ)
    (grant : PreAuthorizedGrant)
    → HoldsGrant t code now grant
    → redeem_code t code given now
      ≡ take_checked code grant now (check_tx_code t code grant given now)
unfolding redeem_code
redeem_live t code given now grant h =
    rw (looked_up t code now grant h, redeem_code)
      (ap (λ r. take_checked code grant now (check_tx_code r.0 code grant given now))
        (looked_up t code now grant h))

check_matching :
    (t : ExpiringTable PreAuthorizedGrant) (code : String) (given : Option String) (now : ℕ)
    (grant : PreAuthorizedGrant)
    → matches grant given ≡ true
    → check_tx_code t code grant given now ≡ (t, ok tt)
unfolding check_tx_code
check_matching t code none now grant fits = elim (Option-cases grant.tx_code) [
  | inl e ↦ rw (e, check_tx_code)
  | inr (expected, e) ↦ absurd (ground arith)
]
check_matching t code (some given) now grant fits = elim (Option-cases grant.tx_code) [
  | inl e ↦ absurd (ground arith)
  | inr (expected, e) ↦
      let same : (expected == given) ≡ true = ground arith in rw (e, check_tx_code, same)
]

-- A live pre-authorized code with a fitting transaction code answers its configurations, and no
-- later lookup finds the code.
pub redeem_code-matches :
    (t : ExpiringTable PreAuthorizedGrant) (code : String) (given : Option String) (now : ℕ)
    (grant : PreAuthorizedGrant)
    → HoldsGrant t code now grant
    → matches grant given ≡ true
    → ((redeem_code t code given now).1 ≡ ok grant.credential_configuration_ids)
      × ((later : ℕ) (again : Option String)
          → (get_live (redeem_code t code given now).0 code later).1 ≡ none)
redeem_code-matches t code given now grant h fits =
    rw (redeem_live t code given now grant h, check_matching t code given now grant fits)
      (refl, λ later again. (take-single_use t code now later).1)

-- ===== src/Tests/Deliveries.antt =====
-- A delivery of two credentials where the status list has room for one.
use ds_identity_hub_rs.Common.{
  String, ◌≡◌, refl, sym, subst, false, none, some, [], ◌∷◌, arith, replicate, err,
}
use ds_identity_hub_rs.Hub.{AppState}
use ds_identity_hub_rs.Tests.{world, process, hub}
use ds_identity_hub_rs.Hub.Delivery.{attempt}
use ds_identity_hub_rs.Hub.Delivery.Restored.{IsUnmarked, IsRestored, attempt-IsRestored}
use ds_identity_hub_rs.Issuer.Process.{IssuanceProcess}
use ds_identity_hub_rs.Issuer.Process
use ds_identity_hub_rs.Issuer.Definitions
use ds_identity_hub_rs.Issuer.StatusList.{StatusList, status_list_bits, is_set}
use ds_identity_hub_rs.Issuer.StatusList
use ds_identity_hub_rs.Issuer.StatusList.Alloc.{HasFree}

abbrev nearly_full : StatusList
nearly_full = record {
  bits = 0 ∷ replicate 16383 0;
  next_index = status_list_bits;
  free = 5 ∷ [];
  cached_jwt = none;
}

nearly_full-HasFree : HasFree nearly_full
nearly_full-HasFree = record {
  ascending = (tt, tt);
  below = (omega arith, tt);
  bounded = omega arith;
}

unset_five : is_set nearly_full 5 ≡ some false
unfolding is_set
unset_five = refl

nearly_full-IsUnmarked : IsUnmarked nearly_full
nearly_full-IsUnmarked i inside h =
    let five : i ≡ 5 = ground (arith, h, inside) in
    subst (λ k. is_set nearly_full k ≡ some false) (sym five) unset_five

abbrev tight_hub : AppState world
tight_hub = record hub { issued = record hub.issued { status_list = nearly_full } }

abbrev pair : IssuanceProcess
pair = record (process "p3" Process.approved) {
  credential_definitions = "membership" ∷ "membership" ∷ [];
}

abbrev exhausted : String
exhausted = "the revocation status list is exhausted; no further credentials can be issued"

pair_fails : (attempt world tight_hub pair (λ i. "u") 1000 "j").1 ≡ err exhausted
unfolding attempt Definitions.get StatusList.allocate
pair_fails = refl

attempt-IsRestored_example :
    IsRestored nearly_full (attempt world tight_hub pair (λ i. "u") 1000 "j").0.issued.status_list
attempt-IsRestored_example =
    attempt-IsRestored world tight_hub pair (λ i. "u") 1000 "j" exhausted nearly_full-HasFree
      nearly_full-IsUnmarked pair_fails

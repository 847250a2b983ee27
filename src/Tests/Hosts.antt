-- ===== src/Tests/Hosts.antt =====
-- The hosts of a small configuration, and a request that is redirected.
use ds_identity_hub_rs.Common.{◌≤◌, String, ◌≡◌, refl, ◌↔◌, [], ◌∷◌, length, All, ok}
use ds_identity_hub_rs.Outbound.{OutboundPolicy, check_url}
use ds_identity_hub_rs.Hub.{Config}
use ds_identity_hub_rs.Tests.{world, hub}
use ds_identity_hub_rs.Hub.Hosts.{policy, redirect_policy, error}
use ds_identity_hub_rs.Hub.Hosts.Allowed.{IsReachable, check_url-IsReachable_iff}
use ds_identity_hub_rs.Hub.Hosts.Redirects.{Followed, sent, hop, Followed-allowed}

abbrev config : Config
config = record hub.config { allowed_outbound_hosts = "alice" ∷ [] }

abbrev page : String
page = "https://alice/page"

abbrev allowed : OutboundPolicy
allowed = record { allowed_hosts = "alice" ∷ [] }

redirected : Followed world allowed (page ∷ page ∷ [])
unfolding check_url redirect_policy
redirected = hop (page ∷ []) page (sent page refl) refl

check_url-IsReachable_iff_example :
    (check_url world (policy world config) page ≡ ok tt) ↔ IsReachable world config page
check_url-IsReachable_iff_example = check_url-IsReachable_iff world config page

Followed-allowed_example :
    (length (page ∷ page ∷ []) ≤ 10)
    × All (λ url. check_url world allowed url ≡ ok tt) (page ∷ page ∷ [])
    × ((url : String)
        → length (page ∷ page ∷ []) ≡ 10
        → redirect_policy world allowed (page ∷ page ∷ []) url ≡ error "too many redirects")
Followed-allowed_example = Followed-allowed world allowed (page ∷ page ∷ []) redirected

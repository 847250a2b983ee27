-- ===== src/Outbound.antt =====
-- `OutboundPolicy` (crates/identity-hub-http/src/outbound.rs).
use ds_identity_hub_rs.Common.{
  String, Bool, ◌||◌, List, [], ◌∷◌, ◌==◌, Result, ◌>>=◌, ◌>>◌, guard, ok_or, map_err,
}
use ds_identity_hub_rs.Common.Assoc.{has}
use ds_identity_hub_rs.Common.Text.{format}
use ds_identity_hub_rs.External.{External}

pub data OutboundError : Type 0 where
  host_not_allowed unsupported_scheme malformed : String → OutboundError

abbrev pub error_text : OutboundError → String
error_text (host_not_allowed h) =
    format ("outbound host '" ∷ h ∷ "' is not on this service's allow-list" ∷ [])
error_text (unsupported_scheme s) =
    format ("outbound URL scheme '" ∷ s ∷ "' is not supported (only http/https)" ∷ [])
error_text (malformed e) = format ("outbound destination is not a usable URL: " ∷ e ∷ [])

-- The allowed hosts, which `new` has sorted, without duplicates, in lower case.
pub record OutboundPolicy : Type 0 where
  pub allowed_hosts : List String

module _ (x : External) where
  unfoldable pub check_url : OutboundPolicy → String → Result (Unit {0}) OutboundError
  check_url policy url = do
    parsed ← map_err malformed (x.parse_url url)
    guard (parsed.scheme == "http" || parsed.scheme == "https") (unsupported_scheme parsed.scheme)
    host ← ok_or parsed.host_str (malformed (format ("'" ∷ url ∷ "' has no host component" ∷ [])))
    guard (has (x.to_lowercase host) policy.allowed_hosts) (host_not_allowed (x.to_lowercase host))

  unfoldable pub check_did : OutboundPolicy → String → Bool → Result (Unit {0}) OutboundError
  unfolding check_url
  check_did policy did insecure_http = do
    url ← map_err malformed (x.did_web_to_url did insecure_http)
    check_url policy url

-- ===== src/Hub/Hosts.antt =====
-- The hosts that the service may send requests to: `OutboundPolicy::new`, the list that
-- `AppState::new` gives it, and the redirect policy of the HTTP client
-- (crates/identity-hub-http/src/{outbound,state}.rs), with the feature trusted-issuers-registry.
pub mod Listed
pub mod Allowed
pub mod Redirects
use ds_identity_hub_rs.Common.{
  ℕ, String, Bool, false, Option, none, some, List, [], ◌∷◌, ◌++◌, map, ◌==◌, leb, if◌then◌else◌,
  length, ok, err,
}
use ds_identity_hub_rs.Common.Text.{format, split}
use ds_identity_hub_rs.External.{External}
use ds_identity_hub_rs.Outbound.{error_text, OutboundPolicy, check_url}
use ds_identity_hub_rs.Hub.{Config, base_url}
use ds_identity_hub_rs.RegistryTrust.{TrustedIssuersRegistry}
use ds_identity_hub_rs.Issuer.Query.{cmp_str, sort_by}

-- `split(':').next()`.
unfoldable pub own_host : String → String
unfolding split
own_host did_host = elim (split b':' did_host) [ [] ↦ did_host | h ∷ hs ↦ h ]

abbrev pub is_first : String → List String → Bool
is_first a [] = false
is_first a (b ∷ bs) = a == b

-- `Vec::dedup`.
unfoldable pub dedup : List String → List String
dedup [] = []
dedup (a ∷ as') = let rest = dedup as' in if is_first a rest then rest else a ∷ rest

abbrev pub host_docker_internal : String
host_docker_internal = "host.docker.internal"

abbrev pub max_outbound_redirects : ℕ
max_outbound_redirects = 10

pub data Action : Type 0 where
  follow : Action
  error : String → Action

abbrev pub option_list : Option String → List String
option_list none = []
option_list (some h) = h ∷ []

module _ (x : External) where
  unfoldable pub new : List String → OutboundPolicy
  unfolding dedup sort_by cmp_str
  new hosts = record { allowed_hosts = dedup (sort_by cmp_str (map x.to_lowercase hosts)) }

  abbrev pub url_host : String → Option String
  url_host url = elim (x.parse_url url) [ ok u ↦ u.host_str | err _ ↦ none ]

  abbrev pub did_host_of : TrustedIssuersRegistry → Bool → Option String
  did_host_of registry insecure_http = elim (x.did_web_to_url registry.did insecure_http) [
    | ok url ↦ url_host url
    | err _ ↦ none
  ]

  -- The host of the registry's API, and the host that its DID resolves at.
  abbrev pub registry_hosts : Option TrustedIssuersRegistry → Bool → List String
  registry_hosts none insecure_http = []
  registry_hosts (some registry) insecure_http =
      option_list (url_host registry.base_url) ++ option_list (did_host_of registry insecure_http)

  unfoldable pub outbound_hosts : Config → List String
  unfolding own_host
  outbound_hosts config =
      own_host config.did_host ∷ "127.0.0.1" ∷ host_docker_internal ∷ config.allowed_outbound_hosts
      ++ registry_hosts config.trusted_issuers_registry config.insecure_http

  -- What the HTTP client asks before it follows a redirect; `previous` is what the request has
  -- been sent to so far.
  unfoldable pub redirect_policy : OutboundPolicy → List String → String → Action
  redirect_policy outbound previous url =
      if leb max_outbound_redirects (length previous)
      then error "too many redirects"
      else (elim (check_url x outbound url) [
        | ok _ ↦ follow
        | err e ↦ error (format ("redirect refused: " ∷ error_text e ∷ []))
      ])

  -- The policy of the application's state.
  abbrev pub policy : Config → OutboundPolicy
  policy config = new (outbound_hosts config)

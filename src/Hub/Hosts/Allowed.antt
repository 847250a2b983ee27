-- ===== src/Hub/Hosts/Allowed.antt =====
-- Which requests the allow-list and the redirect policy let through
-- (crates/identity-hub-http/src/{outbound,state}.rs).
use ds_identity_hub_rs.Common.{
  String, ◌≡◌, refl, sym, ap, ◌∙◌, subst, ◌↔◌, ◌⊎◌, inl, inr, Bool, true, ◌||◌, Option, none, some,
  List, ◌∷◌, ◌++◌, map, arith, ◌==◌, eq_iff, eq_refl, Bool-cases, Option-cases, guard, ok_or,
  map_err, >>=-eq-ok, map_err-eq-ok, ok_or-eq-ok, guard-eq-ok, ok,
}
use ds_identity_hub_rs.Common.Assoc.{has}
use ds_identity_hub_rs.External.{Url, External}
use ds_identity_hub_rs.Outbound.{unsupported_scheme, malformed, check_url}
use ds_identity_hub_rs.Hub.{Config}
use ds_identity_hub_rs.RegistryTrust.{TrustedIssuersRegistry}
use ds_identity_hub_rs.Hub.Hosts.{
  own_host, host_docker_internal, url_host, did_host_of, option_list, registry_hosts,
  outbound_hosts, policy,
}
use ds_identity_hub_rs.Hub.Hosts.Listed.{
  has-cons, has-or, has-append, has-map, map-has, has_one, one_has, has-new,
}

scheme_of : (s : String) → (s == "http" || s == "https") ≡ true → (s ≡ "http") ⊎ (s ≡ "https")
scheme_of s h = elim (Bool-cases (s == "http")) [
  | inl e ↦ inl ((eq_iff s "http").0 e)
  | inr e ↦ inr ((eq_iff s "https").0 (ground (arith, e)))
]

module _ (x : External) where
  -- The hosts that the configuration names.
  pub data Configured (config : Config) : String → Type 0 where
    own : Configured config (own_host config.did_host)
    loopback : Configured config "127.0.0.1"
    docker : Configured config host_docker_internal
    listed : (h : String) → has h config.allowed_outbound_hosts ≡ true → Configured config h
    registry_api :
        (registry : TrustedIssuersRegistry) (h : String)
        → config.trusted_issuers_registry ≡ some registry
        → url_host x registry.base_url ≡ some h
        → Configured config h
    registry_document :
        (registry : TrustedIssuersRegistry) (h : String)
        → config.trusted_issuers_registry ≡ some registry
        → did_host_of x registry config.insecure_http ≡ some h
        → Configured config h

  from_registry :
      (config : Config) (h : String)
      → (config.trusted_issuers_registry ≡ none)
        ⊎ ((r : TrustedIssuersRegistry) × (config.trusted_issuers_registry ≡ some r))
      → has h (registry_hosts x config.trusted_issuers_registry config.insecure_http) ≡ true
      → Configured config h
  from_registry config h (inl e) m = absurd (ground (arith, e))
  from_registry config h (inr (r, e)) m =
      elim (has-or h (option_list (url_host x r.base_url))
        (option_list (did_host_of x r config.insecure_http)) (rw (e) at m)) [
          | inl m1 ↦ registry_api r h e (has_one h _ m1)
          | inr m1 ↦ registry_document r h e (has_one h _ m1)
        ]

  registry-has :
      (r : TrustedIssuersRegistry) (o : Option TrustedIssuersRegistry) (b : Bool) (h : String)
      → o ≡ some r
      → (url_host x r.base_url ≡ some h) ⊎ (did_host_of x r b ≡ some h)
      → has h (registry_hosts x o b) ≡ true
  registry-has r o b h e (inl m) = rw e (
      has-append h (option_list (url_host x r.base_url)) (option_list (did_host_of x r b))
      ∙ ap (λ t. t || has h (option_list (did_host_of x r b))) (one_has h _ m))
  registry-has r o b h e (inr m) = rw e (
      has-append h (option_list (url_host x r.base_url)) (option_list (did_host_of x r b))
      ∙ ground (arith, one_has h (did_host_of x r b) m))

  abbrev listed_hosts : Config → List String
  listed_hosts config =
      config.allowed_outbound_hosts
      ++ registry_hosts x config.trusted_issuers_registry config.insecure_http

  abbrev from_docker : Config → List String
  from_docker config = host_docker_internal ∷ listed_hosts config

  hosts-Configured :
      (config : Config) (h : String) → has h (outbound_hosts x config) ≡ true → Configured config h
  unfolding outbound_hosts
  hosts-Configured config h m = elim (has-cons h _ ("127.0.0.1" ∷ from_docker config) m) [
    | inl e ↦ subst (Configured config) e own
    | inr m1 ↦ elim (has-cons h _ (from_docker config) m1) [
      | inl e ↦ subst (Configured config) e loopback
      | inr m2 ↦ elim (has-cons h _ (listed_hosts config) m2) [
        | inl e ↦ subst (Configured config) e docker
        | inr m3 ↦ elim (has-or h config.allowed_outbound_hosts _ m3) [
          | inl m4 ↦ listed h m4
          | inr m4 ↦ from_registry config h (Option-cases config.trusted_issuers_registry) m4
        ]
      ]
    ]
  ]

  has_listed :
      (config : Config) (h : String)
      → has h (listed_hosts config) ≡ true
      → has h (outbound_hosts x config) ≡ true
  unfolding outbound_hosts
  has_listed config h m = ground arith

  Configured-hosts :
      (config : Config) (h : String) → Configured config h → has h (outbound_hosts x config) ≡ true
  unfolding outbound_hosts
  Configured-hosts config h own = rw (eq_refl (own_host config.did_host)) refl
  Configured-hosts config h loopback = ground arith
  Configured-hosts config h docker = ground arith
  Configured-hosts config h (listed _ m) = has_listed config h (
      has-append h config.allowed_outbound_hosts _
      ∙ ap (λ t. t || has h (registry_hosts x config.trusted_issuers_registry config.insecure_http))
          m)
  Configured-hosts config h (registry_api r _ e m) = has_listed config h (
      ground (
        arith,
        has-append h config.allowed_outbound_hosts
            (registry_hosts x config.trusted_issuers_registry config.insecure_http),
        registry-has r config.trusted_issuers_registry config.insecure_http h e (inl m),
      ))
  Configured-hosts config h (registry_document r _ e m) = has_listed config h (
      ground (
        arith,
        has-append h config.allowed_outbound_hosts
            (registry_hosts x config.trusted_issuers_registry config.insecure_http),
        registry-has r config.trusted_issuers_registry config.insecure_http h e (inr m),
      ))

  -- A URL over HTTP or HTTPS, on a configured host in any case.
  abbrev pub IsReachable : Config → String → Type 0
  IsReachable config url =
      (parsed : Url) × (host : String) × (h : String) × (x.parse_url url ≡ ok parsed)
      × ((parsed.scheme ≡ "http") ⊎ (parsed.scheme ≡ "https"))
      × (parsed.host_str ≡ some host)
      × Configured config h
      × (x.to_lowercase h ≡ x.to_lowercase host)

  reached_host :
      (config : Config) (h host : String)
      → Configured config h
      → x.to_lowercase h ≡ x.to_lowercase host
      → has (x.to_lowercase host) (policy x config).allowed_hosts ≡ true
  reached_host config h host c same =
      has-new x (outbound_hosts x config) (x.to_lowercase host)
      ∙ ap (λ j. has j (map x.to_lowercase (outbound_hosts x config))) (sym same)
      ∙ map-has x.to_lowercase h (outbound_hosts x config) (Configured-hosts config h c)

  checked-IsReachable :
      (config : Config) (url : String)
      → check_url x (policy x config) url ≡ ok tt
      → IsReachable config url
  unfolding check_url
  checked-IsReachable config url c =
      let (parsed, p, c1) = >>=-eq-ok (map_err malformed (x.parse_url url)) _ c in
      let (_, g, c2) =
        >>=-eq-ok
          (guard (parsed.scheme == "http" || parsed.scheme == "https")
            (unsupported_scheme parsed.scheme))
          _ c1 in
      let (host, o, c3) = >>=-eq-ok (ok_or parsed.host_str _) _ c2 in
      let (h, m, same) =
        has-map x.to_lowercase (x.to_lowercase host) (outbound_hosts x config)
          (sym (has-new x (outbound_hosts x config) (x.to_lowercase host)) ∙ guard-eq-ok _ _ c3) in
      (
        parsed,
        host,
        h,
        map_err-eq-ok _ _ p,
        scheme_of parsed.scheme (guard-eq-ok _ _ g),
        ok_or-eq-ok _ _ o,
        hosts-Configured config h m,
        same,
      )

  IsReachable-checked :
      (config : Config) (url : String)
      → IsReachable config url
      → check_url x (policy x config) url ≡ ok tt
  unfolding check_url
  IsReachable-checked config url (parsed, host, h, p, inl e, o, c, same) =
      rw (p, e, o, reached_host config h host c same) refl
  IsReachable-checked config url (parsed, host, h, p, inr e, o, c, same) =
      rw (p, e, o, reached_host config h host c same) refl

  -- The allow-list that a configuration leads to lets a URL through exactly when it parses, its
  -- scheme is http or https, and its host is, in any case, one that the configuration names: the
  -- host of the service's own DID, the loopback address, host.docker.internal, a listed host, or
  -- the host of the registry's API or of its DID document.
  pub check_url-IsReachable_iff :
      (config : Config) (url : String)
      → (check_url x (policy x config) url ≡ ok tt) ↔ IsReachable config url
  check_url-IsReachable_iff config url =
      (checked-IsReachable config url, IsReachable-checked config url)

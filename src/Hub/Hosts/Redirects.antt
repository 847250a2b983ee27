-- ===== src/Hub/Hosts/Redirects.antt =====
-- Where the redirects of a request lead (crates/identity-hub-http/src/state.rs).
use ds_identity_hub_rs.Common.{
  ◌≤◌, ◌<◌, String, ◌≡◌, refl, inl, inr, List, [], ◌∷◌, arith, leb, Bool-cases, length, all, All,
  Result-cases, ok,
}
use ds_identity_hub_rs.External.{External}
use ds_identity_hub_rs.Outbound.{OutboundPolicy, check_url}
use ds_identity_hub_rs.Hub.Hosts.{follow, error, redirect_policy, max_outbound_redirects}

module _ (x : External) where
  -- The URLs that one request was sent to, the last one first: the first one was checked, and the
  -- client asked the policy before each other one.
  pub data Followed (outbound : OutboundPolicy) : List String → Type 0 where
    sent : (url : String) → check_url x outbound url ≡ ok tt → Followed outbound (url ∷ [])
    hop :
        (previous : List String) (url : String)
        → Followed outbound previous
        → redirect_policy x outbound previous url ≡ follow
        → Followed outbound (url ∷ previous)

  follow-checked :
      (outbound : OutboundPolicy) (previous : List String) (url : String)
      → redirect_policy x outbound previous url ≡ follow
      → (length previous < 10) × (check_url x outbound url ≡ ok tt)
  unfolding redirect_policy
  follow-checked outbound previous url h = elim (Bool-cases (leb 10 (length previous))) [
    | inl e ↦ absurd (ground (arith, e))
    | inr e ↦ elim (Result-cases (check_url x outbound url)) [
      | inl (_, c) ↦ (ground (arith, e), c)
      | inr (_, c) ↦ absurd (ground (arith, e, c))
    ]
  ]

  tenth-refused :
      (outbound : OutboundPolicy) (urls : List String) (url : String)
      → length urls ≡ max_outbound_redirects
      → redirect_policy x outbound urls url ≡ error "too many redirects"
  unfolding redirect_policy
  tenth-refused outbound urls url e = rw (e, redirect_policy) refl

  -- Where the first URL of a request was checked and the client asks the policy before each other
  -- one, with the list of the URLs requested so far, the request goes to at most ten URLs, that
  -- is, over nine redirects, the policy allows each of them, and a tenth redirect is refused
  -- wherever it leads.
  pub Followed-allowed :
      (outbound : OutboundPolicy) (urls : List String)
      → Followed outbound urls
      → (length urls ≤ 10)
        × All (λ url. check_url x outbound url ≡ ok tt) urls
        × ((url : String)
            → length urls ≡ 10
            → redirect_policy x outbound urls url ≡ error "too many redirects")
  Followed-allowed outbound _ (sent url c) =
      (omega arith, (c, tt), λ u e. tenth-refused outbound (url ∷ []) u e)
  Followed-allowed outbound _ (hop previous url f h) =
      let (bound, c) = follow-checked outbound previous url h in
      let (_, all, _) = Followed-allowed outbound previous f in
      (omega arith, (c, all), λ u e. tenth-refused outbound (url ∷ previous) u e)

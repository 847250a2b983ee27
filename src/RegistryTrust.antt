-- ===== src/RegistryTrust.antt =====
-- The client of the trusted issuers registry (crates/identity-hub-http/src/registry_trust.rs). The
-- mutex is held over the fetch, so a call is one step; the clock is an argument of each reading.
pub mod Closed
use ds_identity_hub_rs.Common.{
  ℕ, ◌+◌, ◌-◌, ◌/◌, String, Bool, not, ◌&&◌, ◌||◌, Option, none, some, List, [], ◌∷◌, ltb, leb, eqb,
  if◌then◌else◌, any, Result, ◌>>=◌, ◌>>◌, guard, map_err, ok, err,
}
use ds_identity_hub_rs.Common.Json.{unwrap_or}
use ds_identity_hub_rs.Common.Text.{format, trim_end, trim}
use ds_identity_hub_rs.External.{External}
use ds_identity_hub_rs.Outbound.{error_text, OutboundPolicy, check_url, check_did}
use ds_identity_hub_rs.Scope.{credential_types}
use ds_identity_hub_rs.Auth.{
  AuthError, untrusted_issuer, trust_registry_unavailable, not_trusted_for_type,
}
use Prim.Native.Nat.{min}
use ds_identity_hub_rs.External

abbrev pub u64_max : ℕ
u64_max = 18446744073709551615

-- `u64::saturating_add`.
abbrev pub saturating_add : ℕ → ℕ → ℕ
saturating_add a b = min (a + b) u64_max

abbrev pub refresh_margin_secs : ℕ
refresh_margin_secs = 30

unfoldable pub needs_refresh : ℕ → ℕ → ℕ → ℕ → Bool
needs_refresh fetched_at iat exp now =
    let lifetime = exp - iat in
    leb (saturating_add fetched_at (lifetime / 4)) now
    || leb exp (saturating_add now refresh_margin_secs)

-- `config::TrustedIssuersRegistry`.
pub record TrustedIssuersRegistry : Type 0 where
  pub base_url : String
  pub did : String

pub record Cached (x : External) : Type 0 where
  pub list : x.TrustList
  pub fetched_at : ℕ

pub record RegistryTrust (x : External) : Type 0 where
  pub source : TrustedIssuersRegistry
  pub cached : Option (Cached x)

abbrev pub is_success : ℕ → Bool
is_success status = leb 200 status && leb status 299

module _ (x : External) where
  abbrev pub new : TrustedIssuersRegistry → RegistryTrust x
  new source = record { source = source; cached = none }

  abbrev pub snapshot_url : TrustedIssuersRegistry → String
  snapshot_url source = format (trim_end (λ c. eqb c b'/') source.base_url ∷ "/v1/snapshot" ∷ [])

  abbrev pub failed_at : String → String → String
  failed_at place e = format (place ∷ ": " ∷ e ∷ [])

  abbrev pub got : TrustedIssuersRegistry → String
  got source = format ("GET " ∷ snapshot_url source ∷ [])

  -- The key of the registry that signed the token.
  unfoldable pub snapshot_key :
      TrustedIssuersRegistry → OutboundPolicy → Bool → String → Result x.VerifyingKey String
  unfolding check_did
  snapshot_key source outbound insecure_http token = do
    map_err (λ e. failed_at source.did (error_text e))
        (check_did x outbound source.did insecure_http)
    doc ←
        map_err (λ e. format ("resolving " ∷ source.did ∷ ": " ∷ e ∷ []))
          (x.resolve_did source.did insecure_http)
    kid ← x.snapshot_kid token
    x.find_verifying_key doc kid

  unfoldable pub fetch :
      TrustedIssuersRegistry → OutboundPolicy → Bool → ℕ → Result x.TrustList String
  unfolding check_url snapshot_key
  fetch source outbound insecure_http now = do
    map_err (λ e. failed_at (snapshot_url source) (error_text e))
        (check_url x outbound (snapshot_url source))
    response ← map_err (failed_at (got source)) (x.get_text (snapshot_url source))
    guard (is_success (response.0)) (failed_at (got source) (x.display_status (response.0)))
    token ← map_err (failed_at (got source)) (response.1)
    key ← snapshot_key source outbound insecure_http (trim token)
    x.verify_snapshot (trim token) source.did key now

  abbrev pub is_fresh : Cached x → ℕ → Bool
  is_fresh c now = not (needs_refresh c.fetched_at (x.list_iat c.list) (x.list_exp c.list) now)

  -- The list that a cache still serves without a fetch, and after a failed one.
  unfoldable pub fresh_list : Option (Cached x) → ℕ → Option x.TrustList
  unfolding needs_refresh
  fresh_list none now = none
  fresh_list (some c) now = if is_fresh c now then some c.list else none

  unfoldable pub fallback : Option (Cached x) → ℕ → String → Result x.TrustList String
  fallback none now e = err e
  fallback (some c) now e = if ltb now (x.list_exp c.list) then ok c.list else err e

  unfoldable pub trust_list :
      RegistryTrust x → OutboundPolicy → Bool → ℕ → RegistryTrust x × Result x.TrustList String
  unfolding fresh_list fallback fetch
  trust_list r outbound insecure_http now = elim (fresh_list r.cached now) [
    | some list ↦ (r, ok list)
    | none ↦ elim (fetch r.source outbound insecure_http now) [
      | ok list ↦ (record r { cached = some (record { list = list; fetched_at = now }) }, ok list)
      | err e ↦ (r, fallback r.cached now e)
    ]
  ]

  abbrev pub is_trusted : x.TrustList → String → ℕ → String → Bool
  is_trusted list iss now t = (x.list_check list iss t now).0

  abbrev pub reason : x.TrustList → String → ℕ → String → String
  reason list iss now t = unwrap_or ((x.list_check list iss t now).1) ""

  unfoldable pub check_types : x.TrustList → String → ℕ → List String → Result (Unit {0}) AuthError
  check_types list iss now [] = ok tt
  check_types list iss now (t ∷ ts) =
      guard (is_trusted list iss now t) (not_trusted_for_type iss t (reason list iss now t))
      >> check_types list iss now ts

  unfoldable pub check_list : x.TrustList → String → List String → ℕ → Result (Unit {0}) AuthError
  unfolding check_types
  check_list list iss [] now =
      guard (any (is_trusted list iss now) (unwrap_or (x.listed_types list iss) []))
        (untrusted_issuer iss)
  check_list list iss (t ∷ ts) now = check_types list iss now (t ∷ ts)

  -- The clock is read again after the list was awaited, as `later`.
  unfoldable pub check :
      RegistryTrust x
      → OutboundPolicy
      → Bool
      → String
      → List String
      → ℕ
      → ℕ
      → RegistryTrust x × Result (Unit {0}) AuthError
  unfolding trust_list check_list
  check r outbound insecure_http iss credential_types now later =
      let (r', list) = trust_list r outbound insecure_http now in
      (r', map_err trust_registry_unavailable list >>= λ l. check_list l iss credential_types later)

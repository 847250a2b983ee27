-- ===== src/Issuer/Error.antt =====
-- `IssuerError` (crates/identity-hub-http/src/issuer.rs), and its HTTP answer
-- (crates/identity-hub-http/src/admin.rs).
use ds_identity_hub_rs.Common.{String}
use ds_identity_hub_rs.Http.{Response, refuse}

pub data IssuerError : Type 0 where
  invalid not_found conflict full : String → IssuerError

unfoldable pub into_response {ℓ} : {A : Type ℓ} → IssuerError → Response A
into_response (invalid m) = refuse 400 m
into_response (not_found m) = refuse 404 m
into_response (conflict m) = refuse 409 m
into_response (full m) = refuse 503 m

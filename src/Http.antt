-- ===== src/Http.antt =====
-- The answers of the HTTP handlers: a status code, and what the body or the header carries.
use ds_identity_hub_rs.Common.{ℕ, String}

pub data Response {ℓ} (A : Type ℓ) : Type ℓ where
  -- `StatusCode::X.into_response()`
  status : ℕ → Response A
  -- a status with a text or an error message
  refuse : ℕ → String → Response A
  -- the error object of OAuth: the status, `error`, and `error_description`
  oauth_error : ℕ → String → String → Response A
  -- `Json(value)` under a status
  json : ℕ → A → Response A
  -- `201 Created` with a `Location` header
  created_at : String → Response A

abbrev pub status_of {ℓ} : {A : Type ℓ} → Response A → ℕ
status_of (status n) = n
status_of (refuse n m) = n
status_of (oauth_error n e d) = n
status_of (json n a) = n
status_of (created_at l) = 201

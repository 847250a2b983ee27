-- ===== src/Wallet.antt =====
-- The wallet of OID4VCI (crates/identity-hub-http/src/oid4vci.rs).
pub mod Network
pub mod Rules
pub mod Client
pub mod Checks
pub mod Redeem
pub mod Accepted
pub mod Contained
pub mod Attempts
use ds_identity_hub_rs.Common.{ℕ, String, List, [], ◌∷◌, Result, ok, err}
use ds_identity_hub_rs.Common.Text
use ds_identity_hub_rs.Http.{Response, json, oauth_error}

pub record RedeemedCredential : Type 0 where
  pub credential_configuration_id : String
  pub credential_type : String

pub record NotStoredCredential : Type 0 where
  pub credential_configuration_id : String
  pub format : String
  pub count : ℕ
  pub reason : String

pub record RedeemOfferResponse : Type 0 where
  pub credential_issuer : String
  pub stored : List RedeemedCredential
  pub not_stored : List NotStoredCredential

pub data WalletError : Type 0 where
  invalid_offer outbound upstream rejected : String → WalletError

-- The texts of the errors, and their status codes.
abbrev pub wallet_error_text : WalletError → String
wallet_error_text (invalid_offer e) = Text.format ("invalid offer: " ∷ e ∷ [])
wallet_error_text (outbound e) = Text.format ("outbound destination is not allowed: " ∷ e ∷ [])
wallet_error_text (upstream e) = Text.format ("credential issuer failed: " ∷ e ∷ [])
wallet_error_text (rejected e) = Text.format ("issued credential rejected: " ∷ e ∷ [])

unfoldable pub wallet_error_status : WalletError → ℕ
wallet_error_status (invalid_offer _) = 400
wallet_error_status (outbound _) = 403
wallet_error_status (rejected _) = 403
wallet_error_status (upstream _) = 502

unfoldable pub redemption_response :
    Result RedeemOfferResponse WalletError → Response RedeemOfferResponse
unfolding wallet_error_status
redemption_response (ok result) = json 200 result
redemption_response (err e) =
    oauth_error (wallet_error_status e) "redemption_failed" (wallet_error_text e)

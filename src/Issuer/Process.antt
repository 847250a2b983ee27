-- ===== src/Issuer/Process.antt =====
-- Issuance processes (crates/identity-hub-http/src/issuer.rs).
use ds_identity_hub_rs.Common.{ℕ, String, Bool, true, false, not, Option, List}

pub data ProcessState : Type 0 where
  submitted approved delivered errored rejected : ProcessState

-- The derived `PartialEq`.
abbrev pub state_eq : ProcessState → ProcessState → Bool
state_eq submitted submitted = true
state_eq approved approved = true
state_eq delivered delivered = true
state_eq errored errored = true
state_eq rejected rejected = true
state_eq _ _ = false

unfoldable pub dcp_status : ProcessState → String
dcp_status submitted = "RECEIVED"
dcp_status approved = "RECEIVED"
dcp_status delivered = "ISSUED"
dcp_status errored = "REJECTED"
dcp_status rejected = "REJECTED"

unfoldable pub is_active : ProcessState → Bool
is_active submitted = true
is_active approved = true
is_active _ = false

unfoldable pub is_terminal : ProcessState → Bool
unfolding is_active
is_terminal s = not (is_active s)

pub record IssuanceProcess : Type 0 where
  pub id : String
  pub state : ProcessState
  pub holder_id : String
  pub holder_did : String
  pub holder_pid : String
  pub credential_definitions : List String
  pub error_detail : Option String
  pub created_at : ℕ
  pub state_timestamp : ℕ
  pub delivery_bearer : Option String
  pub delivery_started : Bool

unfoldable pub transition : IssuanceProcess → ProcessState → ℕ → IssuanceProcess
transition p state now = record p { state = state; state_timestamp = now }

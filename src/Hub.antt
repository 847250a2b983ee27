-- ===== src/Hub.antt =====
-- The application's state (crates/identity-hub-http/src/state.rs) and what its handlers share
-- (crates/identity-hub-http/src/{handlers,registry_trust,config}.rs). The mutexes are held from
-- the first access to the last in the model: a handler is one step.
pub mod Presentation
pub mod Storage
pub mod Issuance
pub mod Minting
pub mod Delivery
pub mod Admin
pub mod Offers
pub mod Hosting
pub mod Hosts
use ds_identity_hub_rs.Common.{
  ℕ, String, Bool, Option, none, some, List, [], ◌∷◌, if◌then◌else◌, is_some, Result,
}
use ds_identity_hub_rs.Common.Json.{Value, string, unwrap_or, str_claim, json_object}
use ds_identity_hub_rs.Common.Text.{format}
use ds_identity_hub_rs.Messages.{CredentialContainer}
use ds_identity_hub_rs.External.{External}
use ds_identity_hub_rs.Identity.{ServiceIdentity}
use ds_identity_hub_rs.Outbound.{OutboundPolicy}
use ds_identity_hub_rs.Scope.{credential_types}
use ds_identity_hub_rs.Auth.{AuthError, verify_bearer_token, check_trusted_issuer}
use ds_identity_hub_rs.RegistryTrust.{TrustedIssuersRegistry}
use ds_identity_hub_rs.External
use ds_identity_hub_rs.Sts.{StsConfig}
use ds_identity_hub_rs.State.SeenJti.{SeenJtiCache}
use ds_identity_hub_rs.State.Requests.{RequestTable}
use ds_identity_hub_rs.Issuer.Definitions.{DefinitionCatalog}
use ds_identity_hub_rs.Issuer.Holders.{HolderRegistry, HolderStatus, approved, pending}
use ds_identity_hub_rs.Issuer.Issued.{IssuedCredentials}
use ds_identity_hub_rs.Oid4vci.{IssuerState}

pub data HolderApproval : Type 0 where
  auto manual : HolderApproval

pub data Mode : Type 0 where
  credential_service issuer_service : Mode

pub record Config : Type 0 where
  pub mode : Mode
  pub insecure_http : Bool
  pub trusted_issuer_dids : List String
  pub known_holder_pids : List String
  pub holder_approval : HolderApproval
  pub did_host : String
  pub allowed_outbound_hosts : List String
  pub trusted_issuers_registry : Option TrustedIssuersRegistry
  pub participant_context_id : String
  pub admin_token : Option String
  pub oid4vci_client_id : Option String
  pub oid4vci_offer_tx_code : Option String

abbrev scheme : Config → String
scheme config = if config.insecure_http then "http" else "https"

abbrev pub base_url : Config → String
base_url config = format (scheme config ∷ "://" ∷ config.did_host ∷ [])

pub record StoredCredentialBatch : Type 0 where
  pub issuer_pid : String
  pub holder_pid : Option String
  pub status : String
  pub rejection_reason : Option String
  pub credentials : List CredentialContainer

pub record NewAcceptedOffer : Type 0 where
  pub issuer : String
  -- the id and the type of each offered credential
  pub credentials : List (String × Option String)

-- The registry's answer for an issuer and the types at stake, where one is configured.
abbrev pub RegistryTrust : Type 0
RegistryTrust = String → List String → Result (Unit {0}) AuthError

-- The graph is kept as what was written to it, the newest first; the scope matcher is the
-- `scope_type` of the external code.
pub record AppState (x : External) : Type 0 where
  pub config : Config
  pub identity : ServiceIdentity x
  pub sts_party : ServiceIdentity x
  pub sts_config : StsConfig
  pub store : List StoredCredentialBatch
  pub accepted_offers : List NewAcceptedOffer
  pub requests : RequestTable
  pub definitions : DefinitionCatalog
  pub holders : HolderRegistry
  pub issued : IssuedCredentials
  pub outbound : OutboundPolicy
  pub registry_trust : Option RegistryTrust
  pub seen_jti : SeenJtiCache
  pub oid4vci : IssuerState

abbrev pub caller : Value → String
caller claims = unwrap_or (str_claim "iss" claims) ""

abbrev pub status_of_approval : HolderApproval → HolderStatus
status_of_approval auto = approved
status_of_approval manual = pending

module _ (x : External) where
  unfoldable pub check_issuer : AppState x → String → List String → Result (Unit {0}) AuthError
  unfolding check_trusted_issuer
  check_issuer s iss credential_types = elim s.registry_trust [
    | some registry ↦ registry iss credential_types
    | none ↦
        check_trusted_issuer (json_object (("iss", string iss) ∷ [])) s.config.trusted_issuer_dids
  ]

  abbrev pub registry_configured : AppState x → Bool
  registry_configured s = is_some s.registry_trust

  -- The first step of the handlers that a bearer token guards.
  unfoldable pub authenticate : AppState x → Option String → ℕ → AppState x × Result Value AuthError
  unfolding verify_bearer_token
  authenticate s authorization now =
      let (seen, answer) =
        verify_bearer_token x authorization s.identity.own_did s.config.insecure_http s.seen_jti
          s.outbound now in
      (record s { seen_jti = seen }, answer)

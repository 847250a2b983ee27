-- ===== src/Hub/Storage.antt =====
-- The Storage API and the Credential Offer API of a Credential Service
-- (crates/identity-hub-http/src/handlers.rs).
pub mod Accepted
use ds_identity_hub_rs.Common.{
  ℕ, String, Option, none, some, List, [], ◌∷◌, map, if◌then◌else◌, filter_map, Result, ◌>>=◌, ◌>>◌,
  ok_or, map_err, ok, err,
}
use ds_identity_hub_rs.Common.Json.{Value, as_str, str_claim}
use ds_identity_hub_rs.Messages.{
  CredentialContainer, CredentialMessage, CredentialObject, CredentialOfferMessage,
}
use ds_identity_hub_rs.External.{External}
use ds_identity_hub_rs.Auth.{AuthError, untrusted_issuer, auth_error_text}
use ds_identity_hub_rs.Validation.{
  ValidationError, validation_error_text, validate_status, check_known_holder_pid,
  check_credential_claims, verify_credential_proofs, validate_offer_credentials,
}
use ds_identity_hub_rs.Hub.{
  StoredCredentialBatch, NewAcceptedOffer, AppState, caller, check_issuer, registry_configured,
  authenticate,
}
use ds_identity_hub_rs.External
use ds_identity_hub_rs.Http.{Response, refuse, status}

abbrev pub refuse_auth : AuthError → Response (Unit {0})
refuse_auth e = refuse 401 (auth_error_text e)

abbrev pub refuse_invalid : ValidationError → Response (Unit {0})
refuse_invalid e = refuse 400 (validation_error_text e)

module _ (x : External) where
  -- The `iss` a delivered credential claims.
  unfoldable pub credential_issuer : CredentialContainer → Option String
  unfolding str_claim
  credential_issuer container = elim (as_str container.payload) [
    | none ↦ none
    | some jws ↦ elim (x.decode_jws_unverified jws) [
      | err e ↦ none
      | ok (header, payload) ↦ str_claim "iss" payload
    ]
  ]

  -- With a registry, each credential's own issuer must be trusted for its type.
  unfoldable pub check_each_issuer :
      AppState x → List CredentialContainer → Result (Unit {0}) AuthError
  unfolding credential_issuer check_issuer
  check_each_issuer s [] = ok tt
  check_each_issuer s (c ∷ cs) = do
    vc_issuer ← ok_or (credential_issuer c) (untrusted_issuer "")
    check_issuer x s vc_issuer (c.credential_type ∷ [])
    check_each_issuer s cs

  -- The checks on a message from an authenticated caller, in the order of the handler. The error
  -- is the answer.
  unfoldable pub check_message :
      AppState x → Value → CredentialMessage → ℕ → Result (Unit {0}) (Response (Unit {0}))
  unfolding check_issuer validate_status check_known_holder_pid verify_credential_proofs
      check_each_issuer check_credential_claims auth_error_text validation_error_text
  check_message s claims message now = do
    map_err refuse_auth (
        check_issuer x s (caller claims)
          (map (λ (c : CredentialContainer). c.credential_type) message.credentials))
    map_err refuse_invalid (validate_status message.status)
    map_err refuse_invalid (check_known_holder_pid message.holder_pid s.config.known_holder_pids)
    map_err refuse_invalid
        (verify_credential_proofs x message.credentials s.config.insecure_http s.outbound)
    let registry = registry_configured x s
    map_err refuse_auth (if registry then check_each_issuer s message.credentials else ok tt)
    map_err refuse_invalid (
        check_credential_claims x message.credentials s.identity.own_did
          (if registry then none else some s.config.trusted_issuer_dids) now)

  abbrev pub batch_of : CredentialMessage → StoredCredentialBatch
  batch_of message = record {
    issuer_pid = message.issuer_pid;
    holder_pid = some message.holder_pid;
    status = message.status;
    rejection_reason = message.rejection_reason;
    credentials = message.credentials;
  }

  unfoldable pub store_message :
      AppState x → Value → CredentialMessage → ℕ → AppState x × Response (Unit {0})
  unfolding check_message
  store_message s claims message now = elim (check_message s claims message now) [
    | err response ↦ (s, response)
    | ok _ ↦ (record s { store = batch_of message ∷ s.store }, status 200)
  ]

  unfoldable pub storage_write :
      AppState x → Option String → CredentialMessage → ℕ → AppState x × Response (Unit {0})
  unfolding authenticate store_message
  storage_write s authorization message now =
      let (s', answer) = authenticate x s authorization now in
      elim answer [ err e ↦ (s', refuse_auth e) | ok claims ↦ store_message s' claims message now ]

  abbrev offered_types : List CredentialObject → List String
  offered_types credentials = filter_map (λ (c : CredentialObject). c.credential_type) credentials

  unfoldable pub check_offer :
      AppState x → Value → CredentialOfferMessage → Result (Unit {0}) (Response (Unit {0}))
  unfolding check_issuer validate_offer_credentials auth_error_text validation_error_text
  check_offer s claims message = do
    map_err refuse_auth (check_issuer x s (caller claims) (offered_types message.credentials))
    map_err refuse_invalid (
        validate_offer_credentials x message.issuer message.credentials s.config.insecure_http
          s.outbound)

  abbrev pub accepted_offer : CredentialOfferMessage → NewAcceptedOffer
  accepted_offer message = record {
    issuer = message.issuer;
    credentials = map (λ (c : CredentialObject). (c.id, c.credential_type)) message.credentials;
  }

  unfoldable pub credential_offer :
      AppState x → Option String → CredentialOfferMessage → ℕ → AppState x × Response (Unit {0})
  unfolding authenticate check_offer
  credential_offer s authorization message now =
      let (s', answer) = authenticate x s authorization now in
      elim answer [
        | err e ↦ (s', refuse_auth e)
        | ok claims ↦ elim (check_offer s' claims message) [
          | err response ↦ (s', response)
          | ok _ ↦ (
            record s' { accepted_offers = accepted_offer message ∷ s'.accepted_offers },
            status 200,
          )
        ]
      ]

-- ===== src/Hub/Offers/Issue.antt =====
-- The credential endpoint of the OID4VCI issuer
-- (crates/identity-hub-http/src/oid4vci.rs). The identifiers that the code draws at random are
-- arguments.
use ds_identity_hub_rs.Common.{
  ℕ, String, true, not, Option, none, some, List, [], ◌∷◌, map, if◌then◌else◌, Result, ◌>>=◌, ◌>>◌,
  guard, ok_or, map_err, ok, err,
}
use ds_identity_hub_rs.Common.Assoc.{has}
use ds_identity_hub_rs.Common.Text.{starts_with, format}
use ds_identity_hub_rs.External.{External}
use ds_identity_hub_rs.Outbound.{error_text, check_did}
use ds_identity_hub_rs.Hub.{base_url, AppState, status_of_approval}
use ds_identity_hub_rs.Tests.{holder}
use ds_identity_hub_rs.Http.{Response, oauth_error, json}
use ds_identity_hub_rs.Issuer.Process.{IssuanceProcess}
use ds_identity_hub_rs.Issuer.Process
use ds_identity_hub_rs.Issuer.Definitions
use ds_identity_hub_rs.Issuer.Definitions.{CredentialDefinition, DefinitionCatalog}
use ds_identity_hub_rs.Issuer.Holders
use ds_identity_hub_rs.Issuer.Holders.{Holder, HolderRegistry}
use ds_identity_hub_rs.Issuer.Issued
use ds_identity_hub_rs.Issuer.StatusList
use ds_identity_hub_rs.State.Requests
use ds_identity_hub_rs.Oid4vci.{CredentialRequest, jwt_proofs}
use ds_identity_hub_rs.Oid4vci.Proof.{
  ProofKey, ProofError, did_url, jwk, malformed, wrong_type, wrong_algorithm, no_key,
  wrong_audience, stale_or_future_iat, missing_nonce, inspect_jwt_proof, holder_did,
}
use ds_identity_hub_rs.Hub.Issuance.{new_holder}
use ds_identity_hub_rs.Hub.Delivery.{release_index}
use ds_identity_hub_rs.Hub.Minting.{mint_credential, record_of}
use ds_identity_hub_rs.Hub.Offers.{use_nonce, authorized_ids}

abbrev supported_ids : DefinitionCatalog → List String
supported_ids catalog = map (λ (d : CredentialDefinition). d.id) catalog

abbrev proof_error_text : ProofError → String
proof_error_text (malformed e) = format ("proof is not a decodable JWS: " ∷ e ∷ [])
proof_error_text wrong_type = "proof typ must be 'openid4vci-proof+jwt'"
proof_error_text wrong_algorithm = "proof alg must be ES256"
proof_error_text no_key =
    "proof header must carry exactly one of kid (a DID URL) or jwk (a P-256 key)"
proof_error_text wrong_audience = "proof aud does not name this Credential Issuer"
proof_error_text stale_or_future_iat = "proof iat is missing, in the future, or too old"
proof_error_text missing_nonce = "proof carries no nonce, or not the one this issuer handed out"

module _ (x : External) where
  -- The holder of a redemption; a refusal is a status and a description.
  unfoldable pub redeeming_holder :
      AppState x → String → String → ℕ → AppState x × Result String (ℕ × String)
  redeeming_holder s did fresh_id now = elim (Holders.by_did s.holders did) [
    | some holder ↦ elim holder.status [
      | Holders.rejected ↦ (s, err (400, "holder has been rejected by this issuer"))
      | _ ↦ (s, ok holder.holder_id)
    ]
    | none ↦
        let (holders, answer) =
          Holders.insert s.holders
            (new_holder fresh_id did (status_of_approval s.config.holder_approval) now) in
        (
          record s { holders = holders },
          elim answer [
            | ok holder ↦ ok holder.holder_id
            | err e ↦ err (503, "holder registry is full")
          ],
        )
  ]

  abbrev delivered_process : CredentialDefinition → String → String → String → ℕ → IssuanceProcess
  delivered_process definition did holder_id process_id now = record {
    id = process_id;
    state = Process.delivered;
    holder_id = holder_id;
    holder_did = did;
    holder_pid = "oid4vci";
    credential_definitions = definition.id ∷ [];
    error_detail = none;
    created_at = now;
    state_timestamp = now;
    delivery_bearer = none;
    delivery_started = true;
  }

  -- The index, the process and the record of a redemption whose holder is known.
  unfoldable pub record_issuance :
      AppState x
      → CredentialDefinition
      → String
      → String
      → String
      → String
      → ℕ
      → AppState x × Result String (ℕ × String)
  unfolding mint_credential release_index
  record_issuance s definition did holder_id process_id uuid now =
      let (l, allocated) = StatusList.allocate s.issued.status_list in
      elim allocated [
        | none ↦ (s, err (503, "the revocation status list is exhausted"))
        | some index ↦
            let taken = record s.issued { status_list = l } in
            let (requests, inserted) =
              Requests.insert s.requests process_id
                (delivered_process definition did holder_id process_id now) in
            let s' = record s { requests = requests; issued = taken } in
            elim inserted [
              | err _ ↦ (
                record s' { issued = release_index taken index },
                err (503, "too many credential requests in flight"),
              )
              | ok _ ↦
                  let minted = mint_credential x s' definition did index uuid now in
                  (
                    record s' {
                      issued =
                          Issued.insert taken
                            (record_of x minted definition holder_id did process_id index);
                    },
                    ok minted.jws,
                  )
            ]
      ]

  unfoldable pub record_and_mint :
      AppState x
      → CredentialDefinition
      → String
      → String
      → String
      → String
      → ℕ
      → AppState x × Result String (ℕ × String)
  unfolding redeeming_holder record_issuance
  record_and_mint s definition did fresh_id process_id uuid now =
      let (s', holder) = redeeming_holder s did fresh_id now in
      elim holder [
        | err refusal ↦ (s', err refusal)
        | ok holder_id ↦ record_issuance s' definition did holder_id process_id uuid now
      ]

  unfoldable pub verify_proof_signature : AppState x → String → ProofKey → Result (Unit {0}) String
  unfolding starts_with check_did
  verify_proof_signature s proof (jwk a b did) = do
    key ← x.jwk_to_verifying_key a b
    x.verify_jws_signature proof key
  verify_proof_signature s proof (did_url kid did) = do
    guard (starts_with "did:web:" did) (format ("unsupported DID method in kid '" ∷ kid ∷ "'" ∷ []))
    map_err error_text (check_did x s.outbound did s.config.insecure_http)
    doc ← x.resolve_did did s.config.insecure_http
    key ← x.find_verifying_key doc kid
    x.verify_jws_signature proof key

  abbrev Refusal : Type 0
  Refusal = ℕ × String × String

  abbrev only_proof : List String → Result String Refusal
  only_proof (proof ∷ []) = ok proof
  only_proof _ = err (400, "invalid_proof", "exactly one jwt key proof is required")

  -- The checks of the credential endpoint up to the nonce: the configuration, the key and the
  -- nonce of the proof.
  unfoldable pub check_credential_request :
      AppState x
      → List String
      → CredentialRequest
      → ℕ
      → Result (String × ProofKey × Option String) Refusal
  unfolding jwt_proofs inspect_jwt_proof verify_proof_signature
  check_credential_request s ids request now = do
    config_id ← ok_or request.credential_configuration_id (
      400, "invalid_credential_request",
      "credential_configuration_id is required (credential_identifier is not supported)",
    )
    guard (has config_id (supported_ids s.definitions)) (
      400,
      "unknown_credential_configuration",
      format ("'" ∷ config_id ∷ "' is not offered by this issuer" ∷ []),
    )
    guard (has config_id ids) (
      400,
      "invalid_credential_request",
      format ("the access token does not cover '" ∷ config_id ∷ "'" ∷ []),
    )
    proof ← only_proof (jwt_proofs request)
    inspected ←
        map_err (λ e. (400, "invalid_proof", proof_error_text e))
          (inspect_jwt_proof x proof (base_url s.config) now)
    let (key, proof_nonce) = inspected
    map_err (λ e. (400, "invalid_proof", e)) (verify_proof_signature s proof key)
    ok (config_id, key, proof_nonce)

  -- The handler once the bearer's grant is known.
  unfoldable pub issue_over_oid4vci :
      AppState x
      → List String
      → CredentialRequest
      → String
      → String
      → String
      → ℕ
      → AppState x × Result String Refusal
  unfolding check_credential_request use_nonce record_and_mint
  issue_over_oid4vci s ids request fresh_id process_id uuid now =
      elim (check_credential_request s ids request now) [
        | err refusal ↦ (s, err refusal)
        | ok (config_id, key, proof_nonce) ↦
            let (issuer, nonce_ok) = use_nonce s.oid4vci proof_nonce now in
            let s' = record s { oid4vci = issuer } in
            if not nonce_ok
            then (
              s',
              err (
                400, "invalid_nonce",
                "the proof must carry an unused c_nonce from the nonce endpoint",
              ),
            )
            else elim (Definitions.get s.definitions config_id) [
              | none ↦ (
                s',
                err (
                  400,
                  "unknown_credential_configuration",
                  format ("'" ∷ config_id ∷ "' is not offered by this issuer" ∷ []),
                ),
              )
              | some definition ↦
                  let (s'', minted) =
                    record_and_mint s' definition (holder_did key) fresh_id process_id uuid now in
                  (
                    s'',
                    map_err (λ (r : ℕ × String). (r.0, "credential_request_denied", r.1)) minted,
                  )
            ]
      ]

  abbrev credential_response : Result String Refusal → Response String
  credential_response (ok jws) = json 200 jws
  credential_response (err (code, error, description)) = oauth_error code error description

  -- The answer carries the issued credential.
  unfoldable pub credential :
      AppState x
      → Option String
      → Result CredentialRequest String
      → String
      → String
      → String
      → ℕ
      → AppState x × Response String
  unfolding authorized_ids issue_over_oid4vci
  credential s authorization body fresh_id process_id uuid now =
      let (issuer, granted) = authorized_ids s.oid4vci authorization now in
      let s' = record s { oid4vci = issuer } in
      elim granted [
        | none ↦ (s', oauth_error 401 "invalid_token" "missing, unknown or expired access token")
        | some ids ↦ elim body [
          | err e ↦ (s', oauth_error 400 "invalid_credential_request" e)
          | ok request ↦
              let (s'', issued) = issue_over_oid4vci s' ids request fresh_id process_id uuid now in
              (s'', credential_response issued)
        ]
      ]

-- ===== src/Hub/Issuance.antt =====
-- The Credential Request API of an Issuer Service (crates/identity-hub-http/src/handlers.rs).
-- The identifiers that the code draws at random are arguments.
pub mod Governed
use ds_identity_hub_rs.Common.{
  ℕ, String, Bool, false, ◌&&◌, ◌||◌, Option, none, some, List, [], ◌∷◌, ◌++◌, map, ltb, leb,
  if◌then◌else◌, is_none, length, is_empty, find, all, Result, ◌>>=◌, map_err, ok, err,
}
use ds_identity_hub_rs.Common.Assoc.{has, get, insert}
use ds_identity_hub_rs.Common.Json.{Value, str_claim}
use ds_identity_hub_rs.Common.Text.{format}
use ds_identity_hub_rs.Messages.{
  CredentialRequestMessage, CredentialStatus, credential_status, CredentialObject, IssuerMetadata,
  issuer_metadata_message,
}
use ds_identity_hub_rs.External.{External}
use ds_identity_hub_rs.Auth.{auth_error_text}
use ds_identity_hub_rs.Hub.{AppState, status_of_approval, authenticate}
use ds_identity_hub_rs.External
use ds_identity_hub_rs.Http.{Response, refuse, status, created_at, json}
use ds_identity_hub_rs.Issuer.Process.{ProcessState, state_eq, IssuanceProcess, dcp_status}
use ds_identity_hub_rs.Issuer.Process
use ds_identity_hub_rs.Issuer.Holders.{Holder, HolderStatus}
use ds_identity_hub_rs.Issuer.Holders
use ds_identity_hub_rs.Issuer.Definitions
use ds_identity_hub_rs.Issuer.Definitions.{CredentialDefinition, DefinitionCatalog}
use ds_identity_hub_rs.State.Requests
use ds_identity_hub_rs.State.Requests.{RequestTable}

abbrev pub max_request_credentials : ℕ
max_request_credentials = 16

abbrev pub max_pending_processes_per_holder : ℕ
max_pending_processes_per_holder = 8

abbrev pub max_pending_processes : ℕ
max_pending_processes = 1024

-- The loop that drops repeated ids, and stops one past the limit.
unfoldable pub requested_ids : List String → List String → List String
requested_ids seen [] = seen
requested_ids seen (id ∷ ids) =
    let longer = seen ++ id ∷ [] in
    let skip = requested_ids seen ids in
    let next = requested_ids longer ids in
    if has id seen
    then skip
    else if ltb max_request_credentials (length longer)
    then longer
    else next

-- `find(|id| definitions.get(id).is_none())`.
unfoldable pub unknown_id : DefinitionCatalog → List String → Option String
unknown_id catalog ids = find (λ id. is_none (Definitions.get catalog id)) ids

abbrev pub new_holder : String → String → HolderStatus → ℕ → Holder
new_holder holder_id did s now = record {
  holder_id = holder_id;
  did = did;
  name = none;
  properties = [];
  status = s;
  created_at = now;
}

-- The state in which a holder's process starts; `none` is a refusal.
unfoldable pub first_state : HolderStatus → Option ProcessState
first_state Holders.rejected = none
first_state Holders.pending = some Process.submitted
first_state Holders.approved = some Process.approved

module _ (x : External) where
  -- The caller's holder record, registered on its first request.
  unfoldable pub holder_for :
      AppState x → String → String → ℕ → AppState x × Result Holder (Response (Unit {0}))
  holder_for s did fresh_id now = elim (Holders.by_did s.holders did) [
    | some holder ↦ (s, ok holder)
    | none ↦
        let (holders, answer) =
          Holders.insert s.holders
            (new_holder fresh_id did (status_of_approval s.config.holder_approval) now) in
        (record s { holders = holders }, map_err (λ _. refuse 503 "holder registry is full") answer)
  ]

  abbrev pub over_caps : RequestTable → String → Bool
  over_caps requests holder_id =
      let (mine, all) = Requests.pending_counts requests holder_id in
      leb max_pending_processes_per_holder mine || leb max_pending_processes all

  -- The admission of a new process to the table.
  unfoldable pub admit :
      AppState x → IssuanceProcess → AppState x × Result (Unit {0}) (Response (Unit {0}))
  admit s process =
      if state_eq process.state Process.submitted && over_caps s.requests process.holder_id
      then (s, err (refuse 503 "too many credential requests awaiting approval"))
      else let (requests, inserted) = Requests.insert s.requests process.id process in
        (
          record s { requests = requests },
          map_err (λ _. refuse 503 "too many credential requests in flight") inserted,
        )

  unfoldable pub new_process :
      CredentialRequestMessage
      → Value
      → Holder
      → ProcessState
      → List String
      → String
      → String
      → ℕ
      → IssuanceProcess
  unfolding str_claim
  new_process message claims holder state ids holder_did process_id now = record {
    id = process_id;
    state = state;
    holder_id = holder.holder_id;
    holder_did = holder_did;
    holder_pid = message.holder_pid;
    credential_definitions = ids;
    error_detail = none;
    created_at = now;
    state_timestamp = now;
    delivery_bearer = str_claim "token" claims;
    delivery_started = false;
  }

  -- The checks on the ids, before the holder is looked up.
  unfoldable pub check_ids :
      DefinitionCatalog → List String → Result (Unit {0}) (Response (Unit {0}))
  unfolding unknown_id
  check_ids catalog ids =
      if is_empty ids
      then err (refuse 400 "credentials must not be empty")
      else if ltb max_request_credentials (length ids)
      then err (refuse 400 "at most 16 distinct credential ids per request")
      else elim (unknown_id catalog ids) [
        | some unknown ↦ err (refuse 400 (format ("unknown credential id: '" ∷ unknown ∷ "'" ∷ [])))
        | none ↦ ok tt
      ]

  -- The part of the handler under the locks, once the holder is known.
  unfoldable pub start_process :
      AppState x
      → CredentialRequestMessage
      → Value
      → Holder
      → List String
      → String
      → String
      → ℕ
      → AppState x × Result IssuanceProcess (Response (Unit {0}))
  unfolding first_state admit new_process
  start_process s message claims holder ids holder_did process_id now =
      elim (first_state holder.status) [
        | none ↦ (s, err (refuse 403 "holder has been rejected by this issuer"))
        | some state ↦
            let process = new_process message claims holder state ids holder_did process_id now in
            let (s', admitted) = admit s process in (s', admitted >>= λ _. ok process)
      ]

  -- The handler after its token; the process it made, or the answer that refuses.
  unfoldable pub govern_request :
      AppState x
      → Value
      → CredentialRequestMessage
      → String
      → String
      → ℕ
      → AppState x × Result IssuanceProcess (Response (Unit {0}))
  unfolding str_claim requested_ids check_ids holder_for start_process
  govern_request s claims message process_id holder_uuid now = elim (str_claim "sub" claims) [
    | none ↦ (s, err (refuse 400 "token has no sub claim"))
    | some holder_did ↦
        let ids = requested_ids [] message.credentials in
        elim (check_ids s.definitions ids) [
          | err response ↦ (s, err response)
          | ok _ ↦
              let (s', found) = holder_for s holder_did holder_uuid now in
              elim found [
                | err response ↦ (s', err response)
                | ok holder ↦ start_process s' message claims holder ids holder_did process_id now
              ]
        ]
  ]

  -- The last component is the process whose delivery is spawned.
  unfoldable pub credential_request :
      AppState x
      → Option String
      → CredentialRequestMessage
      → String
      → String
      → ℕ
      → AppState x × Response (Unit {0}) × Option String
  unfolding authenticate govern_request
  credential_request s authorization message process_id holder_uuid now =
      let (s', answer) = authenticate x s authorization now in
      elim answer [
        | err e ↦ (s', refuse 401 (auth_error_text e), none)
        | ok claims ↦
            let (s'', governed) = govern_request s' claims message process_id holder_uuid now in
            elim governed [
              | err response ↦ (s'', response, none)
              | ok process ↦ (
                s'',
                created_at (format ("/requests/" ∷ process_id ∷ [])),
                if state_eq process.state Process.approved then some process_id else none,
              )
            ]
      ]

  unfoldable pub request_status : AppState x → String → Response CredentialStatus
  unfolding dcp_status
  request_status s id = elim (Requests.get s.requests id) [
    | some r ↦ json 200 (credential_status r.id r.holder_pid (dcp_status r.state))
    | none ↦ status 404
  ]

abbrev pub credential_object : CredentialDefinition → CredentialObject
credential_object definition = record {
  context = none;
  id = definition.id;
  object_type = "CredentialObject";
  credential_type = some definition.credential_type;
  binding_methods = some ("did:web" ∷ []);
  credential_schema = none;
  profile = some "vc10-sl2021/jwt";
  issuance_policy = none;
  offer_reason = none;
}

unfoldable pub issuer_metadata : (x : External) → AppState x → IssuerMetadata
issuer_metadata x s =
    issuer_metadata_message s.identity.own_did (map credential_object s.definitions)

-- ===== src/Hub/Delivery.antt =====
-- The delivery of issued credentials (crates/identity-hub-http/src/handlers.rs). The code holds
-- no lock between the steps `claim`, `mint_all` and `finish`; each is one step here.
pub mod Posted
pub mod Outcome
pub mod Restored
pub mod Runs
pub mod Lifecycle
use ds_identity_hub_rs.Common.{
  ℕ, ◌+◌, String, Bool, true, false, ◌&&◌, Option, none, some, List, [], ◌∷◌, ◌++◌, ltb, leb,
  if◌then◌else◌, Result, ◌>>=◌, ◌>>◌, guard, ok_or, map_err, ok, err,
}
use ds_identity_hub_rs.Common.Assoc.{get, insert, modify}
use ds_identity_hub_rs.Common.Json.{Value, string, unwrap_or, json_object, json_num}
use ds_identity_hub_rs.Common.Text.{format}
use ds_identity_hub_rs.Messages.{dcp_context, CredentialContainer, CredentialMessage}
use ds_identity_hub_rs.External.{External}
use ds_identity_hub_rs.Outbound.{error_text, check_url, check_did}
use ds_identity_hub_rs.Hub.{AppState}
use ds_identity_hub_rs.Tests.{process}
use ds_identity_hub_rs.Hub.Minting.{MintedCredential, mint_credential, record_of}
use ds_identity_hub_rs.External
use ds_identity_hub_rs.Issuer.Process.{ProcessState, state_eq, IssuanceProcess, transition}
use ds_identity_hub_rs.Issuer.Process
use ds_identity_hub_rs.Issuer.Definitions
use ds_identity_hub_rs.Issuer.Definitions.{CredentialDefinition, DefinitionCatalog}
use ds_identity_hub_rs.Issuer.Issued
use ds_identity_hub_rs.Issuer.Issued.{IssuedCredential, IssuedCredentials}
use ds_identity_hub_rs.Issuer.StatusList
use ds_identity_hub_rs.State.Requests
use ds_identity_hub_rs.State.Requests.{RequestTable}

pub record DeliveryJob : Type 0 where
  pub process_id : String
  pub holder_id : String
  pub holder_pid : String
  pub holder_did : String
  pub delivery_bearer : Option String
  pub definitions : List CredentialDefinition

-- What a delivery has made: the indexes it took, the containers and the records.
pub record Batch : Type 0 where
  pub allocated : List ℕ
  pub containers : List CredentialContainer
  pub records : List IssuedCredential

abbrev pub started : IssuanceProcess → IssuanceProcess
started p = record p { delivery_started = true }

-- Only a process that is still approved is delivered.
unfoldable pub claim : RequestTable → String → RequestTable × Option IssuanceProcess
claim requests process_id = elim (Requests.get requests process_id) [
  | none ↦ (requests, none)
  | some process ↦
      if state_eq process.state Process.approved
      then (Requests.modify requests process_id started, some (started process))
      else (requests, none)
]

unfoldable pub definitions_of :
    DefinitionCatalog → List String → Result (List CredentialDefinition) String
definitions_of catalog [] = ok []
definitions_of catalog (id ∷ ids) = do
  definition ←
      ok_or (Definitions.get catalog id)
        (format ("credential definition '" ∷ id ∷ "' no longer exists" ∷ []))
  rest ← definitions_of catalog ids
  ok (definition ∷ rest)

-- The release of one index; an index past the bits, where the code panics, changes nothing.
unfoldable pub release_index : IssuedCredentials → ℕ → IssuedCredentials
release_index issued index = record issued {
  status_list = unwrap_or (StatusList.release issued.status_list index) issued.status_list;
}

unfoldable pub release_all : IssuedCredentials → List ℕ → IssuedCredentials
unfolding release_index
release_all issued [] = issued
release_all issued (index ∷ indexes) = release_all (release_index issued index) indexes

unfoldable pub insert_all : IssuedCredentials → List IssuedCredential → IssuedCredentials
insert_all issued [] = issued
insert_all issued (r ∷ rs) = insert_all (Issued.insert issued r) rs

-- The last step: the records of a success, or the released indexes of a failure, and the state.
unfoldable pub finish_process :
    Result (List IssuedCredential) String → ℕ → IssuanceProcess → IssuanceProcess
unfolding transition
finish_process (ok records) now p = record (transition p Process.delivered now) {
  error_detail = none;
}
finish_process (err e) now p = record (transition p Process.errored now) { error_detail = some e }

module _ (x : External) where
  -- The loop over the definitions. `uuid` is the identifier drawn for the credential at an index.
  unfoldable pub mint_all :
      AppState x
      → DeliveryJob
      → List CredentialDefinition
      → (ℕ → String)
      → ℕ
      → Batch
      → AppState x × Batch × Bool
  unfolding mint_credential
  mint_all s job [] uuid now batch = (s, batch, true)
  mint_all s job (d ∷ ds) uuid now batch =
      let (l, allocated) = StatusList.allocate s.issued.status_list in
      elim allocated [
        | none ↦ (s, batch, false)
        | some index ↦
            let s' = record s { issued = record s.issued { status_list = l } } in
            let minted = mint_credential x s' d job.holder_did index (uuid index) now in
            mint_all s' job ds uuid now (record {
              allocated = batch.allocated ++ index ∷ [];
              containers =
                  batch.containers
                  ++ (record {
                    credential_type = d.credential_type;
                    payload = string minted.jws;
                    format = "jwt";
                  })
                    ∷ [];
              records =
                  batch.records
                  ++ record_of x minted d job.holder_id job.holder_did job.process_id index ∷ [];
            })
      ]

  -- The checks before the first credential is signed, with the endpoint to deliver to.
  unfoldable pub delivery_endpoint : AppState x → String → Result String String
  unfolding check_did check_url
  delivery_endpoint s holder_did = do
    map_err error_text (check_did x s.outbound holder_did s.config.insecure_http)
    holder_doc ← x.resolve_did holder_did s.config.insecure_http
    endpoint ← x.service_endpoint_url holder_doc "CredentialService"
    map_err error_text (check_url x s.outbound endpoint)
    ok endpoint

  unfoldable pub si_payload : AppState x → DeliveryJob → ℕ → String → Value
  si_payload s job now jti = json_object (
      ("iss", string s.identity.own_did)
      ∷ ("sub", string s.identity.own_did)
      ∷ ("aud", string job.holder_did)
      ∷ ("iat", json_num now)
      ∷ ("nbf", json_num now)
      ∷ ("exp", json_num (now + 300))
      ∷ ("jti", string jti)
      ∷ (elim job.delivery_bearer [ none ↦ [] | some t ↦ ("token", string t) ∷ [] ]))

  abbrev delivery_message : DeliveryJob → List CredentialContainer → CredentialMessage
  delivery_message job containers = record {
    context = dcp_context;
    message_type = "CredentialMessage";
    issuer_pid = job.process_id;
    holder_pid = job.holder_pid;
    status = "ISSUED";
    credentials = containers;
    rejection_reason = none;
  }

  -- The request to the holder's Storage API.
  unfoldable pub post :
      AppState x → DeliveryJob → String → Batch → ℕ → String → Result (Unit {0}) String
  unfolding si_payload
  post s job endpoint batch now jti = do
    let si_token =
        x.sign_jws (si_payload s job now jti) s.identity.signing_key s.identity.own_key_id
    answer ← x.post_credentials endpoint si_token (delivery_message job batch.containers)
    guard (leb 200 answer && ltb answer 300)
        (format ("Storage API returned HTTP " ∷ x.display answer ∷ []))

  abbrev pub empty_batch : Batch
  empty_batch = record { allocated = []; containers = []; records = [] }

  -- The second component lists the indexes that were taken.
  unfoldable pub try_deliver_issued_credential :
      AppState x
      → DeliveryJob
      → (ℕ → String)
      → ℕ
      → String
      → AppState x × List ℕ × Result (List IssuedCredential) String
  unfolding delivery_endpoint mint_all post
  try_deliver_issued_credential s job uuid now jti = elim (delivery_endpoint s job.holder_did) [
    | err e ↦ (s, [], err e)
    | ok endpoint ↦
        let (s', batch, complete) = mint_all s job job.definitions uuid now empty_batch in
        (
          s',
          batch.allocated,
          (guard complete
                  "the revocation status list is exhausted; no further credentials can be issued"
                >> post s' job endpoint batch now jti)
              >>= λ _. ok batch.records,
        )
  ]

  abbrev pub job_of : IssuanceProcess → List CredentialDefinition → DeliveryJob
  job_of p definitions = record {
    process_id = p.id;
    holder_id = p.holder_id;
    holder_pid = p.holder_pid;
    holder_did = p.holder_did;
    delivery_bearer = p.delivery_bearer;
    definitions = definitions;
  }

  -- An attempt that fails hands its indexes back.
  unfoldable pub attempt :
      AppState x
      → IssuanceProcess
      → (ℕ → String)
      → ℕ
      → String
      → AppState x × Result (List IssuedCredential) String
  unfolding definitions_of try_deliver_issued_credential release_all
  attempt s process uuid now jti =
      elim (definitions_of s.definitions process.credential_definitions) [
        | err e ↦ (s, err e)
        | ok definitions ↦
            let (s', allocated, outcome) =
              try_deliver_issued_credential s (job_of process definitions) uuid now jti in
            elim outcome [
              | ok records ↦ (s', ok records)
              | err e ↦ (record s' { issued = release_all s'.issued allocated }, err e)
            ]
      ]

  unfoldable pub finish :
      AppState x → String → Result (List IssuedCredential) String → ℕ → AppState x
  unfolding insert_all finish_process
  finish s process_id outcome now = record s {
    issued = elim outcome [ ok records ↦ insert_all s.issued records | err e ↦ s.issued ];
    requests = Requests.modify s.requests process_id (finish_process outcome now);
  }

  unfoldable pub deliver_issued_credential :
      AppState x → String → (ℕ → String) → ℕ → String → AppState x
  unfolding claim attempt finish
  deliver_issued_credential s process_id uuid now jti =
      let (requests, claimed) = claim s.requests process_id in
      elim claimed [
        | none ↦ s
        | some process ↦
            let (s', outcome) = attempt (record s { requests = requests }) process uuid now jti in
            finish s' process_id outcome now
      ]

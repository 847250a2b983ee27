-- ===== src/Hub/Admin.antt =====
-- The Issuer Admin API (crates/identity-hub-http/src/admin.rs). A request's body is what serde
-- made of it.
pub mod Decisions
pub mod Gate
pub mod Queries
use ds_identity_hub_rs.Common.{
  ℕ, String, Bool, false, not, ◌&&◌, ◌||◌, Option, none, some, List, [], ◌∷◌, map, ◌==◌,
  if◌then◌else◌, is_none, any, retain, Result, ◌>>=◌, map_err, ok, err,
}
use ds_identity_hub_rs.Common.Assoc.{has, get, insert, remove, modify, modify_all}
use ds_identity_hub_rs.Common.Json.{unwrap_or}
use ds_identity_hub_rs.Common.Text.{is_blank, starts_with, format}
use ds_identity_hub_rs.External.{External}
use ds_identity_hub_rs.Hub.{AppState}
use ds_identity_hub_rs.Tests.{process, holder}
use ds_identity_hub_rs.External
use ds_identity_hub_rs.Http.{Response, refuse, status, json}
use ds_identity_hub_rs.Issuer.Error.{IssuerError, not_found, invalid, into_response}
use ds_identity_hub_rs.Issuer.Process.{
  ProcessState, state_eq, is_active, IssuanceProcess, transition,
}
use ds_identity_hub_rs.Issuer.Process
use ds_identity_hub_rs.Issuer.Definitions
use ds_identity_hub_rs.Issuer.Definitions.{CredentialDefinition, CredentialDefinitionInput}
use ds_identity_hub_rs.Issuer.Issued
use ds_identity_hub_rs.Issuer.Issued.{IssuedCredential, CredentialRecordStatus}
use ds_identity_hub_rs.Issuer.Holders
use ds_identity_hub_rs.Issuer.Holders.{Holder, HolderStatus, HolderRegistration, HolderUpdate}
use ds_identity_hub_rs.State.Requests
use ds_identity_hub_rs.State.Requests.{RequestTable}

abbrev pub parse_body {ℓ} : {A : Type ℓ} → Result A String → Result A IssuerError
parse_body b = map_err (λ e. invalid (format ("invalid request body: " ∷ e ∷ []))) b

abbrev no_definition : String → String
no_definition id = format ("no credential definition '" ∷ id ∷ "'" ∷ [])

abbrev no_holder : String → String
no_holder id = format ("no holder '" ∷ id ∷ "'" ∷ [])

abbrev no_credential : String → String
no_credential id = format ("no issued credential '" ∷ id ∷ "'" ∷ [])

-- The processes that a decision moves.
unfoldable pub is_moved : String → ProcessState → IssuanceProcess → Bool
is_moved holder_id next p =
    p.holder_id == holder_id
    && (state_eq p.state Process.submitted
        || (state_eq next Process.rejected
            && state_eq p.state Process.approved
            && not p.delivery_started))

unfoldable pub decided : String → ProcessState → ℕ → IssuanceProcess → IssuanceProcess
unfolding is_moved transition
decided holder_id next now p = if is_moved holder_id next p then transition p next now else p

abbrev moved_ids : String → ProcessState → RequestTable → List String
moved_ids holder_id next t =
    map (λ (p : IssuanceProcess). p.id) (retain (is_moved holder_id next) (Requests.iter t))

abbrev patch : HolderUpdate → Holder → Holder
patch update h = record h {
  name = (elim update.name [ none ↦ h.name | some n ↦ some n ]);
  properties = unwrap_or update.properties h.properties;
}

abbrev admitted : String → HolderRegistration → ℕ → Holder
admitted uuid r now = record {
  holder_id = unwrap_or r.holder_id uuid;
  did = r.did;
  name = r.name;
  properties = unwrap_or r.properties [];
  status = Holders.approved;
  created_at = now;
}

module _ (x : External) where
  unfoldable pub create_definition :
      AppState x
      → Result CredentialDefinitionInput String
      → ℕ
      → AppState x × Response CredentialDefinition
  create_definition s body now =
      elim (parse_body body >>= λ input. Definitions.into_definition input now) [
        | err e ↦ (s, into_response e)
        | ok definition ↦
            let (catalog, created) = Definitions.create s.definitions definition in
            (
              record s { definitions = catalog },
              elim created [ ok _ ↦ json 201 definition | err e ↦ into_response e ],
            )
      ]

  unfoldable pub update_definition :
      AppState x
      → Result CredentialDefinitionInput String
      → ℕ
      → AppState x × Response CredentialDefinition
  update_definition s body now =
      elim (parse_body body >>= λ input. Definitions.into_definition input now) [
        | err e ↦ (s, into_response e)
        | ok definition ↦
            let (catalog, answer) = Definitions.update s.definitions definition in
            (
              record s { definitions = catalog },
              elim answer [ ok updated ↦ json 200 updated | err e ↦ into_response e ],
            )
      ]

  unfoldable pub get_definition : AppState x → String → Response CredentialDefinition
  get_definition s id = elim (Definitions.get s.definitions id) [
    | some definition ↦ json 200 definition
    | none ↦ refuse 404 (no_definition id)
  ]

  abbrev pub in_use : AppState x → String → Bool
  in_use s id =
      any (λ (p : IssuanceProcess). is_active p.state && has id p.credential_definitions)
        (Requests.iter s.requests)

  unfoldable pub delete_definition : AppState x → String → AppState x × Response (Unit {0})
  delete_definition s id =
      if is_none (Definitions.get s.definitions id)
      then (s, refuse 404 (no_definition id))
      else if in_use s id
      then (
        s,
        refuse 409 (
            format (
              "credential definition '" ∷ id ∷ "' is referenced by an active issuance process"
              ∷ [])),
      )
      else (record s { definitions = (Definitions.remove s.definitions id).0 }, status 204)

  unfoldable pub register_holder :
      AppState x → Result HolderRegistration String → String → ℕ → AppState x × Response Holder
  register_holder s body uuid now = elim (parse_body body) [
    | err e ↦ (s, into_response e)
    | ok registration ↦
        if not (starts_with "did:" registration.did)
        then (s, refuse 400 "did must be a DID (did:...)")
        else if elim registration.holder_id [ none ↦ false | some id ↦ is_blank id ]
        then (s, refuse 400 "holderId must not be empty")
        else let (holders, answer) = Holders.insert s.holders (admitted uuid registration now) in
          (
            record s { holders = holders },
            elim answer [ ok holder ↦ json 201 holder | err e ↦ into_response e ],
          )
  ]

  unfoldable pub update_holder :
      AppState x → Result HolderUpdate String → AppState x × Response Holder
  update_holder s body = elim (parse_body body) [
    | err e ↦ (s, into_response e)
    | ok update ↦ elim (Holders.get s.holders update.holder_id) [
      | none ↦ (s, refuse 404 (no_holder update.holder_id))
      | some holder ↦ (
        record s { holders = Holders.modify s.holders update.holder_id (patch update) },
        json 200 (patch update holder),
      )
    ]
  ]

  unfoldable pub get_holder : AppState x → String → Response Holder
  get_holder s holder_id = elim (Holders.get s.holders holder_id) [
    | some holder ↦ json 200 holder
    | none ↦ refuse 404 (no_holder holder_id)
  ]

  abbrev with_status : HolderStatus → Holder → Holder
  with_status decision h = record h { status = decision }

  -- The answer lists the ids of the moved processes; the code's order is a hash map's.
  unfoldable pub decide_holder :
      AppState x
      → String
      → HolderStatus
      → ProcessState
      → ℕ
      → AppState x × Result (Holder × List String) IssuerError
  unfolding decided
  decide_holder s holder_id decision next now = elim (Holders.get s.holders holder_id) [
    | none ↦ (s, err (not_found (no_holder holder_id)))
    | some holder ↦ (
      record s {
        holders = Holders.modify s.holders holder_id (with_status decision);
        requests = Requests.modify_all s.requests (decided holder_id next now);
      },
      ok (with_status decision holder, moved_ids holder_id next s.requests),
    )
  ]

  -- The last component lists the processes whose delivery is spawned.
  unfoldable pub approve_holder :
      AppState x → String → ℕ → AppState x × Response Holder × List String
  unfolding decide_holder
  approve_holder s holder_id now =
      let (s', answer) = decide_holder s holder_id Holders.approved Process.approved now in
      elim answer [
        | ok (holder, moved) ↦ (s', json 200 holder, moved)
        | err e ↦ (s', into_response e, [])
      ]

  unfoldable pub reject_holder : AppState x → String → ℕ → AppState x × Response Holder
  unfolding decide_holder
  reject_holder s holder_id now =
      let (s', answer) = decide_holder s holder_id Holders.rejected Process.rejected now in
      (s', elim answer [ ok (holder, moved) ↦ json 200 holder | err e ↦ into_response e ])

  unfoldable pub get_process : AppState x → String → Response IssuanceProcess
  get_process s id = elim (Requests.get s.requests id) [
    | some process ↦ json 200 process
    | none ↦ refuse 404 (format ("no issuance process '" ∷ id ∷ "'" ∷ []))
  ]

  unfoldable pub issued_status : AppState x → String → Response CredentialRecordStatus
  issued_status s id = elim (Issued.get s.issued id) [
    | some r ↦ json 200 r.status
    | none ↦ refuse 404 (no_credential id)
  ]

  -- `none` is a panic of the status list.
  unfoldable pub revoke_credential :
      AppState x → String → Option (AppState x × Response IssuedCredential)
  revoke_credential s id = elim (Issued.revoke s.issued id) [
    | none ↦ none
    | some (issued, answer) ↦ some (
      record s { issued = issued },
      elim answer [ some r ↦ json 200 r | none ↦ refuse 404 (no_credential id) ],
    )
  ]

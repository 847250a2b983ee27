-- ===== src/Tests/Processes.antt =====
-- Examples of the properties on issuance processes and their delivery.
use ds_identity_hub_rs.Common.{
  ℕ, String, ◌≡◌, refl, ◌↔◌, true, false, none, some, [], ◌∷◌, arith, ok, err,
}
use ds_identity_hub_rs.Common.Assoc.{Assoc, get, insert, modify}
use ds_identity_hub_rs.Common.Json.{member, str_claim}
use ds_identity_hub_rs.Messages.{CredentialRequestMessage}
use ds_identity_hub_rs.Tests.{alice, token_claims, world, process, holder, two_processes, hub}
use ds_identity_hub_rs.Common.Assoc
use ds_identity_hub_rs.Issuer.Process
use ds_identity_hub_rs.Issuer.Process.{
  ProcessState, IssuanceProcess, is_terminal, is_active, transition, state_eq,
}
use ds_identity_hub_rs.Issuer.Holders
use ds_identity_hub_rs.State.Requests
use ds_identity_hub_rs.State.Requests.{table_full, max_tracked_requests}
use ds_identity_hub_rs.State.Requests.Room.{IsTracked, IsFull}
use ds_identity_hub_rs.State.Requests.Retention.{
  insert-IsTracked, insert_keeps_active, insert-IsFull_iff,
}
use ds_identity_hub_rs.Hub.Admin.{decide_holder}
use ds_identity_hub_rs.Hub.Admin.Decisions.{Step, approval, decide_holder-Step}
use ds_identity_hub_rs.Hub.Delivery.{attempt, started, deliver_issued_credential}
use ds_identity_hub_rs.Hub.Delivery.Outcome.{Ended, deliver-Ended}
use ds_identity_hub_rs.Hub.Issuance.{start_process, first_state, admit, new_process}
use ds_identity_hub_rs.Hub.Issuance.Governed.{StartsIn, AreBelowCaps, start_process-held}

two-IsTracked : IsTracked two_processes
unfolding Assoc.get
two-IsTracked = record { same = refl; distinct = (refl, (refl, tt)); bounded = omega arith }

absent : Requests.get two_processes "p3" ≡ none
unfolding Requests.get Assoc.get
absent = refl

p1_held : Requests.get two_processes "p1" ≡ some (process "p1" Process.submitted)
unfolding Requests.get Assoc.get
p1_held = refl

p2_held : Requests.get two_processes "p2" ≡ some (process "p2" Process.approved)
unfolding Requests.get Assoc.get
p2_held = refl

p1_active : is_active Process.submitted ≡ true
unfolding is_active
p1_active = refl

abbrev third : IssuanceProcess
third = process "p3" Process.submitted

insert-IsTracked_example : IsTracked (Requests.insert two_processes "p3" third).0
insert-IsTracked_example = insert-IsTracked two_processes "p3" third two-IsTracked absent

insert_keeps_active_example :
    Requests.get (Requests.insert two_processes "p3" third).0 "p1"
    ≡ some (process "p1" Process.submitted)
insert_keeps_active_example =
    insert_keeps_active two_processes "p3" third "p1" (process "p1" Process.submitted) two-IsTracked
      absent p1_held p1_active

insert-IsFull_iff_example :
    (((Requests.insert two_processes "p3" third).1 ≡ err table_full) ↔ IsFull two_processes)
    × (((Requests.insert two_processes "p3" third).1 ≡ err table_full)
        → (Requests.insert two_processes "p3" third).0 ≡ two_processes)
    × (((Requests.insert two_processes "p3" third).1 ≡ ok tt)
        → Requests.get (Requests.insert two_processes "p3" third).0 "p3" ≡ some third)
insert-IsFull_iff_example = insert-IsFull_iff two_processes "p3" third two-IsTracked

decide_holder-Step_example :
    (q : IssuanceProcess) × (Requests.get
        (decide_holder world hub "h1" Holders.approved Process.approved 50).0.requests
        "p1"
      ≡ some q)
    × Step (process "p1" Process.submitted) q
decide_holder-Step_example =
    decide_holder-Step world hub "h1" 50 Holders.approved Process.approved "p1"
      (process "p1" Process.submitted) approval p1_held

abbrev waiting_process : IssuanceProcess
waiting_process = process "p1" Process.submitted

abbrev rejected_process : IssuanceProcess
rejected_process = process "p1" Process.rejected

abbrev drawn : ℕ → String
drawn i = "u"

deliver-Ended_example :
    (q : IssuanceProcess) × (Requests.get
        (deliver_issued_credential world hub "p2" drawn 60 "j9").requests
        "p2"
      ≡ some q)
    × Ended world hub
        (deliver_issued_credential world hub "p2" drawn 60 "j9")
        (process "p2" Process.approved)
        (attempt world
          (record hub { requests = Requests.modify hub.requests "p2" started })
          (started (process "p2" Process.approved))
          drawn
          60
          "j9").1
        q
deliver-Ended_example =
    deliver-Ended world hub "p2" (process "p2" Process.approved) drawn 60 "j9" p2_held refl

abbrev request : CredentialRequestMessage
request = record {
  context = [];
  message_type = "CredentialRequestMessage";
  holder_pid = "pid";
  credentials = "membership" ∷ [];
}

abbrev fresh_process : IssuanceProcess
fresh_process = record {
  id = "p3";
  state = Process.approved;
  holder_id = "h1";
  holder_did = alice;
  holder_pid = "pid";
  credential_definitions = "membership" ∷ [];
  error_detail = none;
  created_at = 7;
  state_timestamp = 7;
  delivery_bearer = some "signed";
  delivery_started = false;
}

request_started :
    (start_process world hub request token_claims holder ("membership" ∷ []) alice "p3" 7).1
    ≡ ok fresh_process
unfolding start_process first_state admit new_process str_claim member Assoc.get Requests.insert
    Requests.make_room
request_started = refl

start_process-held_example :
    (Requests.get
        (start_process world hub request token_claims holder
          ("membership" ∷ [])
          alice
          "p3"
          7).0.requests
        "p3"
      ≡ some fresh_process)
    × StartsIn holder.status fresh_process.state
    × (fresh_process.holder_id ≡ holder.holder_id)
    × (fresh_process.credential_definitions ≡ "membership" ∷ [])
    × (fresh_process.state ≡ Process.submitted → AreBelowCaps hub.requests holder.holder_id)
start_process-held_example =
    start_process-held world hub request token_claims holder ("membership" ∷ []) alice "p3" 7
      fresh_process two-IsTracked request_started

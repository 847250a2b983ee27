-- ===== src/Tests/Tokens.antt =====
-- Examples of the properties on tokens, presentations and delivered credentials.
use ds_identity_hub_rs.Common.{
  ℕ, String, ◌≡◌, refl, ◌↔◌, ◌⊎◌, inl, inr, true, false, not, none, some, List, [], ◌∷◌, arith,
  ◌==◌, if◌then◌else◌, Bool-cases, All, ok, err,
}
use ds_identity_hub_rs.Common.Assoc.{Assoc, has, get, insert}
use ds_identity_hub_rs.Common.Json.{member, str_claim, u64_claim}
use ds_identity_hub_rs.Common.Text.{is_whitespace, strip_prefix}
use ds_identity_hub_rs.Messages.{CredentialContainer, CredentialMessage}
use ds_identity_hub_rs.Outbound.{check_url, check_did}
use ds_identity_hub_rs.Scope.{dedup, credential_types, split_scope_string}
use ds_identity_hub_rs.Auth.{
  nested_token_not_bound_to_caller, check_envelope, check_replay, verify_bearer_token,
  verify_nested_access_token,
}
use ds_identity_hub_rs.Validation.{
  pointer, has_type, is_within_validity, subject_of, check_claims, check_credential_claims,
}
use ds_identity_hub_rs.Tests.{
  alice, hub_did, sts_did, key_header, token_claims, world, party, three_claims, hub, vc_container,
}
use ds_identity_hub_rs.Common.Assoc
use ds_identity_hub_rs.Http.{Response, status}
use ds_identity_hub_rs.Sts.{StsTokenRequest, access_token_payload, constant_time_eq}
use ds_identity_hub_rs.Sts.Token.{IsSigned, access_token_payload-verify, presenter}
use ds_identity_hub_rs.Sts.Compare.{constant_time_eq_iff}
use ds_identity_hub_rs.Auth.Verified.{IsGenuine, verify_bearer_token-IsGenuine}
use ds_identity_hub_rs.State.SeenJti
use ds_identity_hub_rs.State.SeenJti.{SeenJtiCache}
use ds_identity_hub_rs.State.SeenJti.Window.{IsTracked, slide, insert-slide}
use ds_identity_hub_rs.State.SeenJti.Replay.{insert_all, insert-replay}
use ds_identity_hub_rs.Validation.Claims.{IsBound, check_credential_claims-IsBound}
use ds_identity_hub_rs.Hub.Presentation.{
  granted_credential_types, matched_credentials, presentable, first_of_each, is_current,
}
use ds_identity_hub_rs.Hub.Presentation.Granted.{AnswersTypes, MayShow, matched_credentials-MayShow}
use ds_identity_hub_rs.Hub.Storage.{store_message, batch_of}
use ds_identity_hub_rs.Hub.Storage.Accepted.{IsVetted, store_message-IsVetted, IsRefusal}

abbrev member_store : List String → List CredentialContainer
member_store types = if has "member" types then vc_container ∷ [] else []

member_store_answers : AnswersTypes world member_store
member_store_answers types = elim (Bool-cases (has "member" types)) [
  | inl e ↦ rw e (e, tt)
  | inr e ↦ rw e tt
]

matched_member :
    matched_credentials world hub member_store token_claims ("member" ∷ "other" ∷ []) 1100
    ≡ ok (vc_container ∷ [])
unfolding matched_credentials granted_credential_types verify_nested_access_token str_claim member
    u64_claim Assoc.get split_scope_string credential_types dedup presentable first_of_each
    is_current is_within_validity is_whitespace
matched_member = refl

matched_credentials-MayShow_example :
    All
      (MayShow world hub token_claims (credential_types world ("member" ∷ "other" ∷ [])) 1100)
      (vc_container ∷ [])
matched_credentials-MayShow_example =
    matched_credentials-MayShow world hub member_store token_claims ("member" ∷ "other" ∷ []) 1100
      (vc_container ∷ []) member_store_answers matched_member

token_accepted :
    (verify_bearer_token world (some "Bearer token") hub_did false three_claims hub.outbound 1100).1
    ≡ ok token_claims
unfolding verify_bearer_token check_envelope check_replay strip_prefix str_claim member u64_claim
    Assoc.get check_did check_url SeenJti.insert
token_accepted = refl

verify_bearer_token-IsGenuine_example :
    IsGenuine world (some "Bearer token") hub_did false hub.outbound 1100 token_claims
verify_bearer_token-IsGenuine_example =
    verify_bearer_token-IsGenuine world (some "Bearer token") hub_did false three_claims
      hub.outbound 1100 token_claims token_accepted

three-IsTracked : IsTracked three_claims
unfolding Assoc.get
three-IsTracked = record {
  same = refl;
  distinct = (refl, (refl, (refl, tt)));
  bounded = omega arith;
}

claim_recorded : (check_replay world three_claims token_claims).1 ≡ ok token_claims
unfolding check_replay str_claim member Assoc.get SeenJti.insert
claim_recorded = refl

token_named : str_claim "jti" token_claims ≡ some "j1"
unfolding str_claim member Assoc.get
token_named = refl

new_claim : (SeenJti.insert three_claims "d").1 ≡ true
unfolding SeenJti.insert Assoc.get
new_claim = refl

insert-replay_example :
    (SeenJti.insert (insert_all (SeenJti.insert three_claims "d").0 ("x" ∷ "a" ∷ [])) "d").1 ≡ false
insert-replay_example =
    insert-replay three_claims "d" ("x" ∷ "a" ∷ []) three-IsTracked (omega arith) new_claim

insert-slide_example :
    IsTracked (SeenJti.insert three_claims "d").0
    × ((SeenJti.insert three_claims "d").1 ≡ not (has "d" three_claims.order))
    × ((SeenJti.insert three_claims "d").0.order ≡ (
        if has "d" three_claims.order
        then three_claims.order
        else slide three_claims.capacity three_claims.order "d"))
    × ((SeenJti.insert three_claims "d").0.capacity ≡ three_claims.capacity)
insert-slide_example = insert-slide "d" three-IsTracked

abbrev asked : StsTokenRequest
asked = record {
  grant_type = "client_credentials";
  client_id = "client";
  client_secret = "secret";
  audience = alice;
  bearer_access_scope = some "member";
  own_service_did = hub_did;
}

signed :
    IsSigned world (access_token_payload world (party sts_did) asked "member" 1000 "n1") "key" "key"
unfolding access_token_payload str_claim member Assoc.get
signed = record { header = key_header; decodes = refl; named = refl; verifies = refl }

access_token_payload-verify_example :
    (str_claim "scope" (access_token_payload world (party sts_did) asked "member" 1000 "n1")
      ≡ some "member")
    × (verify_nested_access_token world "signed" alice (party sts_did) 1100 ≡ (
        if presenter world (party sts_did) asked == alice
        then ok (access_token_payload world (party sts_did) asked "member" 1000 "n1")
        else err nested_token_not_bound_to_caller))
access_token_payload-verify_example =
    access_token_payload-verify world (party sts_did) asked "member" "n1" alice 1000 1100 signed
      (omega arith)

abbrev left_bytes : List ℕ
left_bytes = 1 ∷ 255 ∷ []

abbrev right_bytes : List ℕ
right_bytes = 1 ∷ 254 ∷ []

constant_time_eq_iff_example :
    (constant_time_eq left_bytes right_bytes ≡ true) ↔ (left_bytes ≡ right_bytes)
constant_time_eq_iff_example =
    constant_time_eq_iff left_bytes right_bytes (omega arith, (omega arith, tt))
      (omega arith, (omega arith, tt))

vc_bound :
    check_credential_claims world (vc_container ∷ []) hub_did (some (alice ∷ [])) 1100 ≡ ok tt
unfolding check_credential_claims check_claims has_type pointer member Assoc.get str_claim u64_claim
    subject_of is_within_validity
vc_bound = refl

check_credential_claims-IsBound_example :
    All (IsBound world hub_did (some (alice ∷ [])) 1100) (vc_container ∷ [])
check_credential_claims-IsBound_example =
    check_credential_claims-IsBound world (vc_container ∷ []) hub_did (some (alice ∷ [])) 1100
      vc_bound

abbrev delivered_message : CredentialMessage
delivered_message = record {
  context = [];
  message_type = "CredentialMessage";
  issuer_pid = "i1";
  holder_pid = "p1";
  status = "ISSUED";
  credentials = vc_container ∷ [];
  rejection_reason = none;
}

store_message-IsVetted_example :
    ((response : Response (Unit {0})) × IsRefusal response
      × (store_message world hub token_claims delivered_message 1100 ≡ (hub, response)))
    ⊎ (IsVetted world hub token_claims delivered_message 1100
        × ((store_message world hub token_claims delivered_message 1100)
            ≡ (record hub { store = batch_of world delivered_message ∷ hub.store }, status 200)))
store_message-IsVetted_example =
    store_message-IsVetted world hub token_claims delivered_message 1100

-- ===== src/Tests.antt =====
-- The data that the examples run on: an external world that answers a fixed set of tokens, and the
-- state of a small hub.
pub mod Tokens
pub mod Processes
pub mod Records
pub mod Services
pub mod Wallets
pub mod Hosts
pub mod Deliveries
pub mod Lifecycles
use ds_identity_hub_rs.Common.{
  ℕ, String, Bool, false, Option, none, some, [], ◌∷◌, ◌==◌, ltb, eqb, if◌then◌else◌, Result, ok,
  err,
}
use ds_identity_hub_rs.Common.Json.{
  Number, pos_int, Value, number, string, items, as_str, unwrap_or, json_object, json_array,
  json_num,
}
use ds_identity_hub_rs.Common.Text.{format}
use ds_identity_hub_rs.Messages.{CredentialContainer}
use ds_identity_hub_rs.External.{External}
use ds_identity_hub_rs.Identity.{ServiceIdentity}
use ds_identity_hub_rs.Hub.{manual, issuer_service, AppState}
use ds_identity_hub_rs.External
use Prim.Native.Nat.{compare, Ordering}
use ds_identity_hub_rs.Sts.{StsTokenRequest}
use ds_identity_hub_rs.State.SeenJti.{SeenJtiCache}
use ds_identity_hub_rs.State.Requests.{RequestTable}
use ds_identity_hub_rs.Issuer.Process.{IssuanceProcess, ProcessState}
use ds_identity_hub_rs.Issuer.Process
use ds_identity_hub_rs.Issuer.Holders.{Holder}
use ds_identity_hub_rs.Issuer.Holders
use ds_identity_hub_rs.Issuer.Issued
use ds_identity_hub_rs.Issuer.StatusList
use ds_identity_hub_rs.Issuer.Definitions.{CredentialDefinition}
use ds_identity_hub_rs.Oid4vci

abbrev pub alice : String
alice = "did:web:alice"

abbrev pub hub_did : String
hub_did = "did:web:hub"

abbrev pub sts_did : String
sts_did = "did:web:sts"

abbrev pub key_header : Value
key_header = json_object (("kid", string "key") ∷ [])

abbrev pub token_claims : Value
token_claims = json_object (
    ("iss", string alice)
    ∷ ("sub", string alice)
    ∷ ("aud", string hub_did)
    ∷ ("exp", json_num 2000)
    ∷ ("jti", string "j1")
    ∷ ("token", string "signed")
    ∷ [])

abbrev pub nested_claims : Value
nested_claims = json_object (
    ("iss", string sts_did)
    ∷ ("sub", string sts_did)
    ∷ ("aud", string alice)
    ∷ ("scope", string "member")
    ∷ ("iat", json_num 1000)
    ∷ ("exp", json_num 1300)
    ∷ ("jti", string "n1")
    ∷ [])

abbrev pub vc_claims : Value
vc_claims = json_object (
    ("iss", string alice)
    ∷ ("sub", string hub_did)
    ∷ ("vc", json_object (("type", json_array (string "member" ∷ [])) ∷ []))
    ∷ ("exp", json_num 5000)
    ∷ [])

abbrev decode : String → Result (Value × Value) String
decode t =
    if t == "token"
    then ok (key_header, token_claims)
    else if t == "signed"
    then ok (key_header, nested_claims)
    else if t == "vc"
    then ok (key_header, vc_claims)
    else err "malformed"

-- Equality of scalars, and the order of the numbers that are not negative.
abbrev same : Value → Value → Bool
same (string a) (string b) = a == b
same (number (pos_int a)) (number (pos_int b)) = eqb a b
same _ _ = false

abbrev pub cmp_number : Number → Number → Option Ordering
cmp_number (pos_int a) (pos_int b) = some (compare a b)
cmp_number _ _ = none

abbrev pub world : External
world = record {
  DidDocument = String;
  VerifyingKey = String;
  SigningKey = String;
  decode_jws_unverified = decode;
  did_web_to_url = λ did insecure. ok "https://alice/did.json";
  resolve_did = λ did insecure. ok did;
  find_verifying_key = λ doc kid. ok kid;
  verify_jws_signature = λ token key. ok tt;
  capability_invocation = λ doc. "key" ∷ [];
  service_endpoint_url = λ doc name. ok "https://alice/api";
  verifying_key = λ key. key;
  sign_jws = λ payload key kid. "signed";
  get_metadata = λ url. err "unreachable";
  post_credentials = λ endpoint token message. ok 200;
  parse_url = λ url. ok (record { scheme = "https"; host_str = some "alice" });
  scope_type = λ scope. some scope;
  to_lowercase = λ s. s;
  to_json_string = λ v. unwrap_or (as_str v) "";
  to_rfc3339 = λ n. "1970-01-01T00:00:00Z";
  display = λ n. "0";
  value_eq = same;
  number_cmp = cmp_number;
  sort_unordered = λ cmp items. items;
  display_number = λ n. "7";
  engine_decode = λ e s. if s == "pc" then some [] else none;
  from_utf8 = λ bs. some "ctx";
  TrustList = ℕ;
  list_iat = λ l. 0;
  list_exp = λ l. l;
  listed_types = λ l did. some ("member" ∷ []);
  list_check = λ l did t now. (t == "member", none);
  snapshot_kid = λ t. ok "key";
  verify_snapshot = λ t did key now. if ltb now 4000 then ok 4000 else err "expired";
  get_text = λ url. ok (200, ok "snapshot");
  debug_text = λ t. unwrap_or t "None";
  es256 = λ key t. [];
  sha256 = λ bs. bs;
  b64_bytes = λ bs. "b64";
  public_key_xy = λ key. ([], []);
  gzip = λ bs. bs;
  encode_url_safe = λ bs. "bits";
  display_status = λ n. "status";
  decode_base64 = λ s. some "client:secret";
  b64_encode = λ s. s;
  jwk_to_verifying_key = λ a b. ok a;
  offer_url = λ u. u;
}

abbrev pub party : String → ServiceIdentity world
party did = record {
  own_did = did;
  own_key_id = "key";
  signing_key = "key";
  did_path_segment = "x";
}

abbrev pub process : String → ProcessState → IssuanceProcess
process id state = record {
  id = id;
  state = state;
  holder_id = "h1";
  holder_did = alice;
  holder_pid = "pid";
  credential_definitions = "membership" ∷ [];
  error_detail = none;
  created_at = 0;
  state_timestamp = 0;
  delivery_bearer = none;
  delivery_started = false;
}

abbrev pub membership : CredentialDefinition
membership = record {
  id = "membership";
  credential_type = "member";
  format = "VC1_0_JWT";
  validity = 3600;
  json_schema_url = none;
  json_schema = none;
  mappings = [];
  rules = [];
  attestations = [];
  created_at = 0;
}

abbrev pub holder : Holder
holder = record {
  holder_id = "h1";
  did = alice;
  name = none;
  properties = [];
  status = Holders.approved;
  created_at = 0;
}

-- A table with one waiting and one approved process.
abbrev pub two_processes : RequestTable
two_processes = record {
  records = ("p1", process "p1" Process.submitted) ∷ ("p2", process "p2" Process.approved) ∷ [];
  order = "p1" ∷ "p2" ∷ [];
  capacity = 4;
}

abbrev pub three_claims : SeenJtiCache
three_claims = record {
  seen = ("a", tt) ∷ ("b", tt) ∷ ("c", tt) ∷ [];
  order = "a" ∷ "b" ∷ "c" ∷ [];
  capacity = 3;
}

abbrev pub hub : AppState world
hub = record {
  config = record {
    mode = issuer_service;
    insecure_http = false;
    trusted_issuer_dids = alice ∷ [];
    known_holder_pids = [];
    holder_approval = manual;
    did_host = "hub";
    allowed_outbound_hosts = [];
    trusted_issuers_registry = none;
    participant_context_id = "ctx";
    admin_token = some "secret";
    oid4vci_client_id = none;
    oid4vci_offer_tx_code = none;
  };
  identity = party hub_did;
  sts_party = party sts_did;
  sts_config = record { client_id = "client"; client_secret = "secret" };
  store = [];
  accepted_offers = [];
  requests = two_processes;
  definitions = membership ∷ [];
  holders = record {
    holders = ("h1", holder) ∷ [];
    by_did = (alice, "h1") ∷ [];
    order = "h1" ∷ [];
  };
  issued = Issued.default;
  outbound = record { allowed_hosts = "alice" ∷ [] };
  registry_trust = none;
  seen_jti = three_claims;
  oid4vci = Oid4vci.default;
}

abbrev pub vc_container : CredentialContainer
vc_container = record { credential_type = "member"; payload = string "vc"; format = "VC1_0_jwt" }

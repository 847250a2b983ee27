-- ===== src/Hub/Offers.antt =====
-- The OID4VCI issuer (crates/identity-hub-http/src/oid4vci.rs): the token and nonce endpoints and
-- the offers by reference. The identifiers that the code draws at random are arguments.
pub mod Create
pub mod Published
pub mod Described
pub mod Issue
pub mod Redeem
use ds_identity_hub_rs.Common.{
  ℕ, ◌+◌, String, Bool, false, not, Option, none, some, List, [], ◌==◌, leb, if◌then◌else◌, is_some,
  take, Result, ok, err,
}
use ds_identity_hub_rs.Common.Assoc.{Assoc, get, insert}
use ds_identity_hub_rs.Common.Json.{and_then, unwrap_or}
use ds_identity_hub_rs.Common.Text.{strip_prefix}
use ds_identity_hub_rs.Common.Assoc
use ds_identity_hub_rs.Http.{Response, oauth_error, status, json}
use ds_identity_hub_rs.Oid4vci.{
  CredentialOffer, PreAuthorizedGrant, AccessGrant, IssuerState, TokenResponse,
  access_token_ttl_secs, nonce_ttl_secs, max_tx_code_attempts,
}
use ds_identity_hub_rs.Oid4vci.Table.{ExpiringTable}
use ds_identity_hub_rs.Oid4vci.Table

-- The parameters of a form, by their names.
abbrev Form : Type 0
Form = Assoc String

abbrev pub count_failure : PreAuthorizedGrant → PreAuthorizedGrant
count_failure g = record g { failed_attempts = g.failed_attempts + 1 }

-- The check of the transaction code against a live grant: the table it leaves, and the refusal
-- (an error and its description).
unfoldable pub check_tx_code :
    ExpiringTable PreAuthorizedGrant
    → String
    → PreAuthorizedGrant
    → Option String
    → ℕ
    → ExpiringTable PreAuthorizedGrant × Result (Unit {0}) (String × String)
check_tx_code codes code grant given now = elim grant.tx_code [
  | none ↦ elim given [
    | none ↦ (codes, ok tt)
    | some t ↦ (codes, err ("invalid_request", "this offer does not use a tx_code"))
  ]
  | some expected ↦ elim given [
    | none ↦ (codes, err ("invalid_request", "tx_code is required for this offer"))
    | some t ↦
        if expected == t
        then (codes, ok tt)
        else let counted = Table.write codes code count_failure in
          (
            if leb max_tx_code_attempts (grant.failed_attempts + 1)
                then (Table.take counted code now).0
                else counted,
            err ("invalid_grant", "wrong tx_code"),
          )
  ]
]

-- A code whose check went well is taken; what it is good for goes on.
abbrev pub take_checked :
    String
    → PreAuthorizedGrant
    → ℕ
    → ExpiringTable PreAuthorizedGrant × Result (Unit {0}) (String × String)
    → ExpiringTable PreAuthorizedGrant × Result (List String) (String × String)
take_checked code grant now (checked, err refusal) = (checked, err refusal)
take_checked code grant now (checked, ok _) =
    ((Table.take checked code now).0, ok grant.credential_configuration_ids)

-- The part of `token` under the lock of the codes: the configurations that the code is good for.
unfoldable pub redeem_code :
    ExpiringTable PreAuthorizedGrant
    → String
    → Option String
    → ℕ
    → ExpiringTable PreAuthorizedGrant × Result (List String) (String × String)
unfolding check_tx_code
redeem_code codes code given now =
    let (looked, live) = Table.get_live codes code now in
    elim live [
      | none ↦ (
        looked,
        err ("invalid_grant", "pre-authorized_code is unknown, expired, or already used"),
      )
      | some grant ↦ take_checked code grant now (check_tx_code looked code grant given now)
    ]

unfoldable pub token : IssuerState → Form → String → ℕ → IssuerState × Response TokenResponse
unfolding redeem_code
token s form access_token now =
    if not (
      unwrap_or (Assoc.get "grant_type" form) ""
      == "urn:ietf:params:oauth:grant-type:pre-authorized_code")
    then (
      s,
      oauth_error 400 "unsupported_grant_type" "only the pre-authorized_code grant is supported",
    )
    else elim (Assoc.get "pre-authorized_code" form) [
      | none ↦ (s, oauth_error 400 "invalid_request" "pre-authorized_code is required")
      | some code ↦
          let (codes, redeemed) =
            redeem_code s.pre_authorized_codes code (Assoc.get "tx_code" form) now in
          elim redeemed [
            | err (error, description) ↦
                (record s { pre_authorized_codes = codes }, oauth_error 400 error description)
            | ok ids ↦ (
              record s {
                pre_authorized_codes = codes;
                access_tokens =
                    Table.insert s.access_tokens access_token access_token_ttl_secs
                      (record { credential_configuration_ids = ids }) now;
              },
              json 200 (record {
                access_token = access_token;
                token_type = "Bearer";
                expires_in = access_token_ttl_secs;
                authorization_details = [];
              }),
            )
          ]
    ]

unfoldable pub offer_by_reference :
    IssuerState → String → ℕ → IssuerState × Response CredentialOffer
offer_by_reference s id now =
    let (offers, taken) = Table.take s.offers id now in
    (record s { offers = offers }, elim taken [ some offer ↦ json 200 offer | none ↦ status 404 ])

unfoldable pub nonce : IssuerState → String → ℕ → IssuerState × Response String
nonce s c_nonce now =
    (record s { nonces = Table.insert s.nonces c_nonce nonce_ttl_secs tt now }, json 200 c_nonce)

-- The use of a proof's nonce.
unfoldable pub use_nonce : IssuerState → Option String → ℕ → IssuerState × Bool
use_nonce s none now = (s, false)
use_nonce s (some n) now =
    let (nonces, taken) = Table.take s.nonces n now in (record s { nonces = nonces }, is_some taken)

-- The bearer's grant, through `get_mut`.
unfoldable pub authorized_ids : IssuerState → Option String → ℕ → IssuerState × Option (List String)
unfolding strip_prefix
authorized_ids s authorization now = elim (and_then authorization (strip_prefix "Bearer ")) [
  | none ↦ (s, none)
  | some t ↦
      let (tokens, grant) = Table.get_live s.access_tokens t now in
      (
        record s { access_tokens = tokens },
        elim grant [ none ↦ none | some g ↦ some g.credential_configuration_ids ],
      )
]

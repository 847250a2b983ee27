-- ===== src/Wallet/Checks.antt =====
-- The checks of the wallet that need no request: the form of an offer, and the acceptance of an
-- issued credential (crates/identity-hub-http/src/oid4vci.rs).
use ds_identity_hub_rs.Common.{
  ℕ, String, Bool, false, not, Option, none, some, List, [], ◌∷◌, ◌==◌, leb, if◌then◌else◌, Result,
  ◌>>=◌, ◌>>◌, guard, ok_or, map_err, ok, err,
}
use ds_identity_hub_rs.Common.Json.{
  Value, array, items, as_str, member, and_then, unwrap_or, str_claim, u64_claim,
}
use ds_identity_hub_rs.Common.Text.{format}
use ds_identity_hub_rs.Messages.{CredentialContainer}
use ds_identity_hub_rs.External.{External}
use ds_identity_hub_rs.Auth.{auth_error_text}
use ds_identity_hub_rs.Validation.{validation_error_text, verify_credential_proofs}
use ds_identity_hub_rs.Hub.{AppState, check_issuer}
use ds_identity_hub_rs.Oid4vci.{CredentialOffer}
use ds_identity_hub_rs.Oid4vci.Metadata.{format_jwt_vc_json}
use ds_identity_hub_rs.Wallet.{WalletError, invalid_offer, rejected}
use ds_identity_hub_rs.Wallet.Network.{Network}

pub record RedeemOfferBody : Type 0 where
  pub offer : Option String
  pub credential_offer : Option CredentialOffer
  pub credential_offer_uri : Option String
  pub tx_code : Option String

abbrev pub or_else {ℓ} : {A : Type ℓ} → Option A → Option A → Option A
or_else (some a) b = some a
or_else none b = b

-- The last type of a credential that is not the general one.
unfoldable pub specific_type : List Value → Option String
specific_type [] = none
specific_type (v ∷ vs) = or_else (specific_type vs) (elim (as_str v) [
  | none ↦ none
  | some t ↦ if t == "VerifiableCredential" then none else some t
])

abbrev as_array : Value → List Value
as_array (array vs) = items vs
as_array _ = []

abbrev pub pointer : String → String → Value → Option Value
pointer j k v = and_then (member j v) (member k)

unfoldable pub credential_type_of : Value → Option String
unfolding member specific_type
credential_type_of payload =
    and_then (pointer "vc" "type" payload) (λ types. specific_type (as_array types))

unfoldable pub subject_of : Value → Option String
unfolding member str_claim
subject_of payload =
    or_else (str_claim "sub" payload)
      (and_then (pointer "vc" "credentialSubject" payload) (λ v. and_then (member "id" v) as_str))

abbrev pub is_expired : Option ℕ → ℕ → Bool
is_expired none now = false
is_expired (some exp) now = leb exp now

abbrev pub is_subject : Option String → String → Bool
is_subject none own_did = false
is_subject (some t) own_did = t == own_did

-- The container that stands for a credential while its proof is checked.
abbrev pub probe : Value → CredentialContainer
probe credential = record {
  credential_type = "";
  payload = credential;
  format = format_jwt_vc_json;
}

abbrev pub container : String → Value → CredentialContainer
container credential_type credential = record {
  credential_type = credential_type;
  payload = credential;
  format = format_jwt_vc_json;
}

module _ (x : External) (net : Network) (s : AppState x) where
  abbrev pub not_bound : Option String → WalletError
  not_bound subject = rejected (
      format (
        "credential is bound to "
        ∷ x.debug_text subject
        ∷ ", not to this Credential Service ("
        ∷ s.identity.own_did
        ∷ ")"
        ∷ []))

  unfoldable pub accept_issued_credential : Value → ℕ → Result String WalletError
  unfolding credential_type_of subject_of str_claim u64_claim check_issuer verify_credential_proofs
  accept_issued_credential credential now = do
    jws ← ok_or (as_str credential) (rejected "credential is not a JWT string")
    decoded ← map_err rejected (x.decode_jws_unverified jws)
    let (header, payload) = decoded
    credential_type ←
        ok_or (credential_type_of payload) (rejected "credential has no specific vc.type")
    map_err (λ e. rejected (auth_error_text e))
        (check_issuer x s (unwrap_or (str_claim "iss" payload) "") (credential_type ∷ []))
    map_err (λ e. rejected (validation_error_text e))
        (verify_credential_proofs x (probe credential ∷ []) s.config.insecure_http s.outbound)
    guard (is_subject (subject_of payload) s.identity.own_did) (not_bound (subject_of payload))
    guard (not (is_expired (u64_claim "exp" payload) now)) (rejected "credential has expired")
    ok credential_type

  -- One pair of the query at a time, the last of each name counting.
  unfoldable pub read_pairs :
      List (String × String)
      → Option CredentialOffer
      → Option String
      → Result (Option CredentialOffer × Option String) WalletError
  read_pairs [] by_value by_reference = ok (by_value, by_reference)
  read_pairs ((key, value) ∷ pairs) by_value by_reference =
      if key == "credential_offer"
      then (elim (net.offer_from_str value) [
        | ok offer ↦ read_pairs pairs (some offer) by_reference
        | err e ↦ err (invalid_offer e)
      ])
      else if key == "credential_offer_uri"
      then read_pairs pairs by_value (some value)
      else read_pairs pairs by_value by_reference

  unfoldable pub parse_offer_uri :
      String → Result (Option CredentialOffer × Option String) WalletError
  unfolding read_pairs
  parse_offer_uri uri =
      map_err invalid_offer (net.query_pairs uri) >>= λ pairs. read_pairs pairs none none

  -- The offer by value and by reference, from the body and the URI in it.
  unfoldable pub offered :
      RedeemOfferBody → Result (Option CredentialOffer × Option String) WalletError
  unfolding parse_offer_uri
  offered body = elim body.offer [
    | none ↦ ok (body.credential_offer, body.credential_offer_uri)
    | some uri ↦ parse_offer_uri uri >>= λ parsed.
        ok (or_else body.credential_offer (parsed.0), or_else body.credential_offer_uri (parsed.1))
  ]

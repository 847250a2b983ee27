-- ===== src/Sts/Token.antt =====
-- The nested access token of an issued token is accepted from its presenter, and from nobody else.
use ds_identity_hub_rs.Common.{
  ℕ, ◌+◌, ◌<◌, String, ◌≡◌, refl, Bool, true, false, some, ◌==◌, eq_refl, if◌then◌else◌, lt→ltb,
  ◌>>◌, guard, ok, err,
}
use ds_identity_hub_rs.Common.Assoc.{Assoc, get}
use ds_identity_hub_rs.Common.Json.{Value, member, str_claim, u64_claim}
use ds_identity_hub_rs.External.{External}
use ds_identity_hub_rs.Identity.{ServiceIdentity}
use ds_identity_hub_rs.Auth.{nested_token_not_bound_to_caller, verify_nested_access_token}
use ds_identity_hub_rs.Sts.{StsTokenRequest, access_token_payload, token_ttl_secs}
use ds_identity_hub_rs.Common.Assoc

-- What is documented of the signatures: a signed token decodes to its payload and a header with its
-- key's id, and verifies with the key's public half.
pub record IsSigned (x : External) (payload : Value) (key : x.SigningKey) (kid : String)
    : Type 0 where
  pub header : Value
  pub decodes : x.decode_jws_unverified (x.sign_jws payload key kid) ≡ ok (header, payload)
  pub named : str_claim "kid" header ≡ some kid
  pub verifies : x.verify_jws_signature (x.sign_jws payload key kid) (x.verifying_key key) ≡ ok tt

-- The party that the nested token is bound to.
abbrev pub presenter : (x : External) → ServiceIdentity x → StsTokenRequest → String
presenter x signer req =
    if req.audience == req.own_service_did then signer.own_did else req.audience

guard_if {ℓ} :
    {E : Type ℓ} (b : Bool) (e : E) (v : Value) → (guard b e >> ok v) ≡ (if b then ok v else err e)
guard_if true e v = refl
guard_if false e v = refl

module _ (x : External) (signer : ServiceIdentity x) (req : StsTokenRequest) where
  -- Where a signed token decodes to its payload and verifies, the nested access token that the STS
  -- makes carries the asked scope and is accepted, before its expiry, from the party it is bound
  -- to, and is refused from every other.
  pub access_token_payload-verify :
      (scope jti caller_did : String) (issued later : ℕ)
      → IsSigned x
          (access_token_payload x signer req scope issued jti)
          signer.signing_key
          signer.own_key_id
      → later < issued + token_ttl_secs
      → ((str_claim "scope" (access_token_payload x signer req scope issued jti)) ≡ some scope)
        × (verify_nested_access_token x
              (x.sign_jws
                (access_token_payload x signer req scope issued jti)
                signer.signing_key
                signer.own_key_id)
              caller_did
              signer
              later
            ≡ (if presenter x signer req == caller_did
                then ok (access_token_payload x signer req scope issued jti)
                else err nested_token_not_bound_to_caller))
  unfolding access_token_payload verify_nested_access_token str_claim member u64_claim Assoc.get
  access_token_payload-verify scope jti caller_did issued later signed alive =
      let payload = access_token_payload x signer req scope issued jti in
      (
        refl,
        rw
            (
              signed.decodes,
              verify_nested_access_token,
              signed.named,
              eq_refl signer.own_did,
              eq_refl signer.own_key_id,
              signed.verifies,
              lt→ltb later (issued + token_ttl_secs) alive,
            )
            (guard_if (presenter x signer req == caller_did) nested_token_not_bound_to_caller
              payload),
      )

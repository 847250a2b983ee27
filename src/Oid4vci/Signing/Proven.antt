-- ===== src/Oid4vci/Signing/Proven.antt =====
-- The key proofs that the wallet builds are the ones that the issuer accepts
-- (crates/identity-hub-core/src/oid4vci.rs).
use ds_identity_hub_rs.Common.{
  ℕ, ◌+◌, ◌≤◌, String, ◌≡◌, refl, ap, ◌∙◌, true, Option, none, some, [], ◌∷◌, eq_refl, leb, le→leb,
  ok,
}
use ds_identity_hub_rs.Common.Json.{Value, string, member, str_claim, u64_claim, set_field}
use ds_identity_hub_rs.Common.Text.{starts_with, format}
use ds_identity_hub_rs.External.{External}
use ds_identity_hub_rs.Identity.{ServiceIdentity}
use ds_identity_hub_rs.Oid4vci.Proof.{
  ProofKey, before_fragment, proof_key, names_audience, inspect_jwt_proof,
}
use ds_identity_hub_rs.Oid4vci.Proof
use ds_identity_hub_rs.Oid4vci.Signing.{
  ProofKeyRef, did_url, jwk, signed_header, sign_jws_with_header, public_jwk, proof_payload,
  proof_header, build_jwt_proof_for_client,
}

-- The claims of the payload, whichever of the two optional ones it has.
proof_payload-claims :
    (x : External) (issuer : String) (c_nonce client_id : Option String) (made : ℕ)
    → let payload = proof_payload x issuer c_nonce client_id made in
      (member "aud" payload ≡ some (string issuer))
      × (u64_claim "iat" payload ≡ some made)
      × (str_claim "nonce" payload ≡ c_nonce)
unfolding proof_payload member u64_claim str_claim
proof_payload-claims x issuer none none made = (refl, refl, refl)
proof_payload-claims x issuer none (some c) made = (refl, refl, refl)
proof_payload-claims x issuer (some n) none made = (refl, refl, refl)
proof_payload-claims x issuer (some n) (some c) made = (refl, refl, refl)

module _ (x : External) where
  inspect_jwt_proof-accepted :
      (proof issuer : String) (now made : ℕ) (header payload : Value) (key : ProofKey)
      → x.decode_jws_unverified proof ≡ ok (header, payload)
      → str_claim "typ" header ≡ some "openid4vci-proof+jwt"
      → str_claim "alg" header ≡ some "ES256"
      → proof_key x (member "kid" header) (member "jwk" header) ≡ ok key
      → member "aud" payload ≡ some (string issuer)
      → u64_claim "iat" payload ≡ some made
      → leb made (now + 30) ≡ true
      → leb now (made + 300) ≡ true
      → inspect_jwt_proof x proof issuer now ≡ ok (key, str_claim "nonce" payload)
  unfolding inspect_jwt_proof names_audience
  inspect_jwt_proof-accepted proof issuer now made header payload key d t a k aud iat early late =
      rw (d, t, a, k, aud, iat, early, late, eq_refl issuer) refl

  module _ (key_pair : ServiceIdentity x) where
    -- The signed token decodes to its header and its payload.
    abbrev pub DecodesSigned : Value → Value → Type 0
    DecodesSigned header payload =
        x.decode_jws_unverified (sign_jws_with_header x header payload key_pair)
        ≡ ok (signed_header x header, payload)

    -- The key that the proof names.
    abbrev pub named_key : ProofKeyRef → ProofKey
    named_key did_url = Proof.did_url key_pair.own_key_id (before_fragment key_pair.own_key_id)
    named_key jwk =
        let (px, py) = x.public_key_xy key_pair.signing_key in
        Proof.jwk (x.b64_bytes px) (x.b64_bytes py)
          (format ("did:jwk:" ∷ x.b64_encode (x.to_json_string (public_jwk x key_pair)) ∷ []))

    proof_header-key :
        (key : ProofKeyRef)
        → starts_with "did:" key_pair.own_key_id ≡ true
        → let header = signed_header x (proof_header x key_pair key) in
          (str_claim "typ" header ≡ some "openid4vci-proof+jwt")
          × (str_claim "alg" header ≡ some "ES256")
          × (proof_key x (member "kid" header) (member "jwk" header) ≡ ok (named_key key))
    unfolding proof_header str_claim member proof_key public_jwk set_field
    proof_header-key did_url did = (refl, refl, rw did refl)
    proof_header-key jwk did = (refl, refl, refl)

    -- A key proof that the wallet builds, where it decodes to what was signed and the key id is a
    -- DID URL, is accepted by the check of the issuer it names from 30 seconds before until 300
    -- seconds after its making, with the key it names and the nonce it was given.
    pub build_jwt_proof-accepted :
        (issuer : String) (c_nonce client_id : Option String) (key : ProofKeyRef) (made now : ℕ)
        → DecodesSigned
            (proof_header x key_pair key)
            (proof_payload x issuer c_nonce client_id made)
        → starts_with "did:" key_pair.own_key_id ≡ true
        → made ≤ now + 30
        → now ≤ made + 300
        → inspect_jwt_proof x
            (build_jwt_proof_for_client x key_pair issuer c_nonce client_id key made)
            issuer
            now
          ≡ ok (named_key key, c_nonce)
    unfolding build_jwt_proof_for_client
    build_jwt_proof-accepted issuer c_nonce client_id key made now decodes did early late =
        let header = proof_header x key_pair key in
        let payload = proof_payload x issuer c_nonce client_id made in
        let (aud, iat, same) = proof_payload-claims x issuer c_nonce client_id made in
        let (t, a, k) = proof_header-key key did in
        inspect_jwt_proof-accepted (sign_jws_with_header x header payload key_pair) issuer now made
          (signed_header x header) payload (named_key key) decodes t a k aud iat
          (le→leb made (now + 30) early) (le→leb now (made + 300) late)
        ∙ ap (λ n. ok (named_key key, n)) same

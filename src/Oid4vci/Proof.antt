-- ===== src/Oid4vci/Proof.antt =====
-- `inspect_jwt_proof` (crates/identity-hub-core/src/oid4vci.rs): the checks on a key proof that
-- need neither the network nor the issuer's state.
use ds_identity_hub_rs.Common.{
  ℕ, ◌+◌, String, Bool, false, ◌&&◌, Option, none, some, [], ◌∷◌, ◌==◌, leb, if◌then◌else◌, is_none,
  any, Result, ◌>>=◌, ◌>>◌, guard, ok_or, map_err, ok, err,
}
use ds_identity_hub_rs.Common.Json.{
  Value, string, array, object, Fields, items, member, str_claim, u64_claim, json_object,
}
use ds_identity_hub_rs.Common.Text.{starts_with, format, split}
use ds_identity_hub_rs.External.{External}

pub data ProofKey : Type 0 where
  -- the key id and its DID
  did_url : String → String → ProofKey
  -- the two coordinates and the `did:jwk`
  jwk : String → String → String → ProofKey

abbrev pub holder_did : ProofKey → String
holder_did (did_url kid did) = did
holder_did (jwk a b did) = did

pub data ProofError : Type 0 where
  malformed : String → ProofError
  wrong_type wrong_algorithm no_key wrong_audience stale_or_future_iat missing_nonce : ProofError

abbrev pub proof_max_age_secs : ℕ
proof_max_age_secs = 300

abbrev pub proof_iat_leeway_secs : ℕ
proof_iat_leeway_secs = 30

-- `kid.split('#').next()`.
abbrev pub before_fragment : String → String
before_fragment kid = elim (split b'#' kid) [ [] ↦ kid | part ∷ parts ↦ part ]

abbrev is_claim : Option String → String → Bool
is_claim none s = false
is_claim (some t) s = t == s

module _ (x : External) where
  abbrev jwk_key : Fields → Result ProofKey ProofError
  jwk_key fs = do
    guard (is_claim (str_claim "kty" (object fs)) "EC") no_key
    guard (is_claim (str_claim "crv" (object fs)) "P-256") no_key
    guard (is_none (member "d" (object fs))) no_key
    px ← ok_or (str_claim "x" (object fs)) no_key
    py ← ok_or (str_claim "y" (object fs)) no_key
    let public =
        json_object (
          ("kty", string "EC") ∷ ("crv", string "P-256") ∷ ("x", string px) ∷ ("y", string py) ∷ [])
    ok (jwk px py (format ("did:jwk:" ∷ x.b64_encode (x.to_json_string public) ∷ [])))

  -- Exactly one of a key id and a key.
  unfoldable pub proof_key : Option Value → Option Value → Result ProofKey ProofError
  unfolding str_claim member starts_with split
  proof_key (some (string kid)) none =
      if starts_with "did:" kid then ok (did_url kid (before_fragment kid)) else err no_key
  proof_key none (some (object fs)) = jwk_key fs
  proof_key _ _ = err no_key

  abbrev is_text : String → Value → Bool
  is_text s (string t) = t == s
  is_text s _ = false

  unfoldable pub names_audience : Option Value → String → Bool
  names_audience (some (string aud)) issuer = aud == issuer
  names_audience (some (array auds)) issuer = any (is_text issuer) (items auds)
  names_audience _ issuer = false

  abbrev is_fresh : Option ℕ → ℕ → Bool
  is_fresh none now = false
  is_fresh (some iat) now =
      leb iat (now + proof_iat_leeway_secs) && leb now (iat + proof_max_age_secs)

  unfoldable pub inspect_jwt_proof :
      String → String → ℕ → Result (ProofKey × Option String) ProofError
  unfolding str_claim u64_claim member proof_key names_audience
  inspect_jwt_proof proof credential_issuer now = do
    decoded ← map_err malformed (x.decode_jws_unverified proof)
    let (header, payload) = decoded
    guard (is_claim (str_claim "typ" header) "openid4vci-proof+jwt") wrong_type
    guard (is_claim (str_claim "alg" header) "ES256") wrong_algorithm
    key ← proof_key (member "kid" header) (member "jwk" header)
    guard (names_audience (member "aud" payload) credential_issuer) wrong_audience
    guard (is_fresh (u64_claim "iat" payload) now) stale_or_future_iat
    ok (key, str_claim "nonce" payload)

-- ===== src/Validation/Proofs.antt =====
-- What the verification of a credential's own proof establishes.
use ds_identity_hub_rs.Common.{
  String, ◌≡◌, Bool, some, List, [], ◌∷◌, All, guard, ok_or, map_err, >>=-eq-ok, map_err-eq-ok,
  ok_or-eq-ok, ok,
}
use ds_identity_hub_rs.Common.Json.{Value, as_str, str_claim}
use ds_identity_hub_rs.Messages.{CredentialContainer}
use ds_identity_hub_rs.External.{External}
use ds_identity_hub_rs.Outbound.{OutboundPolicy, check_did}
use ds_identity_hub_rs.Validation.{
  unverifiable_proof, contains_jwt, verify_proof, verify_credential_proofs,
}

module _ (x : External) where
  -- The payload is a token whose issuer's DID the policy allows and resolves to a document with
  -- the key that the token names, and the signature verifies under that key.
  pub record IsProven (insecure_http : Bool) (outbound : OutboundPolicy) (c : CredentialContainer)
      : Type 0 where
    pub jws : String
    pub head : Value
    pub claims : Value
    pub iss : String
    pub kid : String
    pub doc : x.DidDocument
    pub key : x.VerifyingKey
    pub carried : as_str c.payload ≡ some jws
    pub decoded : x.decode_jws_unverified jws ≡ ok (head, claims)
    pub issued_by : str_claim "iss" claims ≡ some iss
    pub keyed : str_claim "kid" head ≡ some kid
    pub allowed : check_did x outbound iss insecure_http ≡ ok tt
    pub resolved : x.resolve_did iss insecure_http ≡ ok doc
    pub found : x.find_verifying_key doc kid ≡ ok key
    pub signed : x.verify_jws_signature jws key ≡ ok tt

  pub verify_proof-IsProven :
      (c : CredentialContainer) (insecure_http : Bool) (outbound : OutboundPolicy)
      → verify_proof x c insecure_http outbound ≡ ok tt
      → IsProven insecure_http outbound c
  unfolding verify_proof
  verify_proof-IsProven c insecure_http outbound e =
      let (_, _, r0) = >>=-eq-ok (guard (contains_jwt (x.to_lowercase c.format)) _) _ e in
      let (jws, e1, r1) = >>=-eq-ok (ok_or (as_str c.payload) _) _ r0 in
      let ((head, claims), e2, r2) =
        >>=-eq-ok (map_err unverifiable_proof (x.decode_jws_unverified jws)) _ r1 in
      let (iss, e3, r3) = >>=-eq-ok (ok_or (str_claim "iss" claims) _) _ r2 in
      let (kid, e4, r4) = >>=-eq-ok (ok_or (str_claim "kid" head) _) _ r3 in
      let (_, e5, r5) = >>=-eq-ok (map_err _ (check_did x outbound iss insecure_http)) _ r4 in
      let (doc, e6, r6) =
        >>=-eq-ok (map_err unverifiable_proof (x.resolve_did iss insecure_http)) _ r5 in
      let (key, e7, r7) =
        >>=-eq-ok (map_err unverifiable_proof (x.find_verifying_key doc kid)) _ r6 in
      record {
        jws = jws;
        head = head;
        claims = claims;
        iss = iss;
        kid = kid;
        doc = doc;
        key = key;
        carried = ok_or-eq-ok _ _ e1;
        decoded = map_err-eq-ok _ _ e2;
        issued_by = ok_or-eq-ok _ _ e3;
        keyed = ok_or-eq-ok _ _ e4;
        allowed = map_err-eq-ok _ _ e5;
        resolved = map_err-eq-ok _ _ e6;
        found = map_err-eq-ok _ _ e7;
        signed = map_err-eq-ok _ _ r7;
      }

  pub verify_credential_proofs-IsProven :
      (cs : List CredentialContainer) (insecure_http : Bool) (outbound : OutboundPolicy)
      → verify_credential_proofs x cs insecure_http outbound ≡ ok tt
      → All (IsProven insecure_http outbound) cs
  unfolding verify_credential_proofs
  verify_credential_proofs-IsProven [] insecure_http outbound e = tt
  verify_credential_proofs-IsProven (c ∷ cs) insecure_http outbound e =
      let (_, e1, r1) = >>=-eq-ok (verify_proof x c insecure_http outbound) _ e in
      (
        verify_proof-IsProven c insecure_http outbound e1,
        verify_credential_proofs-IsProven cs insecure_http outbound r1,
      )

-- ===== src/Auth/Verified.antt =====
-- What an accepted token has been checked for.
use ds_identity_hub_rs.Common.{
  ℕ, ◌+◌, ◌<◌, String, ◌≡◌, refl, ap, ◌∙◌, subst, inl, inr, Bool, true, false, Option, some, List,
  ◌==◌, eq_iff, ltb, if◌then◌else◌, ltb→lt, Option-cases, length, guard, ok_or, map_err, >>=-eq-ok,
  Result-cases, map_err-eq-ok, ok-injective, ok_or-eq-ok, guard-eq-ok, ok, err,
}
use ds_identity_hub_rs.Common.Assoc.{has}
use ds_identity_hub_rs.Common.Json.{Value, and_then, unwrap_or, str_claim, u64_claim}
use ds_identity_hub_rs.Common.Text.{strip_prefix}
use ds_identity_hub_rs.External.{External}
use ds_identity_hub_rs.Outbound.{OutboundPolicy, check_did}
use ds_identity_hub_rs.Auth.{
  missing_token, token_replayed, did_resolution, invalid_signature, nbf_leeway_secs, at_most,
  check_envelope, check_replay, verify_bearer_token,
}
use ds_identity_hub_rs.State.SeenJti.{SeenJtiCache}
use ds_identity_hub_rs.State.SeenJti
use ds_identity_hub_rs.State.SeenJti.Window.{IsTracked}
use ds_identity_hub_rs.State.SeenJti.Replay.{insert_all, insert-replay}

module _ (x : External) where
  -- A token that its own issuer signed with a key it may invoke capabilities with, for this
  -- service and for now.
  pub record IsGenuine (header : Option String) (own_did : String) (insecure_http : Bool)
      (outbound : OutboundPolicy) (now : ℕ) (payload : Value) : Type 0 where
    pub token : String
    pub iss : String
    pub kid : String
    pub head : Value
    pub doc : x.DidDocument
    pub key : x.VerifyingKey
    pub presented : and_then header (strip_prefix "Bearer ") ≡ some token
    pub decoded : x.decode_jws_unverified token ≡ ok (head, payload)
    pub issued_by : str_claim "iss" payload ≡ some iss
    pub allowed : check_did x outbound iss insecure_http ≡ ok tt
    pub resolved : x.resolve_did iss insecure_http ≡ ok doc
    pub found : x.find_verifying_key doc kid ≡ ok key
    pub signed : x.verify_jws_signature token key ≡ ok tt
    pub invokes : has kid (x.capability_invocation doc) ≡ true
    pub about_itself : unwrap_or (str_claim "sub" payload) "" ≡ iss
    pub addressed : unwrap_or (str_claim "aud" payload) "" ≡ own_did
    pub lasting : now < unwrap_or (u64_claim "exp" payload) 0

  check_envelope-IsGenuine :
      (header : Option String) (own_did : String) (insecure_http : Bool) (outbound : OutboundPolicy)
      (now : ℕ) (payload : Value)
      → check_envelope x header own_did insecure_http outbound now ≡ ok payload
      → IsGenuine header own_did insecure_http outbound now payload
  unfolding check_envelope
  check_envelope-IsGenuine header own_did insecure_http outbound now payload e =
      let (token, e1, r1) =
        >>=-eq-ok (ok_or (and_then header (strip_prefix "Bearer ")) missing_token) _ e in
      let ((head, claims), e2, r2) =
        >>=-eq-ok (map_err invalid_signature (x.decode_jws_unverified token)) _ r1 in
      let (iss, e3, r3) = >>=-eq-ok (ok_or (str_claim "iss" claims) _) _ r2 in
      let (kid, e4, r4) = >>=-eq-ok (ok_or (str_claim "kid" head) _) _ r3 in
      let (_, e5, r5) = >>=-eq-ok (map_err _ (check_did x outbound iss insecure_http)) _ r4 in
      let (doc, e6, r6) =
        >>=-eq-ok (map_err did_resolution (x.resolve_did iss insecure_http)) _ r5 in
      let (key, e7, r7) =
        >>=-eq-ok (map_err invalid_signature (x.find_verifying_key doc kid)) _ r6 in
      let (_, e8, r8) =
        >>=-eq-ok (map_err invalid_signature (x.verify_jws_signature token key)) _ r7 in
      let (_, e9, r9) = >>=-eq-ok (guard (has kid (x.capability_invocation doc)) _) _ r8 in
      let (_, e10, r10) = >>=-eq-ok (guard (unwrap_or (str_claim "sub" claims) "" == iss) _) _ r9 in
      let (_, e11, r11) =
        >>=-eq-ok (guard (unwrap_or (str_claim "aud" claims) "" == own_did) _) _ r10 in
      let (_, e12, r12) =
        >>=-eq-ok (guard (ltb now (unwrap_or (u64_claim "exp" claims) 0)) _) _ r11 in
      let (_, e13, r13) =
        >>=-eq-ok (guard (at_most (u64_claim "nbf" claims) (now + nbf_leeway_secs)) _) _ r12 in
      let (_, e14, r14) =
        >>=-eq-ok (guard (at_most (u64_claim "iat" claims) (now + nbf_leeway_secs)) _) _ r13 in
      let same : claims ≡ payload = ok-injective r14 in
      subst (λ p. IsGenuine header own_did insecure_http outbound now p) same
        (record {
          token = token;
          iss = iss;
          kid = kid;
          head = head;
          doc = doc;
          key = key;
          presented = ok_or-eq-ok _ _ e1;
          decoded = map_err-eq-ok _ _ e2;
          issued_by = ok_or-eq-ok _ _ e3;
          allowed = map_err-eq-ok _ _ e5;
          resolved = map_err-eq-ok _ _ e6;
          found = map_err-eq-ok _ _ e7;
          signed = map_err-eq-ok _ _ e8;
          invokes = guard-eq-ok _ _ e9;
          about_itself =
              (eq_iff (unwrap_or (str_claim "sub" claims) "") iss).0 (guard-eq-ok _ _ e10);
          addressed =
              (eq_iff (unwrap_or (str_claim "aud" claims) "") own_did).0 (guard-eq-ok _ _ e11);
          lasting = ltb→lt now (unwrap_or (u64_claim "exp" claims) 0) (guard-eq-ok _ _ e12);
        })

  replay_named :
      (seen : SeenJtiCache) (payload : Value) (jti : String)
      → str_claim "jti" payload ≡ some jti
      → check_replay x seen payload ≡ (
        (SeenJti.insert seen jti).0,
        if (SeenJti.insert seen jti).1 then ok payload else err token_replayed,
      )
  unfolding check_replay
  replay_named seen payload jti e = rw (e, check_replay)

  replay_ok :
      (b : Bool) (claims payload : Value)
      → (if b then ok claims else err token_replayed) ≡ ok payload
      → (b ≡ true) × (claims ≡ payload)
  replay_ok true claims payload e = (refl, ok-injective e)
  replay_ok false claims payload e = cc

  replay_payload :
      (seen : SeenJtiCache) (claims payload : Value)
      → (check_replay x seen claims).1 ≡ ok payload
      → claims ≡ payload
  unfolding check_replay
  replay_payload seen claims payload e = elim (Option-cases (str_claim "jti" claims)) [
    | inl f ↦ ok-injective (rw (f, check_replay) at e)
    | inr (jti, f) ↦
        (replay_ok (SeenJti.insert seen jti).1 claims payload
          (rw (replay_named seen claims jti f) at e)).1
  ]

  -- A bearer token that verify_bearer_token accepts was decoded, resolved to an allowed issuer
  -- document, verified with a key that may invoke capabilities, has sub equal to iss, the expected
  -- audience, and has not expired.
  pub verify_bearer_token-IsGenuine :
      (header : Option String) (own_did : String) (insecure_http : Bool) (seen : SeenJtiCache)
      (outbound : OutboundPolicy) (now : ℕ) (payload : Value)
      → (verify_bearer_token x header own_did insecure_http seen outbound now).1 ≡ ok payload
      → IsGenuine header own_did insecure_http outbound now payload
  unfolding verify_bearer_token
  verify_bearer_token-IsGenuine header own_did insecure_http seen outbound now payload e =
      elim (Result-cases (check_envelope x header own_did insecure_http outbound now)) [
        | inl (claims, f) ↦
            check_envelope-IsGenuine header own_did insecure_http outbound now payload
              (f ∙ ap ok (replay_payload seen claims payload (rw (f, verify_bearer_token) at e)))
        | inr (bad, f) ↦ cc (rw (f, verify_bearer_token) at e)
      ]

  -- A token with a jti that the replay check accepted is refused afterwards while fewer other
  -- claims than the capacity are recorded.
  pub check_replay-refused :
      (seen : SeenJtiCache) (payload : Value) (jti : String) (others : List String)
      → IsTracked seen
      → length others < seen.capacity
      → str_claim "jti" payload ≡ some jti
      → (check_replay x seen payload).1 ≡ ok payload
      → (check_replay x (insert_all (check_replay x seen payload).0 others) payload).1
        ≡ err token_replayed
  check_replay-refused seen payload jti others t room named accepted =
      let fresh =
        (replay_ok (SeenJti.insert seen jti).1 payload payload
          (rw (replay_named seen payload jti named) at accepted)).0 in
      rw (replay_named seen payload jti named) (
        rw
          (
            replay_named (insert_all (SeenJti.insert seen jti).0 others) payload jti named,
            insert-replay seen jti others t room fresh,
          )
          refl)

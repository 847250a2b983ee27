-- ===== src/Hub/Admin/Gate.antt =====
-- The two gates in front of the admin API (crates/identity-hub-http/src/admin.rs): the token first,
-- for every path, then the participant context of a routed one. The rest of the router is `next`.
use ds_identity_hub_rs.Common.{
  ℕ, String, ◌≡◌, refl, ap, ◌∙◌, ◌≢◌, ◌⊎◌, inl, inr, Bool, true, false, Option, none, some, List,
  [], ◌∷◌, arith, ◌==◌, eq_iff, eq_refl, eqb, if◌then◌else◌, Bool-cases, Option-cases,
  some-injective, Result, Result-cases, ok, err,
}
use ds_identity_hub_rs.Common.Json.{and_then}
use ds_identity_hub_rs.Common.Text.{trim_start, split_once, eq_ignore_ascii_case, as_bytes}
use ds_identity_hub_rs.External.{
  Engine, standard, url_safe, standard_no_pad, url_safe_no_pad, External,
}
use ds_identity_hub_rs.Hub.{AppState}
use ds_identity_hub_rs.Http.{Response, refuse, json}
use ds_identity_hub_rs.Sts.{constant_time_eq}
use ds_identity_hub_rs.Sts.Bytes.{same_bytes_iff}

-- The token of a bearer header; the scheme in any case, and any number of spaces.
unfoldable pub bearer_token : String → Option String
unfolding split_once eq_ignore_ascii_case trim_start
bearer_token value = elim (split_once b' ' value) [
  | none ↦ none
  | some (scheme, token) ↦
      if eq_ignore_ascii_case scheme "bearer"
      then some (trim_start (λ c. eqb c b' ') token)
      else none
]

-- The configured token, where there is one that is not empty.
abbrev pub expected_token : Option String → Option String
expected_token none = none
expected_token (some t) = if t == "" then none else some t

pub data State : Type 0 where
  activated : State

pub record Participant : Type 0 where
  pub participant_context_id : String
  pub did : String
  pub state : State

module _ (x : External) where
  unfoldable pub require_admin_token :
      {A : Type 0} → AppState x → Option String → (Unit {0} → Response A) → Response A
  require_admin_token s authorization next = elim (expected_token s.config.admin_token) [
    | none ↦ refuse 401 "admin API is disabled"
    | some expected ↦ elim (and_then authorization bearer_token) [
      | none ↦ refuse 401 "missing admin bearer token"
      | some token ↦
          if constant_time_eq (as_bytes token) (as_bytes expected)
          then next tt
          else refuse 401 "invalid admin token"
    ]
  ]

  -- `find_map` over the four engines.
  abbrev decode_first : List Engine → String → Option (List ℕ)
  decode_first [] encoded = none
  decode_first (e ∷ es) encoded = elim (x.engine_decode e encoded) [
    | some bytes ↦ some bytes
    | none ↦ decode_first es encoded
  ]

  unfoldable pub decode_participant_context : String → Option String
  decode_participant_context encoded =
      and_then (decode_first (standard ∷ url_safe ∷ standard_no_pad ∷ url_safe_no_pad ∷ []) encoded)
        x.from_utf8

  abbrev is_context : Option String → String → Bool
  is_context none ours = false
  is_context (some id) ours = id == ours

  -- `pc` is the path's parameter, or the text of `AdminPath`'s rejection where the path does not
  -- decode.
  unfoldable pub check_participant_context :
      {A : Type 0}
      → AppState x
      → Result (Option String) String
      → (Unit {0} → Response A)
      → Response A
  unfolding decode_participant_context
  check_participant_context s params next = elim params [
    | err rejection ↦ refuse 400 rejection
    | ok pc ↦
        if is_context (and_then pc decode_participant_context) s.config.participant_context_id
        then next tt
        else refuse 404 "unknown participant context"
  ]

  unfoldable pub participant : AppState x → Response Participant
  participant s = json 200 (record {
    participant_context_id = s.config.participant_context_id;
    did = s.identity.own_did;
    state = activated;
  })

  -- A routed request.
  abbrev pub routed :
      {A : Type 0}
      → AppState x
      → Option String
      → Result (Option String) String
      → (Unit {0} → Response A)
      → Response A
  routed s authorization params next =
      require_admin_token s authorization (λ _. check_participant_context s params next)

  -- Who may pass: a bearer token with the bytes of the configured one, and this hub's own context.
  abbrev pub IsAdmitted : AppState x → Option String → Result (Option String) String → Type 0
  IsAdmitted s authorization params =
      (expected : String) × (token : String) × (encoded : String) × (s.config.admin_token
        ≡ some expected)
      × (expected ≢ "")
      × (and_then authorization bearer_token ≡ some token)
      × (as_bytes token ≡ as_bytes expected)
      × (params ≡ ok (some encoded))
      × (decode_participant_context encoded ≡ some s.config.participant_context_id)

  expected_token-some :
      (o : Option String) {t : String} → expected_token o ≡ some t → (o ≡ some t) × (t ≢ "")
  expected_token-some none h = cc
  expected_token-some (some u) {t} h = ground (arith, eq_iff u "", eq_iff t "")

  expected_token-eq :
      (o : Option String) (t : String) → o ≡ some t → t ≢ "" → expected_token o ≡ some t
  expected_token-eq none t h nonempty = cc
  expected_token-eq (some u) t h nonempty =
      ground (arith, eq_iff u "", eq_iff t "", some-injective h)

  find_context : (o : Option String) (ours : String) → is_context o ours ≡ true → o ≡ some ours
  find_context none ours h = cc
  find_context (some id) ours h = ap some ((eq_iff id ours).0 h)

  module _ {A : Type 0} (s : AppState x) (authorization : Option String)
      (params : Result (Option String) String) (next : Unit {0} → Response A) where
    admitted_passes :
        IsAdmitted s authorization params → routed s authorization params next ≡ next tt
    unfolding require_admin_token check_participant_context
    admitted_passes (expected, token, encoded, e, nonempty, t, same, p, c) =
        let configured = expected_token-eq s.config.admin_token expected e nonempty in
        let equal = (same_bytes_iff token expected).1 same in
        rw
          (
            configured,
            require_admin_token,
            t,
            equal,
            p,
            check_participant_context,
            c,
            eq_refl s.config.participant_context_id,
          )
          refl

    context_passes :
        (expected token : String)
        → s.config.admin_token ≡ some expected
        → expected ≢ ""
        → and_then authorization bearer_token ≡ some token
        → as_bytes token ≡ as_bytes expected
        → ((check_participant_context s params next ≡ next tt) × IsAdmitted s authorization params)
          ⊎ ((rejection : String) × (params ≡ err rejection)
              × (check_participant_context s params next ≡ refuse 400 rejection))
          ⊎ (check_participant_context s params next ≡ refuse 404 "unknown participant context")
    unfolding check_participant_context
    context_passes expected token e nonempty t same = elim (Result-cases params) [
      | inr (rejection, p) ↦ inr (inl (rejection, p, rw (p, check_participant_context) refl))
      | inl (pc, p) ↦ elim (Option-cases pc) [
        | inl none_named ↦ inr (inr (rw (p, check_participant_context, none_named) refl))
        | inr (encoded, named) ↦
            elim (Bool-cases
              (is_context (decode_participant_context encoded) s.config.participant_context_id)) [
                | inr other ↦ inr (inr (rw (p, check_participant_context, named, other) refl))
                | inl granted ↦ inl (
                  rw (p, check_participant_context, named, granted) refl,
                  (
                    expected,
                    token,
                    encoded,
                    e,
                    nonempty,
                    t,
                    same,
                    p ∙ ap ok named,
                    find_context (decode_participant_context encoded)
                        s.config.participant_context_id granted,
                  ),
                )
              ]
      ]
    ]

    -- A routed admin request reaches its handler when it carries the configured, non-empty token
    -- and the context of this hub, and every request is either such a one or is answered without
    -- the handler: 401, 400 with the rejection's text where its path does not decode, or 404 for
    -- its context.
    pub routed-IsAdmitted :
        (IsAdmitted s authorization params → routed s authorization params next ≡ next tt)
        × (((routed s authorization params next ≡ next tt) × IsAdmitted s authorization params)
            ⊎ ((message : String) × (routed s authorization params next ≡ refuse 401 message))
            ⊎ ((rejection : String) × (params ≡ err rejection)
                × (routed s authorization params next ≡ refuse 400 rejection))
            ⊎ (routed s authorization params next ≡ refuse 404 "unknown participant context"))
    unfolding require_admin_token
    routed-IsAdmitted = (
      admitted_passes,
      elim (Option-cases (expected_token s.config.admin_token)) [
        | inl e ↦ inr (inl ("admin API is disabled", rw (e, require_admin_token) refl))
        | inr (expected, e) ↦ elim (Option-cases (and_then authorization bearer_token)) [
          | inl t ↦ inr (inl ("missing admin bearer token", rw (e, require_admin_token, t) refl))
          | inr (token, t) ↦
              elim (Bool-cases (constant_time_eq (as_bytes token) (as_bytes expected))) [
                | inr c ↦ inr (inl ("invalid admin token", rw (e, require_admin_token, t, c) refl))
                | inl c ↦
                    let (configured, nonempty) = expected_token-some s.config.admin_token e in
                    let same = (same_bytes_iff token expected).0 c in
                    elim (context_passes expected token configured nonempty t same) [
                      | inl (p, admitted) ↦ inl (rw (e, require_admin_token, t, c) p, admitted)
                      | inr (inl (rejection, undecodable, p)) ↦
                          inr (
                            inr (inl (rejection, undecodable, rw (e, require_admin_token, t, c) p)))
                      | inr (inr p) ↦ inr (inr (inr (rw (e, require_admin_token, t, c) p)))
                    ]
              ]
        ]
      ],
    )

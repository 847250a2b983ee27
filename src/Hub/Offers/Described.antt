-- ===== src/Hub/Offers/Described.antt =====
-- The wallet finds what the issuer offers (crates/identity-hub-http/src/oid4vci.rs).
use ds_identity_hub_rs.Common.{
  ℕ, String, ◌≡◌, refl, sym, ap, ◌∙◌, subst, inl, inr, Bool, true, false, not, Option, none, some,
  List, [], ◌∷◌, arith, ◌==◌, Bool-cases, Option-cases, is_empty, find, All, All-map,
}
use ds_identity_hub_rs.Common.Assoc.{Assoc, has, get}
use ds_identity_hub_rs.Common.Json.{unwrap_or}
use ds_identity_hub_rs.Common.Text.{starts_with}
use ds_identity_hub_rs.External.{External}
use ds_identity_hub_rs.Hub.{AppState}
use ds_identity_hub_rs.Http.{Response, json}
use ds_identity_hub_rs.Issuer.Definitions.{CredentialDefinition}
use ds_identity_hub_rs.Common.Assoc
use ds_identity_hub_rs.Oid4vci.Metadata.{CredentialConfiguration, format_jwt_vc_json}
use ds_identity_hub_rs.Oid4vci.Signing.{did_url, for_binding_methods}
use ds_identity_hub_rs.Hub.Offers.Create.{
  CreateOfferBody, CreateOfferResponse, supported_ids, is_operator, create_offer,
}
use ds_identity_hub_rs.Hub.Offers.Published.{configuration_of, configurations_supported}

-- The published configuration of an id is one that the wallet stores, under its DID.
abbrev pub IsRedeemable : List CredentialDefinition → String → Type 0
IsRedeemable definitions id =
    (c : CredentialConfiguration) × (Assoc.get id (configurations_supported definitions) ≡ some c)
    × (c.format ≡ format_jwt_vc_json)
    × (for_binding_methods c.cryptographic_binding_methods_supported ≡ did_url)

supported-IsRedeemable :
    (definitions : List CredentialDefinition) (id : String)
    → has id (supported_ids definitions) ≡ true
    → IsRedeemable definitions id
unfolding configurations_supported configuration_of Assoc.get for_binding_methods starts_with
supported-IsRedeemable [] id h = cc
supported-IsRedeemable (d ∷ ds) id h = elim (Bool-cases (d.id == id)) [
  | inl e ↦ (configuration_of d, rw (e, Assoc.get) refl, refl, refl)
  | inr e ↦
      let (c, g, f, b) = supported-IsRedeemable ds id (ground (arith, h, e)) in
      (c, rw (e, Assoc.get) g, f, b)
]

All-known :
    (p : String → Bool) (ids : List String)
    → find (λ id. not (p id)) ids ≡ none
    → All (λ id. p id ≡ true) ids
All-known p [] h = tt
All-known p (id ∷ ids) h = ground (arith, All-known p ids)

-- The configurations of the offer in an answer.
abbrev offered_ids : Response CreateOfferResponse → List String
offered_ids (json n r) = r.credential_offer.credential_configuration_ids
offered_ids _ = []

module _ (x : External) where
  -- An offer is made only for the operator and never empty, and the issuer publishes for each of
  -- its configurations a description that the wallet finds, whose format it stores, and which
  -- binds the credential to its DID.
  pub create_offer-IsRedeemable :
      (s : AppState x) (authorization : Option String) (body : Option CreateOfferBody)
      (code random_tx_code offer_id : String) (now : ℕ) (r : CreateOfferResponse)
      → (create_offer x s authorization body code random_tx_code offer_id now).1 ≡ json 201 r
      → (is_operator x s authorization ≡ true)
        × (is_empty r.credential_offer.credential_configuration_ids ≡ false)
        × All (IsRedeemable s.definitions) r.credential_offer.credential_configuration_ids
  unfolding create_offer
  create_offer-IsRedeemable s authorization body code random_tx_code offer_id now r h =
      let answer = (create_offer x s authorization body code random_tx_code offer_id now).1 in
      let given =
        unwrap_or body (record { credential_configuration_ids = none; tx_code = false }) in
      let supported = supported_ids s.definitions in
      let ids = unwrap_or given.credential_configuration_ids supported in
      elim (Bool-cases (is_operator x s authorization)) [
        | inr o ↦ absurd (ground (arith, h, o))
        | inl o ↦ elim (Bool-cases (is_empty ids)) [
          | inl e ↦ absurd (ground (arith, h, o, e))
          | inr e ↦ elim (Option-cases (find (λ id. not (has id supported)) ids)) [
            | inr (u, f) ↦ absurd (ground (arith, h, o, e, f))
            | inl f ↦
                let made : offered_ids answer ≡ ids = rw (o, create_offer, e, f) refl in
                let same : ids ≡ r.credential_offer.credential_configuration_ids =
                  sym made ∙ ap offered_ids h in
                (
                  o,
                  subst (λ is'. is_empty is' ≡ false) same e,
                  subst (λ is'. All (IsRedeemable s.definitions) is') same
                      (All-map (supported-IsRedeemable s.definitions) ids
                        (All-known (λ id. has id supported) ids f)),
                )
          ]
        ]
      ]

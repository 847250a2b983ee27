-- ===== src/Tests/Services.antt =====
-- Examples of the properties on queries, trust and the endpoints of the issuer.
use ds_identity_hub_rs.Common.{
  ℕ, String, ◌≡◌, refl, ◌↔◌, ◌⊎◌, inl, inr, true, false, Option, none, some, List, [], ◌∷◌, arith,
  ltb, Bool-cases, is_empty, All, Result, ok, err,
}
use ds_identity_hub_rs.Common.Assoc.{Assoc, get}
use ds_identity_hub_rs.Common.Json.{Value, string, set_field, json_object, json_num}
use ds_identity_hub_rs.Common.Text.{starts_with, translate}
use ds_identity_hub_rs.External.{External}
use ds_identity_hub_rs.Identity.{ServiceIdentity}
use ds_identity_hub_rs.Hub.{AppState}
use ds_identity_hub_rs.Tests.{alice, world, hub}
use ds_identity_hub_rs.Http.{Response, refuse, json}
use ds_identity_hub_rs.Issuer.Definitions.{pos}
use ds_identity_hub_rs.Issuer.Query.{QuerySpec, apply}
use ds_identity_hub_rs.Issuer.Query.Page.{apply-tiles, paged}
use ds_identity_hub_rs.Issuer.Query.Accepted.{IsWellFormed, apply-IsWellFormed_iff}
use ds_identity_hub_rs.RegistryTrust.{RegistryTrust, TrustedIssuersRegistry, check}
use ds_identity_hub_rs.RegistryTrust
use ds_identity_hub_rs.RegistryTrust.Closed.{
  RefusesExpired, IsCache, IsUsable, IsTrusted, check-IsTrusted,
}
use ds_identity_hub_rs.Common.Assoc
use ds_identity_hub_rs.Oid4vci.Proof.{inspect_jwt_proof}
use ds_identity_hub_rs.Oid4vci.Signing.{
  did_url, signed_header, proof_payload, proof_header, build_jwt_proof_for_client,
}
use ds_identity_hub_rs.Oid4vci.Signing.Proven.{DecodesSigned, named_key, build_jwt_proof-accepted}
use ds_identity_hub_rs.Issuer.StatusList
use ds_identity_hub_rs.Issuer.StatusList.{is_set}
use ds_identity_hub_rs.Issuer.StatusList.Bits.{default-HasBytes}
use ds_identity_hub_rs.Issuer.Issued
use ds_identity_hub_rs.Issuer.Issued.{IssuedCredential, IssuedCredentials, as_revoked, revoke}
use ds_identity_hub_rs.Hub.Hosting.{signed_list, status_list}
use ds_identity_hub_rs.Hub.Hosting.StatusJwt.{IsCurrent, revoke-served}
use ds_identity_hub_rs.Hub.Admin.Gate.{IsAdmitted, routed, routed-IsAdmitted}
use ds_identity_hub_rs.Hub.Offers.Create.{CreateOfferResponse, offer_of, is_operator, create_offer}
use ds_identity_hub_rs.Hub.Offers.Described.{IsRedeemable, create_offer-IsRedeemable}

abbrev row : ℕ → Value
row n = json_object (("n", json_num n) ∷ ("kind", string "holder") ∷ [])

abbrev rows : List Value
rows = row 4 ∷ row 9 ∷ row 2 ∷ row 7 ∷ []

-- The holders by falling number.
abbrev falling : QuerySpec
falling = record {
  offset = none;
  limit = some (pos 2);
  filter_expression =
      some (record { operand_left = "kind"; operator = "="; operand_right = string "holder" } ∷ []);
  sort_field = some "n";
  sort_order = some "desc";
}

apply-IsWellFormed_iff_example :
    ((page : List Value) × (apply world falling rows ≡ ok page)) ↔ IsWellFormed falling
apply-IsWellFormed_iff_example = apply-IsWellFormed_iff world falling rows

first_page : apply world (paged world falling 0 1) rows ≡ ok (row 9 ∷ [])
unfolding apply translate
first_page = refl

second_page : apply world (paged world falling 1 2) rows ≡ ok (row 7 ∷ row 4 ∷ [])
unfolding apply translate
second_page = refl

apply-tiles_example : apply world (paged world falling 0 3) rows ≡ ok (row 9 ∷ row 7 ∷ row 4 ∷ [])
apply-tiles_example =
    apply-tiles world falling 0 1 2 rows (row 9 ∷ []) (row 7 ∷ row 4 ∷ []) (omega arith) first_page
      second_page

abbrev source : TrustedIssuersRegistry
source = record { base_url = "https://alice/"; did = alice }

abbrev registry : RegistryTrust world
registry = RegistryTrust.new world source

refuses_expired : RefusesExpired world source
refuses_expired token did key now list h = elim (Bool-cases (ltb now 4000)) [
  | inl e ↦ ground (arith, h, e)
  | inr e ↦ absurd (ground (arith, h, e))
]

check-IsTrusted_example :
    IsCache world source
      ((check world registry hub.outbound false alice ("member" ∷ []) 100 101).0.cached)
    × ((check world registry hub.outbound false alice ("member" ∷ []) 100 101).1 ≡ ok tt
        → (list : ℕ) × IsUsable world source 100 list
          × IsTrusted world source list alice ("member" ∷ []) 101)
check-IsTrusted_example =
    check-IsTrusted world source registry hub.outbound false alice ("member" ∷ []) 100 101
      refuses_expired refl (omega arith) tt

abbrev proof_world : External
proof_world = record world {
  decode_jws_unverified = λ t. ok (
    signed_header world
        (json_object (("typ", string "openid4vci-proof+jwt") ∷ ("kid", string "did:web:x#k") ∷ [])),
    proof_payload world "https://hub" (some "n1") none 1000,
  );
}

abbrev prover : ServiceIdentity proof_world
prover = record {
  own_did = "did:web:x";
  own_key_id = "did:web:x#k";
  signing_key = "key";
  did_path_segment = "x";
}

proof_decodes :
    DecodesSigned proof_world prover
      (proof_header proof_world prover did_url)
      (proof_payload proof_world "https://hub" (some "n1") none 1000)
unfolding proof_payload proof_header set_field
proof_decodes = refl

prover_did : starts_with "did:" "did:web:x#k" ≡ true
unfolding starts_with
prover_did = refl

build_jwt_proof-accepted_example :
    inspect_jwt_proof proof_world
      (build_jwt_proof_for_client proof_world prover "https://hub" (some "n1") none did_url 1000)
      "https://hub"
      1100
    ≡ ok (named_key proof_world prover did_url, some "n1")
build_jwt_proof-accepted_example =
    build_jwt_proof-accepted proof_world prover "https://hub" (some "n1") none did_url 1000 1100
      proof_decodes prover_did (omega arith) (omega arith)

abbrev credential : IssuedCredential
credential = record {
  id = "c1";
  credential_type = "member";
  credential_definition_id = "membership";
  holder_id = "h1";
  holder_did = alice;
  issuance_process_id = "p1";
  format = "VC1_0_JWT";
  issued_at = 0;
  expires_at = 3600;
  status = Issued.active;
  status_list_index = 5;
}

-- A hub that issued one credential and has not served its list yet.
abbrev issuing : AppState world
issuing = record hub {
  issued = record {
    records = ("c1", credential) ∷ [];
    order = "c1" ∷ [];
    status_list = StatusList.default;
  };
}

credential_held : Issued.get issuing.issued "c1" ≡ some credential
unfolding Issued.get Assoc.get
credential_held = refl

unserved : IsCurrent world issuing StatusList.default
unfolding StatusList.default
unserved jwt h = cc

revoke-served_example :
    (c : IssuedCredentials) × (revoke issuing.issued "c1" ≡ some (c, some (as_revoked credential)))
    × (is_set c.status_list 5 ≡ some true)
    × ((t : ℕ) × ((status_list world (record issuing { issued = c }) 77).1
          ≡ json 200 (signed_list world issuing c.status_list t)))
revoke-served_example =
    revoke-served world issuing "c1" credential 77 default-HasBytes credential_held (omega arith)
      unserved

abbrev listing : Unit {0} → Response (List Value)
listing _ = json 200 rows

routed-IsAdmitted_example :
    (IsAdmitted world hub (some "Bearer secret") (ok (some "pc"))
      → routed world hub (some "Bearer secret") (ok (some "pc")) listing ≡ listing tt)
    × (((routed world hub (some "Bearer secret") (ok (some "pc")) listing ≡ listing tt)
          × IsAdmitted world hub (some "Bearer secret") (ok (some "pc")))
        ⊎ ((message : String) × (routed world hub (some "Bearer secret") (ok (some "pc")) listing
              ≡ refuse 401 message))
        ⊎ ((rejection : String) × (◌≡◌ {A = Result (Option String) String}
              (ok (some "pc"))
              (err rejection))
            × (routed world hub (some "Bearer secret") (ok (some "pc")) listing
                ≡ refuse 400 rejection))
        ⊎ (routed world hub (some "Bearer secret") (ok (some "pc")) listing
            ≡ refuse 404 "unknown participant context"))
routed-IsAdmitted_example =
    routed-IsAdmitted world hub (some "Bearer secret") (ok (some "pc")) listing

abbrev made : CreateOfferResponse
made = record {
  credential_offer = offer_of world hub ("membership" ∷ []) "code" none;
  credential_offer_uri = "https://hub/oid4vci/offers/o1";
  offer_uri = "https://hub/oid4vci/offers/o1";
  tx_code = none;
}

offer_made :
    (create_offer world hub (some "Basic x") none "code" "123456" "o1" 10).1 ≡ json 201 made
unfolding create_offer
offer_made = refl

create_offer-IsRedeemable_example :
    (is_operator world hub (some "Basic x") ≡ true)
    × (is_empty {A = String} ("membership" ∷ []) ≡ false)
    × All (IsRedeemable hub.definitions) ("membership" ∷ [])
create_offer-IsRedeemable_example =
    create_offer-IsRedeemable world hub (some "Basic x") none "code" "123456" "o1" 10 made
      offer_made

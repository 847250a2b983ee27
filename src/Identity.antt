-- ===== src/Identity.antt =====
-- `ServiceIdentity` (crates/identity-hub-core/src/identity.rs).
use ds_identity_hub_rs.Common.{String, List, [], ◌∷◌, map}
use ds_identity_hub_rs.Common.Json.{Value, string, json_object, json_array}
use ds_identity_hub_rs.Common.Text.{format, split, join}
use ds_identity_hub_rs.External.{External}

pub record ServiceIdentity (x : External) : Type 0 where
  pub own_did : String
  pub own_key_id : String
  pub signing_key : x.SigningKey
  pub did_path_segment : String

unfoldable pub did_of : String → String → String
unfolding join split
did_of did_host did_path_segment =
    format ("did:web:" ∷ join "%3A" (split b':' did_host) ∷ ":" ∷ did_path_segment ∷ [])

abbrev did_context : List String
did_context = "https://www.w3.org/ns/did/v1" ∷ "https://w3id.org/dspace-dcp/v1.0/dcp.jsonld" ∷ []

module _ (x : External) where
  abbrev service_entry : ServiceIdentity x → String × String → Value
  service_entry i (ty, endpoint) = json_object (
      ("id", string (format (i.own_did ∷ "#" ∷ ty ∷ [])))
      ∷ ("type", string ty)
      ∷ ("serviceEndpoint", string endpoint)
      ∷ [])

  abbrev verification_method : ServiceIdentity x → Value
  verification_method i =
      let (px, py) = x.public_key_xy i.signing_key in
      json_object (
        ("id", string i.own_key_id)
        ∷ ("type", string "JsonWebKey2020")
        ∷ ("controller", string i.own_did)
        ∷ (
          "publicKeyJwk",
          json_object (
              ("kty", string "EC")
              ∷ ("crv", string "P-256")
              ∷ ("x", string (x.b64_bytes px))
              ∷ ("y", string (x.b64_bytes py))
              ∷ []),
        )
        ∷ [])

  unfoldable pub did_document : ServiceIdentity x → List (String × String) → Value
  did_document i services =
      let key = json_array (string i.own_key_id ∷ []) in
      json_object (
        ("@context", json_array (map string did_context))
        ∷ ("id", string i.own_did)
        ∷ ("verificationMethod", json_array (verification_method i ∷ []))
        ∷ ("authentication", key)
        ∷ ("assertionMethod", key)
        ∷ ("capabilityInvocation", key)
        ∷ ("service", json_array (map (service_entry i) services))
        ∷ [])

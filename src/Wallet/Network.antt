-- ===== src/Wallet/Network.antt =====
-- What the wallet sees of the network (crates/identity-hub-http/src/oid4vci.rs): requests, answers,
-- and calls that read the network's state, change it, and fail with a `WalletError`.
use ds_identity_hub_rs.Common.{ℕ, String, Option, List, Result, ok, err}
use ds_identity_hub_rs.Common.Json.{Value}
use ds_identity_hub_rs.Oid4vci.{CredentialOffer, TokenResponse}
use ds_identity_hub_rs.Oid4vci.Metadata.{
  CredentialIssuerMetadata, AuthorizationServerMetadata, CredentialResponse,
}
use ds_identity_hub_rs.Wallet.{WalletError}

-- A request: its URL, and the form, the JSON body and the headers where it has them.
pub data Request : Type 0 where
  get : String → Request
  post : String → Request
  post_form : String → List (String × String) → Option String → Request
  post_json : String → Value → String → Option String → Request

abbrev pub url_of : Request → String
url_of (get url) = url
url_of (post url) = url
url_of (post_form url form dpop) = url
url_of (post_json url body authorization dpop) = url

-- An answer: the two headers that are read, and the body as a text and as bytes.
pub record HttpResponse : Type 0 where
  pub status : ℕ
  pub dpop_nonce : Option String
  pub www_authenticate : Option String
  pub text : Result String String
  pub bytes : Result (List ℕ) String

-- The network and the other parties as they answer, the clock and the random identifiers; and
-- what serde and `reqwest::Url` make of a body or of an offer's URI.
pub record Network : Type 1 where
  pub World : Type 0
  pub send : Request → World → World × Result HttpResponse String
  pub now : World → World × ℕ
  pub new_v4 : World → World × String
  pub credential_offer : List ℕ → Result CredentialOffer String
  pub issuer_metadata : List ℕ → Result CredentialIssuerMetadata String
  pub server_metadata : List ℕ → Result AuthorizationServerMetadata String
  pub token_response : List ℕ → Result TokenResponse String
  pub nonce_response : List ℕ → Result String String
  pub credential_response : List ℕ → Result CredentialResponse String
  pub offer_from_str : String → Result CredentialOffer String
  pub query_pairs : String → Result (List (String × String)) String

-- A call: it runs on a state of the network.
abbrev pub Call : Type 0 → Type 0 → Type 0
Call W A = W → W × Result A WalletError

module _ {W : Type 0} where
  infixl 5 ◌>>=◌ ◌>>◌
  unfoldable pub ◌>>=◌ : {A : Type 0} {B : Type 0} → Call W A → (A → Call W B) → Call W B
  (m >>= f) w = let (w', answer) = m w in elim answer [ ok a ↦ f a w' | err e ↦ (w', err e) ]

  unfoldable pub ◌>>◌ : {B : Type 0} → Call W (Unit {0}) → Call W B → Call W B
  unfolding ◌>>=◌
  m >> k = m >>= λ _. k

  abbrev pub lift : {A : Type 0} → Result A WalletError → Call W A
  lift r w = (w, r)

  abbrev pub pure : {A : Type 0} → A → Call W A
  pure a w = (w, ok a)

  abbrev pub fail : {A : Type 0} → WalletError → Call W A
  fail e w = (w, err e)

  -- A reading that does not fail.
  abbrev pub read : {A : Type 0} → (W → W × A) → Call W A
  read m w = let (w', a) = m w in (w', ok a)

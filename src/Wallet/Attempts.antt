-- ===== src/Wallet/Attempts.antt =====
-- Two attempts are enough (crates/identity-hub-http/src/oid4vci.rs): the loops over the attempts end
-- by their own exits, whatever the servers answer.
use ds_identity_hub_rs.Common.{
  ℕ, suc, ◌+◌, String, ◌≡◌, refl, sym, ap, ◌∙◌, fun_ext, Bool, true, false, Option, none, some,
  List, arith, Result,
}
use ds_identity_hub_rs.Common.Json.{Value}
use ds_identity_hub_rs.External.{External}
use ds_identity_hub_rs.Hub.{AppState}
use ds_identity_hub_rs.Oid4vci.Metadata.{AuthorizationServerMetadata}
use ds_identity_hub_rs.Wallet.Network.{Request, HttpResponse, Network, Call, lift, pure}
use ds_identity_hub_rs.Wallet.Network
use ds_identity_hub_rs.Wallet.Client.{
  ResourceClient, answered_challenge, request_token, post_attempts,
}

-- After a challenge was answered no other is.
answered_once :
    (dpop : Bool) (response : HttpResponse) → answered_challenge dpop false response ≡ none
answered_once true response = refl
answered_once false response = refl

module _ {W : Type 0} where
  next-ext :
      {A : Type 0} {B : Type 0} (m : Call W A) (f g : A → Call W B)
      → ((a : A) → f a ≡ g a)
      → Network.◌>>=◌ m f ≡ Network.◌>>=◌ m g
  next-ext m f g same = ap (λ k. Network.◌>>=◌ m k) (fun_ext same)

  branch-ext :
      {A : Type 0} (o : Option String) (f g : String → Call W A) (m : Call W A)
      → ((n : String) → f n ≡ g n)
      → ◌≡◌ {A = Call W A} (elim o [ some n ↦ f n | none ↦ m ]) (elim o [ some n ↦ g n | none ↦ m ])
  branch-ext none f g m same = refl
  branch-ext (some n) f g m same = same n

  branch-none :
      {A : Type 0} (o : Option String) (f : String → Call W A) (m : Call W A)
      → o ≡ none
      → ◌≡◌ {A = Call W A} (elim o [ some n ↦ f n | none ↦ m ]) m
  branch-none none f m e = refl
  branch-none (some n) f m e = cc

module _ (x : External) (net : Network) (s : AppState x) where
  module _ (metadata : AuthorizationServerMetadata) (use_dpop : Bool)
      (form : List (String × String)) where
    -- With a nonce at hand one attempt is all.
    request_token_last :
        (attempts : ℕ) (server_nonce : String)
        → request_token x net s (suc attempts) metadata use_dpop form (some server_nonce)
          ≡ request_token x net s 1 metadata use_dpop form (some server_nonce)
    unfolding request_token
    request_token_last attempts server_nonce = next-ext _ _ _ λ asserted. next-ext _ _ _ λ dpop.
        next-ext _ _ _ λ response.
          branch-none _ _ _ (answered_once use_dpop response)
          ∙ sym (branch-none _ _ _ (answered_once use_dpop response))

    request_token_enough :
        (more : ℕ)
        → request_token x net s (suc (suc more)) metadata use_dpop form none
          ≡ request_token x net s 2 metadata use_dpop form none
    unfolding request_token
    request_token_enough more = next-ext _ _ _ λ asserted. next-ext _ _ _ λ dpop.
        next-ext _ _ _ λ response.
          branch-ext (answered_challenge use_dpop true response) _ _ (Network.pure response)
            (request_token_last more)

  module _ {A : Type 0} (decode : List ℕ → Result A String) (url : String) (body : Value) where
    post_attempts_last :
        (attempts : ℕ) (client : ResourceClient)
        → post_attempts x net s (suc attempts) false decode url body client
          ≡ post_attempts x net s 1 false decode url body client
    unfolding post_attempts
    post_attempts_last attempts client = next-ext _ _ _ λ dpop. next-ext _ _ _ λ response.
        branch-none _ _ _ (answered_once client.dpop response)
        ∙ sym (branch-none _ _ _ (answered_once client.dpop response))

    post_attempts_enough :
        (more : ℕ) (client : ResourceClient)
        → post_attempts x net s (suc (suc more)) true decode url body client
          ≡ post_attempts x net s 2 true decode url body client
    unfolding post_attempts
    post_attempts_enough more client = next-ext _ _ _ λ dpop. next-ext _ _ _ λ response.
        branch-ext (answered_challenge client.dpop true response) _ _ _
          (λ n. post_attempts_last more (record client { nonce = some n }))

  -- The loops over the attempts at the token endpoint and at a protected endpoint end by their own
  -- exits within two attempts, whatever is answered: a higher bound changes nothing.
  pub attempts_enough :
      {A : Type 0} (more : ℕ) (metadata : AuthorizationServerMetadata) (use_dpop : Bool)
      (form : List (String × String)) (decode : List ℕ → Result A String) (url : String)
      (body : Value) (client : ResourceClient)
      → (request_token x net s (2 + more) metadata use_dpop form none
          ≡ request_token x net s 2 metadata use_dpop form none)
        × (post_attempts x net s (2 + more) true decode url body client
            ≡ post_attempts x net s 2 true decode url body client)
  attempts_enough more metadata use_dpop form decode url body client =
      let two : 2 + more ≡ suc (suc more) = omega arith in
      (
        ap (λ n. request_token x net s n metadata use_dpop form none) two
            ∙ request_token_enough metadata use_dpop form more,
        ap (λ n. post_attempts x net s n true decode url body client) two
            ∙ post_attempts_enough decode url body more client,
      )

-- ===== src/Tests/Records.antt =====
-- Examples of the properties on the registries, the status list and the OID4VCI tables.
use ds_identity_hub_rs.Common.{
  ℕ, ◌<◌, String, ◌≡◌, refl, Bool, true, false, Option, none, some, [], ◌∷◌, arith, ◌==◌, eqb,
  if◌then◌else◌, ok,
}
use ds_identity_hub_rs.Common.Assoc.{Assoc, get, insert}
use ds_identity_hub_rs.Common.Text.{
  is_whitespace, is_blank, format, all_chars, strip_prefix, split, join, translate,
}
use ds_identity_hub_rs.Tests.{alice, holder}
use ds_identity_hub_rs.Common.Assoc
use ds_identity_hub_rs.Common.Text
use mathlib.Core.Option
use ds_identity_hub_rs.Issuer.StatusList
use ds_identity_hub_rs.Issuer.StatusList.{
  StatusList, allocate, release, is_set, set, status_list_bits,
}
use ds_identity_hub_rs.Issuer.StatusList.Bits.{HasBytes, default-HasBytes}
use ds_identity_hub_rs.Issuer.StatusList.Alloc.{
  is_allocated, HasFree, allocate-is_allocated, release-is_allocated,
}
use ds_identity_hub_rs.Issuer.Issued
use ds_identity_hub_rs.Issuer.Issued.{IssuedCredential, IssuedCredentials, revoke}
use ds_identity_hub_rs.Issuer.Issued.Revocation.{revoke-is_set}
use ds_identity_hub_rs.Issuer.Holders
use ds_identity_hub_rs.Issuer.Holders.{Holder, HolderRegistry, holder_key, by_did}
use ds_identity_hub_rs.Issuer.Holders.Registry.{
  IsRegistry, is_ok, default-IsRegistry, insert-IsRegistry, by_did-insert,
}
use ds_identity_hub_rs.Issuer.Definitions.{
  CredentialDefinition, CredentialDefinitionInput, into_definition, valid_credential_type,
  parse_validity,
}
use ds_identity_hub_rs.Issuer.Definitions.Catalog.{IsIssuable, into_definition-IsIssuable}
use ds_identity_hub_rs.Oid4vci.{PreAuthorizedGrant}
use ds_identity_hub_rs.Oid4vci.Table
use ds_identity_hub_rs.Oid4vci.Table.{ExpiringTable}
use ds_identity_hub_rs.Oid4vci.Table.Live.{IsTable, take-single_use, insert-IsTable}
use ds_identity_hub_rs.Hub.Offers.{redeem_code}
use ds_identity_hub_rs.Hub.Offers.Redeem.{HoldsGrant, redeem_code-matches}

-- A list that has handed out three indexes, the second of them free again.
abbrev three_given : StatusList
three_given = record { bits = 0 ∷ []; next_index = 3; free = 1 ∷ []; cached_jwt = none }

three_given_free : HasFree three_given
three_given_free = record { ascending = (tt, tt); below = (omega arith, tt); bounded = omega arith }

second_again : (allocate three_given).1 ≡ some 1
unfolding allocate
second_again = refl

allocate-is_allocated_example :
    (is_allocated three_given 1 ≡ false)
    × (1 < status_list_bits)
    × ((j : ℕ)
        → is_allocated (allocate three_given).0 j
          ≡ (if eqb j 1 then true else is_allocated three_given j))
    × HasFree (allocate three_given).0
allocate-is_allocated_example = allocate-is_allocated three_given three_given_free 1 second_again

unset : is_set three_given 2 ≡ some false
unfolding is_set
unset = refl

release-is_allocated_example :
    (l' : StatusList) × (release three_given 2 ≡ some l')
    × ((j : ℕ)
        → is_allocated l' j ≡ (
            if eqb j 2
            then (if false then is_allocated three_given 2 else false)
            else is_allocated three_given j))
    × HasFree l'
release-is_allocated_example = release-is_allocated three_given three_given_free 2 false unset

abbrev credential : IssuedCredential
credential = record {
  id = "c1";
  credential_type = "member";
  credential_definition_id = "membership";
  holder_id = "h1";
  holder_did = alice;
  issuance_process_id = "p1";
  format = "VC1_0_JWT";
  issued_at = 0;
  expires_at = 3600;
  status = Issued.active;
  status_list_index = 5;
}

abbrev one_issued : IssuedCredentials
one_issued = record {
  records = ("c1", credential) ∷ [];
  order = "c1" ∷ [];
  status_list = StatusList.default;
}

issued_held : Issued.get one_issued "c1" ≡ some credential
unfolding Issued.get Assoc.get
issued_held = refl

revoke-is_set_example :
    (c' : IssuedCredentials) × (b : Bool) × (revoke one_issued "c1"
      ≡ some (c', some (record credential { status = Issued.revoked })))
    × HasBytes c'.status_list
    × (is_set one_issued.status_list 6 ≡ some b)
    × (is_set c'.status_list 6 ≡ some (if eqb credential.status_list_index 6 then true else b))
    × ((k : String)
        → Issued.get c' k ≡ (
            if "c1" == k
            then Option.map
                (λ (q : IssuedCredential). record q { status = Issued.revoked })
                (Issued.get one_issued k)
            else Issued.get one_issued k))
revoke-is_set_example =
    revoke-is_set one_issued "c1" credential 6 default-HasBytes issued_held (omega arith)
      (omega arith)

insert-IsRegistry_example :
    IsRegistry (Holders.insert Holders.default holder).0
    × (is_ok (Holders.insert Holders.default holder).1 ≡ false
        → (Holders.insert Holders.default holder).0 ≡ Holders.default)
insert-IsRegistry_example = insert-IsRegistry Holders.default holder default-IsRegistry

first_holder : is_ok (Holders.insert Holders.default holder).1 ≡ true
unfolding Holders.insert Holders.default Holders.by_key Assoc.get
first_holder = refl

alice_key : holder_key "did:web:ALICE" ≡ holder_key alice
unfolding holder_key Text.strip_prefix Text.split Text.join Holders.fold_host
    Holders.split_at_percent Text.all_chars Holders.to_ascii_lowercase Holders.uppercase_escapes
    Text.translate
alice_key = refl

by_did-insert_example :
    (by_did (Holders.insert Holders.default holder).0 "did:web:ALICE" ≡ some holder)
    × (Holders.get Holders.default "h0" ≡ some holder
        → Holders.get (Holders.insert Holders.default holder).0 "h0" ≡ some holder)
by_did-insert_example =
    by_did-insert Holders.default holder "did:web:ALICE" "h0" holder default-IsRegistry first_holder
      alice_key

abbrev input : CredentialDefinitionInput
input = record {
  id = "membership";
  credential_type = "MembershipCredential";
  format = none;
  validity = none;
  json_schema_url = none;
  json_schema = none;
  mappings = none;
  rules = none;
  attestations = none;
}

abbrev definition : CredentialDefinition
definition = record {
  id = "membership";
  credential_type = "MembershipCredential";
  format = "VC1_0_JWT";
  validity = 3600;
  json_schema_url = none;
  json_schema = none;
  mappings = [];
  rules = [];
  attestations = [];
  created_at = 7;
}

made : into_definition input 7 ≡ ok definition
unfolding into_definition Text.is_blank Text.is_whitespace valid_credential_type Text.all_chars
    parse_validity
made = refl

into_definition-IsIssuable_example :
    IsIssuable definition
    × (definition.id ≡ input.id)
    × (definition.credential_type ≡ input.credential_type)
    × (definition.created_at ≡ 7)
into_definition-IsIssuable_example = into_definition-IsIssuable input 7 definition made

abbrev grant : ℕ → PreAuthorizedGrant
grant failures = record {
  credential_configuration_ids = "membership" ∷ [];
  tx_code = some "123456";
  failed_attempts = failures;
}

abbrev one_code : ℕ → ExpiringTable PreAuthorizedGrant
one_code failures = record {
  entries = ("code", (600, grant failures)) ∷ [];
  order = "code" ∷ [];
  capacity = 2;
}

code_live : (failures : ℕ) → HoldsGrant (one_code failures) "code" 10 (grant failures)
unfolding Assoc.get
code_live failures = (600, refl, omega arith)

redeem_code-matches_example :
    ((redeem_code (one_code 0) "code" (some "123456") 10).1 ≡ ok ("membership" ∷ []))
    × ((later : ℕ) (again : Option String)
        → (Table.get_live (redeem_code (one_code 0) "code" (some "123456") 10).0 "code" later).1
          ≡ none)
redeem_code-matches_example =
    redeem_code-matches (one_code 0) "code" (some "123456") 10 (grant 0) (code_live 0) refl

take-single_use_example :
    ((Table.take (Table.take (one_code 0) "code" 10).0 "code" 11).1 ≡ none)
    × ((Table.get_live (Table.take (one_code 0) "code" 10).0 "code" 11).1 ≡ none)
take-single_use_example = take-single_use (one_code 0) "code" 10 11

code-IsTable : IsTable (one_code 0)
unfolding Assoc.get
code-IsTable = (λ k e. ground arith, omega arith)

insert-IsTable_example : IsTable (Table.insert (one_code 0) "fresh" 600 (grant 0) 10)
insert-IsTable_example = insert-IsTable (one_code 0) "fresh" 600 (grant 0) 10 code-IsTable

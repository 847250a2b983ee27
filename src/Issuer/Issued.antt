-- ===== src/Issuer/Issued.antt =====
-- Issued-credential records (crates/identity-hub-http/src/issuer.rs).
pub mod Revocation
use ds_identity_hub_rs.Common.{ℕ, String, Option, none, some, List, [], ◌∷◌, ◌++◌, filter_map}
use ds_identity_hub_rs.Common.Assoc.{Assoc, modify}
use ds_identity_hub_rs.Issuer.StatusList.{StatusList}
use ds_identity_hub_rs.Issuer.StatusList
use ds_identity_hub_rs.Common.Assoc

pub data CredentialRecordStatus : Type 0 where
  active revoked : CredentialRecordStatus

pub record IssuedCredential : Type 0 where
  pub id : String
  pub credential_type : String
  pub credential_definition_id : String
  pub holder_id : String
  pub holder_did : String
  pub issuance_process_id : String
  pub format : String
  pub issued_at : ℕ
  pub expires_at : ℕ
  pub status : CredentialRecordStatus
  pub status_list_index : ℕ

pub record IssuedCredentials : Type 0 where
  pub records : Assoc IssuedCredential
  pub order : List String
  pub status_list : StatusList

unfoldable pub default : IssuedCredentials
default = record { records = []; order = []; status_list = StatusList.default }

unfoldable pub insert : IssuedCredentials → IssuedCredential → IssuedCredentials
insert c r = record c { records = Assoc.insert r.id r c.records; order = c.order ++ r.id ∷ [] }

unfoldable pub get : IssuedCredentials → String → Option IssuedCredential
get c id = Assoc.get id c.records

unfoldable pub all_issued : IssuedCredentials → List IssuedCredential
all_issued c = filter_map (λ id. Assoc.get id c.records) c.order

abbrev pub as_revoked : IssuedCredential → IssuedCredential
as_revoked r = record r { status = revoked }

-- The outer `none` is a panic of `status_list.set`; the inner one an unknown id.
unfoldable pub revoke :
    IssuedCredentials → String → Option (IssuedCredentials × Option IssuedCredential)
revoke c id = elim (Assoc.get id c.records) [
  | none ↦ some (c, none)
  | some r ↦ elim (StatusList.set c.status_list r.status_list_index) [
    | none ↦ none
    | some l ↦ some (
      record c { records = Assoc.modify id as_revoked c.records; status_list = l },
      some (as_revoked r),
    )
  ]
]

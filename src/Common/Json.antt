-- ===== src/Common/Json.antt =====
-- `serde_json::Value` as a data type, and the reads that the program makes. An object keeps its
-- entries in order; a number is serde_json's, a float by its bits.
use ds_identity_hub_rs.Common.{
  ℕ, String, Bool, Option, none, some, List, [], ◌∷◌, ◌==◌, if◌then◌else◌,
}
use ds_identity_hub_rs.Common.Assoc.{Assoc, get}

pub data Number : Type 0 where
  pos_int : ℕ → Number
  neg_int : ℕ → Number
  float : ℕ → Number

mutual
  pub data Value : Type 0 where
    null : Value
    bool : Bool → Value
    number : Number → Value
    string : String → Value
    array : Items → Value
    object : Fields → Value

  pub data Items : Type 0 where
    nil : Items
    cons : Value → Items → Items

  pub data Fields : Type 0 where
    end : Fields
    field : String → Value → Fields → Fields

abbrev pub items : Items → List Value
items nil = []
items (cons v vs) = v ∷ items vs

abbrev pub fields : Fields → Assoc Value
fields end = []
fields (field k v fs) = (k, v) ∷ fields fs

abbrev pub as_str : Value → Option String
as_str (string s) = some s
as_str _ = none

abbrev pub as_u64 : Value → Option ℕ
as_u64 (number (pos_int n)) = some n
as_u64 _ = none

-- `value.get(key)`.
unfoldable pub member : String → Value → Option Value
unfolding get
member k (object fs) = get k (fields fs)
member _ _ = none

abbrev pub and_then {ℓ κ} : {A : Type ℓ} {B : Type κ} → Option A → (A → Option B) → Option B
and_then none f = none
and_then (some a) f = f a

abbrev pub unwrap_or {ℓ} : {A : Type ℓ} → Option A → A → A
unwrap_or none d = d
unwrap_or (some a) d = a

-- `value.get(key).and_then(Value::as_str)` and the like.
unfoldable pub str_claim : String → Value → Option String
unfolding member
str_claim k v = and_then (member k v) as_str

unfoldable pub u64_claim : String → Value → Option ℕ
unfolding member
u64_claim k v = and_then (member k v) as_u64

-- `value[key] = v` on an object: the field is replaced, or added at the end. The program writes
-- so to objects only.
abbrev set_in : String → Value → Fields → Fields
set_in k v end = field k v end
set_in k v (field j w fs) = if j == k then field j v fs else field j w (set_in k v fs)

unfoldable pub set_field : String → Value → Value → Value
set_field k v (object fs) = object (set_in k v fs)
set_field k v w = w

-- `json!({ .. })`, field by field.
abbrev pub json_object : List (String × Value) → Value
json_object kvs = object (go kvs)
  where
    go : List (String × Value) → Fields
    go [] = end
    go ((k, v) ∷ kvs) = field k v (go kvs)

abbrev pub json_array : List Value → Value
json_array vs = array (go vs)
  where
    go : List Value → Items
    go [] = nil
    go (v ∷ vs) = cons v (go vs)

abbrev pub json_num : ℕ → Value
json_num n = number (pos_int n)

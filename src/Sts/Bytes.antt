-- ===== src/Sts/Bytes.antt =====
-- The UTF-8 bytes of a text, and the comparison of secrets
-- (crates/identity-hub-core/src/sts.rs).
use ds_identity_hub_rs.Common.{ℕ, ◌<◌, String, ◌≡◌, ◌↔◌, true, arith, All, All-append}
use ds_identity_hub_rs.Common.Text.{utf8, as_bytes}
use Prim.Native.Char.{Char, char, code}
use ds_identity_hub_rs.Sts.{constant_time_eq}
use ds_identity_hub_rs.Sts.Compare.{constant_time_eq_iff}

code_bound : (c : Char) → code c < 1114112
code_bound (char n p) = ground arith

utf8-bytes : (c : ℕ) → c < 1114112 → All (λ n. n < 256) (utf8 c)
utf8-bytes c bound = ground arith

as_bytes-bytes : (s : String) → All (λ n. n < 256) (as_bytes s)
unfolding as_bytes
as_bytes-bytes String.[] = tt
as_bytes-bytes (String.◌∷◌ c s) =
    All-append (λ n. n < 256) (utf8 (code c)) (as_bytes s) (utf8-bytes (code c) (code_bound c))
      (as_bytes-bytes s)

-- On texts the comparison of secrets is equality of their bytes.
pub same_bytes_iff :
    (a b : String) → (constant_time_eq (as_bytes a) (as_bytes b) ≡ true) ↔ (as_bytes a ≡ as_bytes b)
same_bytes_iff a b =
    constant_time_eq_iff (as_bytes a) (as_bytes b) (as_bytes-bytes a) (as_bytes-bytes b)

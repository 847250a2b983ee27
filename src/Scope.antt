-- ===== src/Scope.antt =====
-- Scopes and the credential types they name (crates/identity-hub-core/src/scope.rs).
use ds_identity_hub_rs.Common.{String, List, [], ◌∷◌, ◌==◌, if◌then◌else◌, filter_map}
use ds_identity_hub_rs.Common.Text.{is_whitespace}
use ds_identity_hub_rs.External.{External}
use Prim.Native.Char.{code}

-- `Vec::dedup`: drops an element equal to the one before it.
unfoldable pub dedup : List String → List String
dedup [] = []
dedup (s ∷ []) = s ∷ []
dedup (s ∷ t ∷ ts) = let rest = dedup (t ∷ ts) in if s == t then rest else s ∷ rest

unfoldable pub credential_types : (x : External) → List String → List String
unfolding dedup
credential_types x scopes = dedup (filter_map x.scope_type scopes)

-- A word that is being read, and the words after it.
abbrev push_word : String → List String → List String
push_word String.[] words = words
push_word (String.◌∷◌ c s) words = String.◌∷◌ c s ∷ words

abbrev words : String → String × List String
words String.[] = ("", [])
words (String.◌∷◌ c s) =
    let (word, rest) = words s in
    if is_whitespace (code c) then ("", push_word word rest) else (String.◌∷◌ c word, rest)

unfoldable pub split_scope_string : String → List String
unfolding is_whitespace
split_scope_string scopes = let (word, rest) = words scopes in push_word word rest

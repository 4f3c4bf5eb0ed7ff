-- ===== src/Policy/Normalize.antt =====
-- internal/policy/model.go, NormalizeStringSet and NormalizeStringSlice. The keys of a
-- `map[string]struct{}` are a list in which the program only looks for texts.
pub mod Laws
use taifa_exchange.Base.{String, ◌==◌, List, [], ◌∷◌, ◌++◌, contains, if◌then◌else◌}
use taifa_exchange.Text.{Unicode, normal}

module _ ⦃u : Unicode⦄ where
  set_loop : List String → List String → List String
  set_loop set [] = set
  set_loop set (v ∷ vs) =
      let value = normal v in set_loop (if value == "" then set else value ∷ set) vs

  unfoldable pub normalize_string_set : List String → List String
  unfolding set_loop
  normalize_string_set values = set_loop [] values

  -- The loop of NormalizeStringSlice, over the set of the texts that it has seen and its result.
  unfoldable pub slice_loop : List String → List String → List String → List String
  slice_loop seen out [] = out
  slice_loop seen out (v ∷ vs) =
      let value = normal v in
      let skip = slice_loop seen out vs in
      let add = slice_loop (value ∷ seen) (out ++ value ∷ []) vs in
      if value == "" then skip else if contains seen value then skip else add

  unfoldable pub normalize_string_slice : List String → List String
  unfolding slice_loop contains
  normalize_string_slice values = slice_loop [] [] values

-- ===== src/Manifest/Errors.antt =====
-- error.rs of nixfied-manifest. The rendered `actual` of a message is kept as the values that it
-- shows; `index_panic` is a panicking map access, which is no error of the source.
use Prim.Native.String.{String}
use nixfied.Prelude.{ℕ, Bool, true, false, List, [], ◌∷◌, Text, codes, Result, text_eq, ensure, not}
use nixfied.Manifest.Types.{TaskDefaultOutput}

pub data Actual : Type 0 where
  as_text : Text → Actual
  as_number : ℕ → Actual
  as_texts : List Text → Actual
  as_range : ℕ → ℕ → ℕ → Actual
  as_window : ℕ → ℕ → Actual
  as_windows : List (ℕ × ℕ) → Actual
  as_output : Text → TaskDefaultOutput → Actual
  as_pair : Text → Text → Actual
  fixed : String → Actual

pub data ValidationError : Type 0 where
  manifest_version : ℕ → ℕ → ValidationError
  toolchain_id runtime_abi : Text → Text → ValidationError
  empty_field : String → ValidationError
  unsupported_value : String → String → Actual → ValidationError
  expected_one : String → ValidationError
  index_panic : Text → ValidationError

abbrev pub Check : Type 0
Check = Result ValidationError (Unit {0})

unfoldable pub is_empty {ℓ} : {A : Type ℓ} → List A → Bool
is_empty [] = true
is_empty (x ∷ xs) = false

unfoldable pub require_non_empty : String → Text → Check
unfolding is_empty
require_non_empty field value = ensure (empty_field field) (not (is_empty value))

unfoldable pub expect_string : String → String → Text → Check
expect_string field expected actual =
    ensure (unsupported_value field expected (as_text actual)) (text_eq actual (codes expected))

-- ===== src/Manifest/Ids.antt =====
-- Identifiers of validation.rs: `[A-Za-z0-9][A-Za-z0-9._-]*`, and the step-safe ones without the
-- dot, which are the segments of a step path. A character outside ASCII fails as its bytes do.
use Prim.Native.String.{String}
use nixfied.Prelude.{
  ℕ, Bool, false, ◌&&◌, ◌||◌, List, [], ◌∷◌, Text, ok, ensure, leb, ◌==◌, all, ◌>>◌,
}
use nixfied.Manifest.Errors.{unsupported_value, as_text, Check}

unfoldable pub is_alphanumeric : ℕ → Bool
is_alphanumeric c =
    (leb b'0' c && leb c b'9') || (leb b'A' c && leb c b'Z') || (leb b'a' c && leb c b'z')

unfoldable pub is_step_char : ℕ → Bool
unfolding is_alphanumeric
is_step_char c = is_alphanumeric c || (c == b'_') || (c == b'-')

unfoldable pub is_path_char : ℕ → Bool
unfolding is_alphanumeric
is_path_char c = is_alphanumeric c || (c == b'.') || (c == b'_') || (c == b'-')

unfoldable pub is_step_safe_id : Text → Bool
unfolding is_step_char
is_step_safe_id [] = false
is_step_safe_id (c ∷ cs) = is_alphanumeric c && all is_step_char cs

unfoldable pub is_path_safe_id : Text → Bool
unfolding is_path_char
is_path_safe_id [] = false
is_path_safe_id (c ∷ cs) = is_alphanumeric c && all is_path_char cs

unfoldable pub require_path_safe_id : String → Text → Check
unfolding is_path_safe_id
require_path_safe_id field id =
    ensure (unsupported_value field "an id matching [A-Za-z0-9][A-Za-z0-9._-]*" (as_text id))
      (is_path_safe_id id)

unfoldable pub require_step_safe_id : String → Text → Check
unfolding is_step_safe_id
require_step_safe_id field id =
    ensure (unsupported_value field "an id matching [A-Za-z0-9][A-Za-z0-9_-]*" (as_text id))
      (is_step_safe_id id)

-- A check of each key of a map, in order.
unfoldable pub require_keys {ℓ} : {V : Type ℓ} → (Text → Check) → List (Text × V) → Check
require_keys check [] = ok tt
require_keys check ((k, v) ∷ m) = let rest = require_keys check m in check k >> rest

-- ===== src/Template/Tokens.antt =====
-- `tokenize` of template.rs. Its `while let` loop runs on fuel, one more than the text has bytes;
-- `none` means that it ran out. Offsets are byte offsets, as in the source.
use nixfied.Prelude.{
  ℕ, zero, suc, ◌+◌, Bool, true, false, not, ◌&&◌, ◌||◌, Option, none, some, List, [], ◌∷◌, ◌++◌,
  Text, codes, starts_with, strip_prefix, find_text, slice, length, take, drop, any, ltb,
  if◌then◌else◌, ◌==◌,
}
use mathlib.Core.Option

pub data Kind : Type 0 where
  port host state_dir secret : Kind

pub data Reference : Type 0 where
  port_of host_of : Option Text → Reference
  state_dir_of : Reference
  secret_of : Text → Reference

pub data Token : Type 0 where
  literal : Text → Token
  reference : Reference → Token
  malformed : Kind → Bool → Token

unfoldable pub is_secret : Kind → Bool
is_secret secret = true
is_secret _ = false

unfoldable pub is_state_dir : Kind → Bool
is_state_dir state_dir = true
is_state_dir _ = false

-- `${kind}`; `none` is the source's `unreachable!`.
unfoldable pub bare_reference : Kind → Option Reference
bare_reference port = some (port_of none)
bare_reference host = some (host_of none)
bare_reference state_dir = some state_dir_of
bare_reference secret = none

-- `${kind:name}`; `none` is the source's `unreachable!`.
unfoldable pub named_reference : Kind → Text → Option Reference
named_reference port name = some (port_of (some name))
named_reference host name = some (host_of (some name))
named_reference secret name = some (secret_of name)
named_reference state_dir name = none

-- `!name.is_empty() && !name.contains(['{', '}'])`
unfoldable pub is_name : Text → Bool
is_name [] = false
is_name (c ∷ cs) = not (any (λ b. (b == b'{') || (b == b'}')) (c ∷ cs))

-- The reference token and its length, where the source's match is reachable.
unfoldable pub with_length : ℕ → Option Reference → Option (Token × ℕ)
with_length n none = none
with_length n (some r) = some (reference r, n)

-- What follows the colon; `n` is the length of the prefix.
unfoldable pub recognize_payload : Kind → Text → ℕ → Option ℕ → Option (Token × ℕ)
unfolding named_reference is_name with_length
recognize_payload kind payload n none = some (malformed kind false, 2)
recognize_payload kind payload n (some end) =
    if is_name (take end payload)
    then with_length (n + end + 2) (named_reference kind (take end payload))
    else some (malformed kind (end == 0), 2)

unfoldable pub payload_of : Kind → Text → Option Text
unfolding is_state_dir
payload_of kind rest = if is_state_dir kind then none else strip_prefix rest (codes ":")

unfoldable pub is_end : Text → Bool
is_end [] = true
is_end (c ∷ cs) = false

-- Neither `${kind}` nor `${kind:`.
unfoldable pub recognize_end : Kind → Text → Option (Token × ℕ)
unfolding is_end is_secret
recognize_end kind rest =
    if is_end rest && not (is_secret kind) then some (malformed kind false, 2) else none

unfoldable pub recognize_colon : Kind → Text → ℕ → Option Text → Option (Token × ℕ)
unfolding recognize_payload recognize_end
recognize_colon kind rest n (some payload) =
    recognize_payload kind payload n (find_text payload (codes "}"))
recognize_colon kind rest n none = recognize_end kind rest

-- What follows the prefix.
unfoldable pub recognize_rest : Kind → Text → ℕ → Option (Token × ℕ)
unfolding recognize_colon payload_of bare_reference with_length is_secret
recognize_rest kind rest n =
    if starts_with rest (codes "}") && not (is_secret kind)
    then with_length (n + 1) (bare_reference kind)
    else recognize_colon kind rest n (payload_of kind rest)

-- The closure of `find_map`.
unfoldable pub recognize : Text → Text → Kind → Option (Token × ℕ)
unfolding recognize_rest
recognize text prefix kind = elim (strip_prefix text prefix) [
  | none ↦ none
  | some rest ↦ recognize_rest kind rest (length prefix)
]

-- The prefixes in the order in which they are tried.
unfoldable pub recognized : Text → Option (Token × ℕ)
unfolding recognize Option.or_else
recognized text = Option.or_else (recognize text (codes "${port") port) (
    Option.or_else (recognize text (codes "${host") host) (
      Option.or_else (recognize text (codes "${stateDir") state_dir)
        (recognize text (codes "${secret") secret)))

-- The literal before a token, if it is not empty.
unfoldable pub push_literal : Text → ℕ → ℕ → List Token → List Token
push_literal value from to tokens =
    if ltb from to then tokens ++ literal (slice value from to) ∷ [] else tokens

-- The tokens so far, and where the last literal begins.
unfoldable pub tokenize_loop : ℕ → Text → ℕ → ℕ → List Token → Option (List Token × ℕ)
unfolding recognized push_literal
tokenize_loop zero value cursor lit tokens = none
tokenize_loop (suc fuel) value cursor lit tokens =
    elim (find_text (drop cursor value) (codes "${")) [
      | none ↦ some (tokens, lit)
      | some offset ↦
          let start = cursor + offset in
          elim (recognized (drop start value)) [
            | some (token, n) ↦
                tokenize_loop fuel value (start + n) (start + n)
                  (push_literal value lit start tokens ++ token ∷ [])
            | none ↦ tokenize_loop fuel value (start + 2) lit tokens
          ]
    ]

unfoldable pub tokenize : Text → Option (List Token)
unfolding tokenize_loop push_literal
tokenize value =
    Option.map (λ s. push_literal value s.1 (length value) s.0)
      (tokenize_loop (suc (length value)) value 0 0 [])

-- ===== src/Prelude/Texts.antt =====
-- Texts as lists of bytes: Rust's `str` compared, ordered and cut by bytes.
use Prim.Native.Char.{code}
use Prim.Native.String.{String}
use Prim.Native.Nat.{ℕ, zero, suc, ◌-◌, ◌≤◌, ◌<◌}
use mathlib.Core.Path.{◌≡◌, refl, ap}
use mathlib.Core.Logic.{inl, inr}
use mathlib.Core.Bool.{Bool, true, false, ◌&&◌, ◌||◌}
use mathlib.Core.List.{List, [], ◌∷◌, ◌++◌}
use native.Mathlib.Omega.{arith}
use nixfied.Prelude.Tests.{Bool-cases, ◌==◌, ltb, if◌then◌else◌}
use mathlib.Core.Option
use mathlib.Core.Option.{Option, none, some, some-injective}
use nixfied.Prelude.Lists.{length, drop, take}

abbrev pub Text : Type 0
Text = List ℕ

-- The bytes of an ASCII literal.
abbrev pub codes : String → Text
codes String.[] = []
codes (String.◌∷◌ c s) = code c ∷ codes s

unfoldable pub text_eq : Text → Text → Bool
text_eq [] [] = true
text_eq (a ∷ s) (b ∷ t) = (a == b) && text_eq s t
text_eq _ _ = false

-- Byte order, as `Ord` of `String` has it.
unfoldable pub text_lt : Text → Text → Bool
text_lt [] [] = false
text_lt [] (b ∷ t) = true
text_lt (a ∷ s) [] = false
text_lt (a ∷ s) (b ∷ t) = ltb a b || ((a == b) && text_lt s t)

-- `text.starts_with(prefix)`
unfoldable pub starts_with : Text → Text → Bool
starts_with t [] = true
starts_with [] (p ∷ ps) = false
starts_with (a ∷ t) (p ∷ ps) = (a == p) && starts_with t ps

pub text_eq→≡ : (s t : Text) → text_eq s t ≡ true → s ≡ t
unfolding text_eq
text_eq→≡ [] [] h = refl
text_eq→≡ [] (b ∷ t) h = cc
text_eq→≡ (a ∷ s) [] h = cc
text_eq→≡ (a ∷ s) (b ∷ t) h = ground (arith, text_eq→≡ s t)

pub text_eq_refl : (s : Text) → text_eq s s ≡ true
unfolding text_eq
text_eq_refl [] = refl
text_eq_refl (a ∷ s) = ground (arith, text_eq_refl s)

pub starts_with-length : (t p : Text) → starts_with t p ≡ true → length p ≤ length t
unfolding starts_with
starts_with-length t [] h = omega arith
starts_with-length [] (p ∷ ps) h = cc
starts_with-length (a ∷ t) (p ∷ ps) h = ground (arith, starts_with-length t ps)

-- A match inside the text does not depend on what follows the text.
pub starts_with-append :
    (t p more : Text) → length p ≤ length t → starts_with (t ++ more) p ≡ starts_with t p
unfolding starts_with
starts_with-append t [] more h = refl
starts_with-append [] (p ∷ ps) more h = absurd (omega arith)
starts_with-append (a ∷ t) (p ∷ ps) more h =
    ap (λ (b : Bool). (a == p) && b) (starts_with-append t ps more (omega arith))

-- A text is its prefix and the rest.
pub starts_with-split : (t p : Text) → starts_with t p ≡ true → t ≡ p ++ drop (length p) t
unfolding starts_with
starts_with-split t [] h = refl
starts_with-split [] (p ∷ ps) h = cc
starts_with-split (a ∷ t) (p ∷ ps) h = ground (arith, starts_with-split t ps)

pub starts_with-self_append : (p t : Text) → starts_with (p ++ t) p ≡ true
unfolding starts_with
starts_with-self_append [] t = refl
starts_with-self_append (a ∷ p) t = ground (arith, starts_with-self_append p t)

-- A longer pattern that matches the continued text has the text itself as a prefix.
pub starts_with-longer :
    (t p more : Text)
    → length t ≤ length p
    → starts_with (t ++ more) p ≡ true
    → starts_with p t ≡ true
unfolding starts_with
starts_with-longer [] p more h s = refl
starts_with-longer (a ∷ t) [] more h s = absurd (omega arith)
starts_with-longer (a ∷ t) (p ∷ ps) more h s = ground (arith, starts_with-longer t ps more)

-- `text.strip_prefix(prefix)`
unfoldable pub strip_prefix : Text → Text → Option Text
strip_prefix t p = if starts_with t p then some (drop (length p) t) else none

-- `text.find(needle)`: the offset of the first occurrence.
unfoldable pub find_text : Text → Text → Option ℕ
find_text [] needle = if starts_with [] needle then some 0 else none
find_text (a ∷ t) needle =
    let later = find_text t needle in
    if starts_with (a ∷ t) needle then some 0 else Option.map suc later

-- `&text[from..to]`
unfoldable pub slice : Text → ℕ → ℕ → Text
slice t from to = take (to - from) (drop from t)

pub strip_prefix-split : (t p : Text) {rest : Text} → strip_prefix t p ≡ some rest → t ≡ p ++ rest
unfolding strip_prefix
strip_prefix-split t p h = ground (arith, starts_with-split t p)

-- The offset is that of an occurrence, and there is none before it.
abbrev pub IsFirst : Text → Text → ℕ → Type 0
IsFirst t needle n =
    (starts_with (drop n t) needle ≡ true)
    × ((i : ℕ) → i < n → starts_with (drop i t) needle ≡ false)

IsFirst-suc :
    (a : ℕ) (t needle : Text) (n : ℕ)
    → starts_with (a ∷ t) needle ≡ false
    → IsFirst t needle n
    → IsFirst (a ∷ t) needle (suc n)
IsFirst-suc a t needle n e h = (h.0, before)
  where
    before : (i : ℕ) → i < suc n → starts_with (drop i (a ∷ t)) needle ≡ false
    before zero l = e
    before (suc i) l = h.1 i (omega arith)

pub find_text-IsFirst : (t needle : Text) (n : ℕ) → find_text t needle ≡ some n → IsFirst t needle n
unfolding find_text
find_text-IsFirst [] needle zero h = (ground arith, λ i l. absurd (omega arith))
find_text-IsFirst [] needle (suc n) h = ground arith
find_text-IsFirst (a ∷ t) needle zero h = elim (Bool-cases (starts_with (a ∷ t) needle)) [
  | inl e ↦ (e, λ i l. absurd (omega arith))
  | inr e ↦ ground arith
]
find_text-IsFirst (a ∷ t) needle (suc n) h = elim (Bool-cases (starts_with (a ∷ t) needle)) [
  | inl e ↦ ground arith
  | inr e ↦ IsFirst-suc a t needle n e (find_text-IsFirst t needle n (ground arith))
]

pub find_text-none :
    (t needle : Text) → find_text t needle ≡ none → (i : ℕ) → starts_with (drop i t) needle ≡ false
unfolding find_text
find_text-none [] needle h zero = ground arith
find_text-none [] needle h (suc i) = ground arith
find_text-none (a ∷ t) needle h zero = ground arith
find_text-none (a ∷ t) needle h (suc i) = find_text-none t needle (ground arith) i

-- ===== src/Template/Roundtrip.antt =====
-- The tokens of a text spell the text: nothing is lost, added or read twice.
use mathlib.Core.List.{append-nil, append_assoc}
use nixfied.Prelude.{
  ℕ, zero, suc, ◌+◌, ◌-◌, ◌<◌, ◌≤◌, ◌≡◌, refl, sym, ap, ◌∙◌, false, some, List, [], ◌∷◌, ◌++◌, Text,
  codes, starts_with-length, length-drop, find_text, find_text-IsFirst, IsFirst, slice, length,
  length-append, take, drop, take-append-drop, drop-length_append, drop-add, drop-length, arith,
  Bool-cases, Option-cases, inl, inr, if◌then◌else◌, ltb,
}
use nixfied.Template.Tokens.{Token, recognized, push_literal, tokenize_loop, tokenize}
use nixfied.Template.Render.{render, render_all, IsRead, recognized-IsRead}

render_all-append : (ts us : List Token) → render_all (ts ++ us) ≡ render_all ts ++ render_all us
render_all-append [] us = refl
render_all-append (t ∷ ts) us =
    ap (λ z. render t ++ z) (render_all-append ts us)
    ∙ sym (append_assoc (render t) (render_all ts) (render_all us))

drop-slice :
    (value : Text) (from to : ℕ)
    → from ≤ to
    → drop from value ≡ slice value from to ++ drop to value
unfolding slice
drop-slice value from to h =
    sym (take-append-drop (to - from) (drop from value))
    ∙ ap (λ z. take (to - from) (drop from value) ++ z)
        (sym (drop-add from (to - from) value) ∙ ap (λ (k : ℕ). drop k value) (omega arith))

-- What has been written so far, with the text from the pending literal on, is the text.
abbrev Spells : Text → List Token → ℕ → Type 0
Spells value tokens lit = render_all tokens ++ drop lit value ≡ value

push_literal-Spells :
    (value : Text) (from to : ℕ) (tokens : List Token)
    → from ≤ to
    → Spells value tokens from
    → Spells value (push_literal value from to tokens) to
unfolding push_literal
push_literal-Spells value from to tokens low h = elim (Bool-cases (ltb from to)) [
  | inl t ↦
      simp (t, if◌then◌else◌, render_all-append, append-nil, append_assoc)
        (ap (λ z. render_all tokens ++ z) (sym (drop-slice value from to low)) ∙ h)
  | inr t ↦ rw t (ap (λ (k : ℕ). render_all tokens ++ drop k value) (same t) ∙ h)
]
  where
    same : ltb from to ≡ false → to ≡ from
    same t = ground arith

token-Spells :
    (value : Text) (tokens : List Token) (start : ℕ) {token : Token} {n : ℕ}
    → Spells value tokens start
    → IsRead (drop start value) token n
    → Spells value (tokens ++ token ∷ []) (start + n)
token-Spells value tokens start {token} {n} h read =
    simp (render_all-append, append-nil, append_assoc) (ap (λ z. render_all tokens ++ z) front ∙ h)
  where
    front : render token ++ drop (start + n) value ≡ drop start value
    front =
        ap (λ z. render token ++ z)
          (drop-add start n value
            ∙ ap (λ z. drop n z) read.at
            ∙ ap (λ (k : ℕ). drop k (render token ++ read.rest)) (sym read.size)
            ∙ drop-length_append (render token) read.rest)
        ∙ sym read.at

IsRead-fits :
    (value : Text) (start : ℕ) {token : Token} {n : ℕ}
    → start ≤ length value
    → IsRead (drop start value) token n
    → start + n ≤ length value
IsRead-fits value start {token} {n} h read = omega (
  arith,
  length-drop start value,
  ap (λ (z : Text). length z) read.at,
  length-append (render token) read.rest,
  read.size,
)

opener-fits :
    (value : Text) (cursor offset : ℕ)
    → cursor ≤ length value
    → IsFirst (drop cursor value) (codes "${") offset
    → cursor + offset + 2 ≤ length value
opener-fits value cursor offset h f = omega (
  arith,
  starts_with-length (drop offset (drop cursor value)) (codes "${") f.0,
  length-drop offset (drop cursor value),
  length-drop cursor value,
)

module _ (value : Text) where
  -- The loop ends with tokens that spell the text up to the pending literal.
  abbrev Ends : ℕ → ℕ → ℕ → List Token → Type 0
  Ends fuel cursor lit tokens =
      (ts : List Token) × (l : ℕ) × (tokenize_loop fuel value cursor lit tokens ≡ some (ts, l))
      × (l ≤ length value)
      × Spells value ts l

  tokenize_loop-Ends :
      (fuel cursor lit : ℕ) (tokens : List Token)
      → length value - cursor < fuel
      → lit ≤ cursor
      → cursor ≤ length value
      → Spells value tokens lit
      → Ends fuel cursor lit tokens
  unfolding tokenize_loop
  tokenize_loop-Ends zero cursor lit tokens f l c h = absurd (omega arith)
  tokenize_loop-Ends (suc fuel) cursor lit tokens f l c h =
      elim (Option-cases (find_text (drop cursor value) (codes "${"))) [
        | inl e ↦ (tokens, lit, rw (tokenize_loop, e), omega arith, h)
        | inr (offset, e) ↦
            let fits =
              opener-fits value cursor offset c
                (find_text-IsFirst (drop cursor value) (codes "${") offset e) in
            elim (Option-cases (recognized (drop (cursor + offset) value))) [
              | inl r ↦
                  let (ts, k, run, low, spells) =
                    tokenize_loop-Ends fuel (cursor + offset + 2) lit tokens (omega arith)
                      (omega arith) fits h in
                  (ts, k, rw (tokenize_loop, e, r) run, low, spells)
              | inr ((token, n), r) ↦
                  let start = cursor + offset in
                  let read = recognized-IsRead (drop start value) r in
                  let low = read.low in
                  let spelled =
                    token-Spells value (push_literal value lit start tokens) start
                      (push_literal-Spells value lit start tokens (omega arith) h) read in
                  let (ts, k, run, le, spells) =
                    tokenize_loop-Ends fuel (start + n) (start + n)
                      (push_literal value lit start tokens ++ token ∷ []) (omega arith)
                      (omega arith) (IsRead-fits value start (omega arith) read) spelled in
                  (ts, k, rw (tokenize_loop, e, r) run, le, spells)
            ]
      ]

-- Tokenizing ends for every text, and the tokens spell the text: rendering each literal as itself,
-- each reference as its placeholder and each malformed placeholder as `${` gives the text back.
pub tokenize-render :
    (value : Text)
    → (tokens : List Token) × (tokenize value ≡ some tokens) × (render_all tokens ≡ value)
unfolding tokenize
tokenize-render value =
    let (ts, l, run, low, spells) =
      tokenize_loop-Ends value (suc (length value)) 0 0 [] (omega arith) (omega arith) (omega arith)
        refl in
    let last = push_literal-Spells value l (length value) ts low spells in
    (push_literal value l (length value) ts, rw run, rw (drop-length, append-nil) at last)

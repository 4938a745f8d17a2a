-- ===== src/Template/Render.antt =====
-- What each kind of placeholder spells, and that a recognized token spells the front of the text.
use mathlib.Core.List.{append_assoc}
use mathlib.Core.Option
use nixfied.Prelude.{
  ◌⊎◌, ℕ, ◌+◌, ◌≤◌, ◌≡◌, refl, sym, ap, ◌∙◌, Bool, true, false, Option, none, some, some-injective,
  List, [], ◌∷◌, ◌++◌, Text, codes, starts_with, starts_with-split, starts_with-length, length-drop,
  length-take_le, strip_prefix, strip_prefix-split, find_text, find_text-IsFirst, length,
  length-append, take, drop, take-append-drop, arith, Bool-cases, inl, inr, if◌then◌else◌, ◌==◌,
  not, ◌&&◌,
}
use nixfied.Template.Tokens.{
  Kind, port, host, state_dir, secret, Reference, port_of, host_of, state_dir_of, secret_of, Token,
  literal, reference, malformed, bare_reference, named_reference, with_length, recognize,
  recognize_rest, recognize_colon, is_name, is_end, is_secret, recognize_payload, recognize_end,
  payload_of, recognized,
}

-- The spelling of a kind, from the opener on.
abbrev pub opener : Kind → Text
opener port = codes "${port"
opener host = codes "${host"
opener state_dir = codes "${stateDir"
opener secret = codes "${secret"

abbrev named : Kind → Text → Text
named kind name = opener kind ++ codes ":" ++ name ++ codes "}"

abbrev pub render_reference : Reference → Text
render_reference (port_of none) = opener port ++ codes "}"
render_reference (port_of (some name)) = named port name
render_reference (host_of none) = opener host ++ codes "}"
render_reference (host_of (some name)) = named host name
render_reference state_dir_of = opener state_dir ++ codes "}"
render_reference (secret_of name) = named secret name

-- A malformed placeholder stands for its opener `${` alone; the rest is read again.
abbrev pub render : Token → Text
render (literal text) = text
render (reference r) = render_reference r
render (malformed kind empty) = codes "${"

abbrev pub render_all : List Token → Text
render_all [] = []
render_all (t ∷ ts) = render t ++ render_all ts

-- The token is the front of the text, and its length is right.
pub record IsRead (text : Text) (token : Token) (n : ℕ) : Type 0 where
  pub rest : Text
  pub at : text ≡ render token ++ rest
  pub size : length (render token) ≡ n
  pub low : 2 ≤ n

render-bare :
    (kind : Kind) {r : Reference}
    → bare_reference kind ≡ some r
    → render_reference r ≡ opener kind ++ codes "}"
unfolding bare_reference
render-bare port h = sym (ap render_reference (some-injective _ _ h))
render-bare host h = sym (ap render_reference (some-injective _ _ h))
render-bare state_dir h = sym (ap render_reference (some-injective _ _ h))
render-bare secret h = cc

render-named :
    (kind : Kind) (name : Text) {r : Reference}
    → named_reference kind name ≡ some r
    → render_reference r ≡ named kind name
unfolding named_reference
render-named port name h = sym (ap render_reference (some-injective _ _ h))
render-named host name h = sym (ap render_reference (some-injective _ _ h))
render-named secret name h = sym (ap render_reference (some-injective _ _ h))
render-named state_dir name h = cc

-- The opener `${` of a malformed placeholder.
opener-IsRead :
    (kind : Kind) (empty : Bool) (text rest : Text)
    → text ≡ opener kind ++ rest
    → IsRead text (malformed kind empty) 2
opener-IsRead port empty text rest e = record {
  rest = codes "port" ++ rest;
  at = e;
  size = refl;
  low = omega arith;
}
opener-IsRead host empty text rest e = record {
  rest = codes "host" ++ rest;
  at = e;
  size = refl;
  low = omega arith;
}
opener-IsRead state_dir empty text rest e = record {
  rest = codes "stateDir" ++ rest;
  at = e;
  size = refl;
  low = omega arith;
}
opener-IsRead secret empty text rest e = record {
  rest = codes "secret" ++ rest;
  at = e;
  size = refl;
  low = omega arith;
}

malformed-IsRead :
    (kind : Kind) (empty : Bool) (text rest : Text) {token : Token} {n : ℕ}
    → text ≡ opener kind ++ rest
    → ◌≡◌ {A = Option (Token × ℕ)} (some (malformed kind empty, 2)) (some (token, n))
    → IsRead text token n
malformed-IsRead kind empty text rest {token} {n} e h =
    let et : malformed kind empty ≡ token = cc in
    let en : 2 ≡ n = cc in rw (sym et, sym en) (opener-IsRead kind empty text rest e)

absurd_none :
    {text : Text} {token : Token} {n : ℕ}
    → ◌≡◌ {A = Option (Token × ℕ)} none (some (token, n))
    → IsRead text token n
absurd_none h = cc

opener-low : (kind : Kind) → 2 ≤ length (opener kind)
opener-low port = omega arith
opener-low host = omega arith
opener-low state_dir = omega arith
opener-low secret = omega arith

-- A token that is some text's spelling, at that text's length.
spelled-IsRead :
    (text spelling rest : Text) (r : Reference) (n : ℕ)
    → render_reference r ≡ spelling
    → text ≡ spelling ++ rest
    → length spelling ≡ n
    → 2 ≤ n
    → IsRead text (reference r) n
spelled-IsRead text spelling rest r n e at size low = record {
  rest = rest;
  at = rw e at;
  size = rw e size;
  low = low;
}

with_length-eq :
    (m : ℕ) (o : Option Reference) {token : Token} {n : ℕ}
    → with_length m o ≡ some (token, n)
    → (r : Reference) × (o ≡ some r) × (token ≡ reference r) × (n ≡ m)
unfolding with_length
with_length-eq m none h = cc
with_length-eq m (some r) h = (r, refl, ground arith, ground arith)

bare-IsRead :
    (kind : Kind) (text rest : Text) {token : Token} {n : ℕ}
    → text ≡ opener kind ++ rest
    → starts_with rest (codes "}") ≡ true
    → with_length (length (opener kind) + 1) (bare_reference kind) ≡ some (token, n)
    → IsRead text token n
bare-IsRead kind text rest {token} {n} e s h =
    let (r, er, et, en) = with_length-eq (length (opener kind) + 1) (bare_reference kind) h in
    let at =
      e
      ∙ ap (λ z. opener kind ++ z) (starts_with-split rest (codes "}") s)
      ∙ sym (append_assoc (opener kind) (codes "}") (drop 1 rest)) in
    rw (et, en)
      (spelled-IsRead text (opener kind ++ codes "}") (drop 1 rest) r (length (opener kind) + 1)
        (render-bare kind er) at (length-append (opener kind) (codes "}"))
        (omega (arith, opener-low kind)))

named-IsRead :
    (kind : Kind) (text payload : Text) (end : ℕ) {token : Token} {n : ℕ}
    → text ≡ opener kind ++ codes ":" ++ payload
    → starts_with (drop end payload) (codes "}") ≡ true
    → with_length (length (opener kind) + end + 2) (named_reference kind (take end payload))
      ≡ some (token, n)
    → IsRead text token n
named-IsRead kind text payload end {token} {n} e s h =
    let name = take end payload in
    let (r, er, et, en) =
      with_length-eq (length (opener kind) + end + 2) (named_reference kind name) h in
    let fits = starts_with-length (drop end payload) (codes "}") s in
    let size = length-take_le end payload (omega (arith, length-drop end payload)) in
    rw (et, en)
      (spelled-IsRead text (named kind name) (drop 1 (drop end payload)) r
        (length (opener kind) + end + 2) (render-named kind name er) (e ∙ split) (long size)
        (omega arith))
  where
    split :
        (opener kind ++ codes ":") ++ payload
        ≡ named kind (take end payload) ++ drop 1 (drop end payload)
    split =
        ap (λ z. (opener kind ++ codes ":") ++ z)
          (sym (take-append-drop end payload)
            ∙ ap (λ z. take end payload ++ z) (starts_with-split (drop end payload) (codes "}") s))
        ∙ sym (append_assoc (opener kind ++ codes ":") (take end payload) _)
        ∙ sym (append_assoc ((opener kind ++ codes ":") ++ take end payload) (codes "}") _)

    long :
        length (take end payload) ≡ end
        → length (named kind (take end payload)) ≡ length (opener kind) + end + 2
    long size = omega (
      arith,
      length-append ((opener kind ++ codes ":") ++ take end payload) (codes "}"),
      length-append (opener kind ++ codes ":") (take end payload),
      length-append (opener kind) (codes ":"),
      size,
    )

recognize_payload-IsRead :
    (kind : Kind) (text payload : Text) (found : Option ℕ) {token : Token} {n : ℕ}
    → text ≡ opener kind ++ codes ":" ++ payload
    → find_text payload (codes "}") ≡ found
    → recognize_payload kind payload (length (opener kind)) found ≡ some (token, n)
    → IsRead text token n
unfolding recognize_payload
recognize_payload-IsRead kind text payload none e f h =
    malformed-IsRead kind false text (codes ":" ++ payload) (e ∙ append_assoc (opener kind) _ _) h
recognize_payload-IsRead kind text payload (some end) e f h =
    elim (Bool-cases (is_name (take end payload))) [
      | inl t ↦
          named-IsRead kind text payload end e (find_text-IsFirst payload (codes "}") end f).0
            (rw (t, if◌then◌else◌) at h)
      | inr t ↦
          malformed-IsRead kind (end == 0) text (codes ":" ++ payload)
            (e ∙ append_assoc (opener kind) _ _) (rw (t, if◌then◌else◌) at h)
    ]

recognize_colon-IsRead :
    (kind : Kind) (text rest : Text) (payload : Option Text) {token : Token} {n : ℕ}
    → text ≡ opener kind ++ rest
    → payload_of kind rest ≡ payload
    → recognize_colon kind rest (length (opener kind)) payload ≡ some (token, n)
    → IsRead text token n
unfolding recognize_colon recognize_end payload_of
recognize_colon-IsRead kind text rest none e p h =
    elim (Bool-cases (is_end rest && not (is_secret kind))) [
      | inl t ↦ malformed-IsRead kind false text rest e (rw (t, if◌then◌else◌) at h)
      | inr t ↦ absurd_none (rw (t, if◌then◌else◌) at h)
    ]
recognize_colon-IsRead kind text rest (some payload) e p h =
    recognize_payload-IsRead kind text payload (find_text payload (codes "}"))
      (e
        ∙ ap (λ z. opener kind ++ z) (strip_prefix-split rest (codes ":") (stripped kind p))
        ∙ sym (append_assoc (opener kind) (codes ":") payload))
      refl h
  where
    stripped :
        (kind : Kind)
        → payload_of kind rest ≡ some payload
        → strip_prefix rest (codes ":") ≡ some payload
    stripped kind p = ground arith

recognize_rest-IsRead :
    (kind : Kind) (text rest : Text) {token : Token} {n : ℕ}
    → text ≡ opener kind ++ rest
    → recognize_rest kind rest (length (opener kind)) ≡ some (token, n)
    → IsRead text token n
unfolding recognize_rest
recognize_rest-IsRead kind text rest e h =
    elim (Bool-cases (starts_with rest (codes "}") && not (is_secret kind))) [
      | inl t ↦ bare-IsRead kind text rest e (ground arith) (rw (t, if◌then◌else◌) at h)
      | inr t ↦
          recognize_colon-IsRead kind text rest (payload_of kind rest) e refl
            (rw (t, if◌then◌else◌) at h)
    ]

recognize-IsRead :
    (kind : Kind) (text : Text) (found : Option Text) {token : Token} {n : ℕ}
    → strip_prefix text (opener kind) ≡ found
    → recognize text (opener kind) kind ≡ some (token, n)
    → IsRead text token n
unfolding recognize
recognize-IsRead kind text none e h = absurd_none (rw (recognize, e) at h)
recognize-IsRead kind text (some rest) e h =
    recognize_rest-IsRead kind text rest (strip_prefix-split text (opener kind) e)
      (rw (recognize, e) at h)

or_else-some :
    (o : Option (Token × ℕ)) {p : Option (Token × ℕ)} {t : Token × ℕ}
    → Option.or_else o p ≡ some t
    → (o ≡ some t) ⊎ (p ≡ some t)
unfolding Option.or_else
or_else-some none h = inr h
or_else-some (some t) h = inl h

-- Whatever kind is recognized, the token spells the front of the text.
pub recognized-IsRead :
    (text : Text) {token : Token} {n : ℕ} → recognized text ≡ some (token, n) → IsRead text token n
unfolding recognized
recognized-IsRead text h = elim (or_else-some (recognize text (opener port) port) h) [
  | inl e ↦ recognize-IsRead port text _ refl e
  | inr r ↦ elim (or_else-some (recognize text (opener host) host) r) [
    | inl e ↦ recognize-IsRead host text _ refl e
    | inr q ↦ elim (or_else-some (recognize text (opener state_dir) state_dir) q) [
      | inl e ↦ recognize-IsRead state_dir text _ refl e
      | inr e ↦ recognize-IsRead secret text _ refl e
    ]
  ]
]

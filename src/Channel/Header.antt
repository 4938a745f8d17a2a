-- ===== src/Channel/Header.antt =====
-- What `FrameReader::expected` of channel.rs tells of a front of any bytes.
use nixfied.Prelude.{
  ℕ, ◌+◌, ◌≤◌, ◌<◌, ◌≡◌, ◌⊎◌, refl, sym, ap, ◌∙◌, inl, inr, true, not, ◌||◌, none, some, List, [],
  ◌∷◌, ◌++◌, text_eq, text_eq→≡, ok, err, length, take, drop, ltb, ◌==◌, All, arith, Bool-cases,
}
use nixfied.Channel.Frame.{
  invalid_data, Protocol, header, to_be_bytes, from_be_bytes, encode, expected,
}
use nixfied.Channel.Rounds.{to_be_bytes-from_be_bytes}

abbrev pub AreBytes : List ℕ → Type 0
AreBytes bytes = All (λ b. b < 256) bytes

-- The size that a header of these bytes tells.
abbrev pub size_of : List ℕ → ℕ
size_of received = from_be_bytes (take 4 (drop 4 received))

-- A header is not complete, is refused, or is that of a frame within the bound.
pub expected-cases :
    (p : Protocol) (received : List ℕ)
    → ((expected p received ≡ ok none) × (length received < header))
      ⊎ (expected p received ≡ err invalid_data)
      ⊎ ((expected p received ≡ ok (some (header + size_of received)))
          × (header ≤ length received)
          × (take 4 received ≡ p.magic)
          × (0 < size_of received)
          × (size_of received ≤ p.max))
unfolding expected
expected-cases p received = elim (Bool-cases (ltb (length received) 8)) [
  | inl t ↦ inl (rw (expected, t) refl, ground (arith, t))
  | inr n ↦ elim (Bool-cases (text_eq (take 4 received) p.magic)) [
    | inr m ↦ inr (inl (rw (expected, n, m) refl))
    | inl m ↦ elim (Bool-cases ((size_of received == 0) || ltb p.max (size_of received))) [
      | inl s ↦ inr (inl (rw (expected, n, m, s) refl))
      | inr s ↦ inr (
          inr (
            rw (expected, n, m, s) refl,
            ground (arith, n),
            text_eq→≡ (take 4 received) p.magic m,
            ground (arith, s),
            ground (arith, s),
          ))
    ]
  ]
]

-- A header of eight bytes or more is its magic, its length and what follows.
pub header_parts :
    (xs : List ℕ)
    → AreBytes xs
    → 8 ≤ length xs
    → (xs ≡ take 4 xs ++ to_be_bytes (size_of xs) ++ drop 8 xs)
      × (length xs ≡ 8 + length (drop 8 xs))
header_parts [] all_bytes h = absurd (omega (arith, h))
header_parts (a ∷ []) all_bytes h = absurd (omega (arith, h))
header_parts (a ∷ b ∷ []) all_bytes h = absurd (omega (arith, h))
header_parts (a ∷ b ∷ c ∷ []) all_bytes h = absurd (omega (arith, h))
header_parts (a ∷ b ∷ c ∷ d ∷ []) all_bytes h = absurd (omega (arith, h))
header_parts (a ∷ b ∷ c ∷ d ∷ e ∷ []) all_bytes h = absurd (omega (arith, h))
header_parts (a ∷ b ∷ c ∷ d ∷ e ∷ f ∷ []) all_bytes h = absurd (omega (arith, h))
header_parts (a ∷ b ∷ c ∷ d ∷ e ∷ f ∷ g ∷ []) all_bytes h = absurd (omega (arith, h))
header_parts (a ∷ b ∷ c ∷ d ∷ e ∷ f ∷ g ∷ k ∷ t) all_bytes h =
    let (be, next) = all_bytes.1.1.1.1 in
    let (bf, more) = next in
    let (bg, last) = more in
    let same = to_be_bytes-from_be_bytes e f g k be bf bg last.0 in (rw same refl, omega arith)

-- A complete frame is what `encode` makes of its body.
pub encode-received :
    (p : Protocol) (xs : List ℕ)
    → AreBytes xs
    → 8 ≤ length xs
    → take 4 xs ≡ p.magic
    → 0 < size_of xs
    → size_of xs ≤ p.max
    → length xs ≡ header + size_of xs
    → encode p (drop 8 xs) ≡ ok xs
unfolding encode
encode-received p xs all_bytes h magic positive bounded whole =
    let (parts, long) = header_parts xs all_bytes h in
    let size : length (drop 8 xs) ≡ size_of xs = omega (arith, long, whole) in
    let test : not ((size_of xs == 0) || ltb p.max (size_of xs)) ≡ true =
      ground (arith, positive, bounded) in
    rw (size, test)
      (ap ok (ap (λ m. m ++ to_be_bytes (size_of xs) ++ drop 8 xs) (sym magic) ∙ sym parts))

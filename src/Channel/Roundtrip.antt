-- ===== src/Channel/Roundtrip.antt =====
-- A frame that a peer sends is read whole, however the operating system cuts it into reads.
use nixfied.Prelude.{
  ℕ, suc, ◌+◌, ◌-◌, ◌≤◌, ◌<◌, ◌≡◌, ◌⊎◌, refl, sym, ap, ◌∙◌, inl, inr, true, false, not, ◌||◌,
  Option, none, some, List, [], ◌∷◌, ◌++◌, text_eq_refl, ok, ok_injective, >>-ok, ensure, ensure-ok,
  length, length-append, length-take_le, drop-length_append, take, drop, ltb, ◌==◌, ==_iff, Mem,
  arith, Bool-cases,
}
use nixfied.Channel.Frame.{
  IoError, invalid_data, Protocol, header, to_be_bytes, from_be_bytes, encode, expected,
}
use nixfied.Channel.Socket.{Outcome, moves, interrupted, would_block, fails}
use nixfied.Channel.Reader.{
  complete, wants, next_of, Step, body, incomplete, stopped, failed, Reading,
}
use nixfied.Channel.Rounds.{take-append_past, from_be_bytes-to_be_bytes}

-- A protocol whose magic has four bytes and whose bound fits the four bytes of a length.
abbrev pub IsProtocol : Protocol → Type 0
IsProtocol p = (length p.magic ≡ 4) × (p.max < 4294967296)

-- A frame is a header of eight bytes and a body within the bound.
pub record IsFrame (p : Protocol) (content frame : List ℕ) : Type 0 where
  pub shape : frame ≡ p.magic ++ to_be_bytes (length content) ++ content
  pub positive : 0 < length content
  pub bounded : length content ≤ p.max

pub encode-IsFrame :
    (p : Protocol) (content frame : List ℕ) → encode p content ≡ ok frame → IsFrame p content frame
unfolding encode
encode-IsFrame p content frame h =
    let (test, last) =
      >>-ok (ensure invalid_data (not ((length content == 0) || ltb p.max (length content)))) _ h in
    let t = ensure-ok invalid_data _ test in
    record {
      shape = sym (ok_injective last);
      positive = ground (arith, t);
      bounded = ground (arith, t);
    }

four_of :
    (xs : List ℕ)
    → length xs ≡ 4
    → (a : ℕ) × (b : ℕ) × (c : ℕ) × (d : ℕ) × (xs ≡ a ∷ b ∷ c ∷ d ∷ [])
four_of (a ∷ b ∷ c ∷ d ∷ []) h = (a, b, c, d, refl)
four_of [] h = absurd (omega (arith, h))
four_of (a ∷ []) h = absurd (omega (arith, h))
four_of (a ∷ b ∷ []) h = absurd (omega (arith, h))
four_of (a ∷ b ∷ c ∷ []) h = absurd (omega (arith, h))
four_of (a ∷ b ∷ c ∷ d ∷ e ∷ xs) h = absurd (omega (arith, h))

length-to_be_bytes : (n : ℕ) → length (to_be_bytes n) ≡ 4
unfolding to_be_bytes
length-to_be_bytes n = refl

take-to_be_bytes : (n : ℕ) (t : List ℕ) → take 4 (to_be_bytes n ++ t) ≡ to_be_bytes n
unfolding to_be_bytes
take-to_be_bytes n t = refl

-- A whole header tells the length of its frame.
expected-header :
    (p : Protocol) (n : ℕ) (t : List ℕ)
    → IsProtocol p
    → 0 < n
    → n ≤ p.max
    → expected p (p.magic ++ to_be_bytes n ++ t) ≡ ok (some (header + n))
unfolding expected
expected-header p n t (four, small) pos le =
    let (a, b, c, d, e) = four_of p.magic four in
    let size : from_be_bytes (to_be_bytes n) ≡ n =
      from_be_bytes-to_be_bytes n (omega (arith, le, small)) in
    let long : ltb (length (a ∷ b ∷ c ∷ d ∷ (to_be_bytes n ++ t))) 8 ≡ false =
      ground (arith, length-append (to_be_bytes n) t, length-to_be_bytes n) in
    let magic = text_eq_refl (a ∷ b ∷ c ∷ d ∷ []) in
    let nonzero : (n == 0) ≡ false = ground (arith, pos) in
    let fits : ltb p.max n ≡ false = ground (arith, le) in
    rw (e, long, magic, take-to_be_bytes n t, size, nonzero, fits) refl

-- What the header tells of the front of a frame.
expected-frame :
    (p : Protocol) (content frame : List ℕ) (k : ℕ)
    → IsProtocol p
    → IsFrame p content frame
    → k ≤ length frame
    → ((k < header) × (expected p (take k frame) ≡ ok none))
      ⊎ ((header ≤ k) × (expected p (take k frame) ≡ ok (some (length frame))))
unfolding expected
expected-frame p content frame k i f h = elim (Bool-cases (ltb k 8)) [
  | inl t ↦ inl (ground (arith, t), short (ground (arith, length-take_le k frame h, t)))
  | inr n ↦
      let past : 8 ≤ k = ground (arith, n) in
      let front_bytes = length-append p.magic (to_be_bytes (length content)) in
      let eight : length (p.magic ++ to_be_bytes (length content)) ≡ 8 =
        omega (arith, front_bytes, i.0, length-to_be_bytes (length content)) in
      let front : take k frame ≡ p.magic ++ to_be_bytes (length content) ++ take (k - 8) content =
        ap (take k) f.shape
        ∙ take-append_past k (k - 8) (p.magic ++ to_be_bytes (length content)) content
            (omega (arith, eight, past)) in
      let whole : length frame ≡ header + length content =
        ap length f.shape
        ∙ omega (arith, length-append (p.magic ++ to_be_bytes (length content)) content, eight) in
      inr (
        past,
        rw (front, whole)
            (expected-header p (length content) (take (k - 8) content) i f.positive f.bounded),
      )
]
  where
    short : ltb (length (take k frame)) 8 ≡ true → expected p (take k frame) ≡ ok none
    short t = rw (expected, t) refl

pub length-IsFrame :
    (p : Protocol) (content frame : List ℕ)
    → IsProtocol p
    → IsFrame p content frame
    → (length frame ≡ header + length content) × (drop header frame ≡ content)
length-IsFrame p content frame i f =
    let front_bytes = length-append p.magic (to_be_bytes (length content)) in
    let eight : length (p.magic ++ to_be_bytes (length content)) ≡ 8 =
      omega (arith, front_bytes, i.0, length-to_be_bytes (length content)) in
    (
      ap length f.shape
          ∙ omega (arith, length-append (p.magic ++ to_be_bytes (length content)) content, eight),
      ap (drop 8) f.shape
          ∙ ap (λ n. drop n (p.magic ++ to_be_bytes (length content) ++ content)) (sym eight)
          ∙ drop-length_append (p.magic ++ to_be_bytes (length content)) content,
    )

-- What a step that has the first `k` bytes of a frame does next.
abbrev pub Foresees : Protocol → List ℕ → List ℕ → ℕ → Option ℕ → Type 0
Foresees p content frame k total =
    (expected p (take k frame) ≡ ok total)
    × (((k ≡ length frame) × (next_of (take k frame) total ≡ complete content))
        ⊎ ((n : ℕ) × (next_of (take k frame) total ≡ wants n) × (0 < n) × (k + n ≤ length frame)))

pub next_of-cases :
    (p : Protocol) (content frame : List ℕ) (k : ℕ)
    → IsProtocol p
    → IsFrame p content frame
    → k ≤ length frame
    → (total : Option ℕ) × Foresees p content frame k total
unfolding next_of
next_of-cases p content frame k i f h =
    let (long, back) = length-IsFrame p content frame i f in
    let size = length-take_le k frame h in
    elim (expected-frame p content frame k i f h) [
      | inl (less, e) ↦ (
        none,
        (e, inr (header - k, rw size refl, omega (arith, less), omega (arith, less, long))),
      )
      | inr (past, e) ↦ elim (Bool-cases (k == length frame)) [
        | inl t ↦
            let all_read : k ≡ length frame = (==_iff k (length frame)).0 t in
            (
              some (length frame),
              (
                e,
                inl (
                  all_read,
                  rw (next_of, size, t)
                      (ap complete (
                        ap (λ n. drop header (take n frame)) all_read
                        ∙ ap (drop header) (take-all frame)
                        ∙ back)),
                ),
              ),
            )
        | inr n ↦ (
          some (length frame),
          (
            e,
            inr (
              length frame - k,
              rw (next_of, size, n) refl,
              ground (arith, n, h),
              omega (arith, h),
            ),
          ),
        )
      ]
    ]
  where
    take-all : (xs : List ℕ) → take (length xs) xs ≡ xs
    take-all [] = refl
    take-all (x ∷ xs) = ap (λ l. x ∷ l) (take-all xs)

-- The answers that move bytes.
abbrev pub count_moves : List Outcome → ℕ
count_moves [] = 0
count_moves (moves more ∷ outcomes) = suc (count_moves outcomes)
count_moves (interrupted ∷ outcomes) = count_moves outcomes
count_moves (would_block ∷ outcomes) = count_moves outcomes
count_moves (fails e ∷ outcomes) = count_moves outcomes

-- The step ended before the whole frame: at an answer that would block, for want of answers when each
-- move brought a byte, or at an error of the operating system.
abbrev pub Halts : List Outcome → ℕ → ℕ → Step → Type 0
Halts outcomes from k step =
    ((step ≡ incomplete) × Mem would_block outcomes)
    ⊎ ((step ≡ stopped) × (from + count_moves outcomes ≤ k))
    ⊎ ((e : IoError) × (step ≡ failed e) × Mem (fails e) outcomes)

-- The frame's body is read and what follows the frame is left, or a front of the frame is read.
abbrev pub FrameRead : List ℕ → List ℕ → List ℕ → List Outcome → ℕ → Reading → Type 0
FrameRead content frame after outcomes from r =
    ((r.step ≡ body content) × (r.rest ≡ after))
    ⊎ ((k : ℕ) × (k < length frame)
        × (r.received ≡ take k frame)
        × (r.rest ≡ drop k frame ++ after)
        × Halts outcomes from k r.step)

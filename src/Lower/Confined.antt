-- ===== src/Lower/Confined.antt =====
-- `RelativeCwd::new` of types.rs: what a text that it accepts looks like between its slashes.
use nixfied.Prelude.{
  ℕ, ◌≡◌, ◌≢◌, inl, inr, refl, ap, sym, ◌∙◌, true, false, some, List, [], ◌∷◌, Text, codes, text_eq,
  text_eq_refl, any, any-false, ◌==◌, ==_iff, All, Bool-cases,
}
use nixfied.Lower.Paths.{split_segments, join_segments, is_rooted, relative_cwd}

-- A name between slashes that does not lead upwards.
abbrev pub IsPart : Text → Type 0
IsPart part = All (λ c. (c ≢ b'/') × (c ≢ 0)) part × (part ≢ codes "..")

-- The path is such names joined by slashes, and the first is not empty, so that no slash leads.
abbrev pub IsConfined : Text → Type 0
IsConfined path =
    (first : Text) × (rest : List Text) × (path ≡ join_segments (first ∷ rest))
    × (first ≢ [])
    × All IsPart (first ∷ rest)

-- The segments of a text are its parts between slashes.
abbrev IsSplit : Text → List Text → Type 0
IsSplit path segments =
    (first : Text) × (rest : List Text) × (segments ≡ first ∷ rest)
    × (join_segments (first ∷ rest) ≡ path)
    × All (λ part. All (λ c. (c ≢ b'/') × (c ≢ 0)) part) (first ∷ rest)

==-false : (a b : ℕ) → (a == b) ≡ false → a ≢ b
==-false a b f e = let t : (a == b) ≡ true = (==_iff a b).1 e in cc

join_segments-cons :
    (c : ℕ) (s : Text) (ss : List Text) → join_segments ((c ∷ s) ∷ ss) ≡ c ∷ join_segments (s ∷ ss)
unfolding join_segments
join_segments-cons c s [] = refl
join_segments-cons c s (t ∷ ss) = refl

split_segments-IsSplit :
    (path : Text) → All (λ c. (c == 0) ≡ false) path → IsSplit path (split_segments path)
unfolding split_segments join_segments
split_segments-IsSplit [] h = ([], [], refl, refl, (tt, tt))
split_segments-IsSplit (c ∷ cs) (z, h) =
    let (s, ss, e, joined, (part, parts)) = split_segments-IsSplit cs h in
    elim (Bool-cases (c == b'/')) [
      | inl t ↦
          let slash : c ≡ b'/' = (==_iff c b'/').0 t in
          ([], s ∷ ss, rw (split_segments, t, e) refl, rw (joined, slash) refl, (tt, (part, parts)))
      | inr f ↦ (
        c ∷ s,
        ss,
        rw (split_segments, f, e) refl,
        join_segments-cons c s ss ∙ ap (λ l. c ∷ l) joined,
        (((==-false c b'/' f, ==-false c 0 z), part), parts),
      )
    ]

text_eq-false : (s t : Text) → text_eq s t ≡ false → s ≢ t
text_eq-false s t f e = let same : text_eq s t ≡ true = rw e (text_eq_refl t) in cc

parts-confined :
    (parts : List Text)
    → All (λ part. All (λ c. (c ≢ b'/') × (c ≢ 0)) part) parts
    → All (λ s. text_eq s (codes "..") ≡ false) parts
    → All IsPart parts
parts-confined [] h k = tt
parts-confined (s ∷ ss) (p, h) (f, k) = ((p, text_eq-false s (codes "..") f), parts-confined ss h k)

-- Behind an empty first part stands a slash or nothing.
join_segments-nil :
    (path : Text) (rest : List Text)
    → path ≡ join_segments ([] ∷ rest)
    → text_eq path [] ≡ false
    → is_rooted path ≡ false
    → ⊥
unfolding is_rooted join_segments text_eq
join_segments-nil path [] e n r = let whole : text_eq path [] ≡ true = rw e refl in cc
join_segments-nil path (t ∷ ts) e n r = let whole : is_rooted path ≡ true = rw e refl in cc

-- An accepted working directory is the text itself, and confined.
pub relative_cwd-IsConfined :
    (value : Text) {path : Text} → relative_cwd value ≡ some path → (path ≡ value) × IsConfined path
unfolding relative_cwd
relative_cwd-IsConfined value {path} h = elim (Bool-cases (text_eq value [])) [
  | inl t ↦ cc (rw (relative_cwd, t) at h)
  | inr n ↦ elim (Bool-cases (any (λ c. c == 0) value)) [
    | inl t ↦ cc (rw (relative_cwd, n, t) at h)
    | inr z ↦ elim (Bool-cases (is_rooted value)) [
      | inl t ↦ cc (rw (relative_cwd, n, z, t) at h)
      | inr r ↦ elim (Bool-cases (any (λ s. text_eq s (codes "..")) (split_segments value))) [
        | inl t ↦ cc (rw (relative_cwd, n, z, r, t) at h)
        | inr up ↦
            let same : path ≡ value = cc (rw (relative_cwd, n, z, r, up) at h) in
            (same, rw same (confined n z r up))
      ]
    ]
  ]
]
  where
    confined :
        text_eq value [] ≡ false
        → any (λ c. c == 0) value ≡ false
        → is_rooted value ≡ false
        → any (λ s. text_eq s (codes "..")) (split_segments value) ≡ false
        → IsConfined value
    confined n z r up =
        let (first, rest, e, joined, parts) =
          split_segments-IsSplit value (any-false (λ c. c == 0) value z) in
        let downward = any-false (λ s. text_eq s (codes "..")) (first ∷ rest) (rw e at up) in
        (
          first,
          rest,
          sym joined,
          (λ empty. join_segments-nil value rest (rw empty at (sym joined)) n r),
          parts-confined (first ∷ rest) parts downward,
        )

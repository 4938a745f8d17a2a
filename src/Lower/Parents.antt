-- ===== src/Lower/Parents.antt =====
-- `Path::parent` and `Path::file_name` as lower.rs uses them, on the absolute path that segments spell.
use nixfied.Prelude.{
  ◌≡◌, ◌≢◌, ◌⊎◌, inl, inr, refl, ap, sym, ◌∙◌, true, false, none, some, List, [], ◌∷◌, ◌++◌, Text,
  codes, text_eq, text_eq→≡, ◌==◌, ==_iff, All, Bool-cases, if◌then◌else◌,
}
use mathlib.Core.List.{append_assoc}
use nixfied.Lower.Paths.{
  split_segments, join_segments, is_trivial, trim_back, path_parts, last_segment, file_name,
  parent_or_default,
}

-- A segment holds no slash.
abbrev pub IsSegment : Text → Type 0
IsSegment s = All (λ c. c ≢ b'/') s

-- An empty segment or `.`, which counts for nothing.
abbrev pub IsTrivial : Text → Type 0
IsTrivial s = (s ≡ []) ⊎ (s ≡ codes ".")

-- There is no segment, or the last one counts.
abbrev pub IsTrimmed : List Text → Type 0
IsTrimmed [] = Unit
IsTrimmed (s ∷ []) = (s ≢ []) × (s ≢ codes ".")
IsTrimmed (s ∷ t ∷ ts) = IsTrimmed (t ∷ ts)

-- The absolute path that segments spell.
abbrev pub absolute : List Text → Text
absolute segments = b'/' ∷ join_segments segments

IsTrivial-true : (s : Text) → IsTrivial s → is_trivial s ≡ true
unfolding is_trivial text_eq
IsTrivial-true s (inl e) = rw e refl
IsTrivial-true s (inr e) = rw e refl

plain-false : (s : Text) → s ≢ [] → s ≢ codes "." → is_trivial s ≡ false
unfolding is_trivial
plain-false s n d = elim (Bool-cases (text_eq s [])) [
  | inl t ↦ absurd (n (text_eq→≡ s [] t))
  | inr f ↦ elim (Bool-cases (text_eq s (codes "."))) [
    | inl t ↦ absurd (d (text_eq→≡ s (codes ".") t))
    | inr g ↦ rw (f, g) refl
  ]
]

trim_back-trivial : (ss : List Text) → All IsTrivial ss → trim_back ss ≡ []
unfolding trim_back
trim_back-trivial [] h = refl
trim_back-trivial (s ∷ ss) (t, h) = rw (trim_back-trivial ss h, IsTrivial-true s t) refl

trim_back-append : (xs ys : List Text) → trim_back ys ≡ [] → trim_back (xs ++ ys) ≡ trim_back xs
unfolding trim_back
trim_back-append [] ys e = e
trim_back-append (x ∷ xs) ys e = rw (trim_back-append xs ys e) refl

trim_back-IsTrimmed : (ss : List Text) → IsTrimmed ss → trim_back ss ≡ ss
unfolding trim_back
trim_back-IsTrimmed [] h = refl
trim_back-IsTrimmed (s ∷ []) (n, d) = rw (plain-false s n d) refl
trim_back-IsTrimmed (s ∷ t ∷ ts) h = rw (trim_back-IsTrimmed (t ∷ ts) h) refl

IsTrimmed-snoc : (xs : List Text) (s : Text) → s ≢ [] → s ≢ codes "." → IsTrimmed (xs ++ s ∷ [])
IsTrimmed-snoc [] s n d = (n, d)
IsTrimmed-snoc (x ∷ []) s n d = (n, d)
IsTrimmed-snoc (x ∷ y ∷ xs) s n d = IsTrimmed-snoc (y ∷ xs) s n d

last_segment-snoc : (xs : List Text) (s : Text) → last_segment (xs ++ s ∷ []) ≡ some (s, xs)
unfolding last_segment
last_segment-snoc [] s = refl
last_segment-snoc (x ∷ xs) s = rw (last_segment-snoc xs s) refl

-- The text of a segment in front of a slash, or of none, is split off whole.
split_segments-slash :
    (s rest : Text) → IsSegment s → split_segments (s ++ b'/' ∷ rest) ≡ s ∷ split_segments rest
unfolding split_segments
split_segments-slash [] rest h = refl
split_segments-slash (c ∷ s) rest (n, h) = elim (Bool-cases (c == b'/')) [
  | inl t ↦ absurd (n ((==_iff c b'/').0 t))
  | inr f ↦ rw (f, split_segments-slash s rest h) refl
]

split_segments-last : (s : Text) → IsSegment s → split_segments s ≡ s ∷ []
unfolding split_segments
split_segments-last [] h = refl
split_segments-last (c ∷ s) (n, h) = elim (Bool-cases (c == b'/')) [
  | inl t ↦ absurd (n ((==_iff c b'/').0 t))
  | inr f ↦ rw (f, split_segments-last s h) refl
]

split_segments-join :
    (s : Text) (ss : List Text)
    → All IsSegment (s ∷ ss)
    → split_segments (join_segments (s ∷ ss)) ≡ s ∷ ss
unfolding join_segments
split_segments-join s [] (h, k) = split_segments-last s h
split_segments-join s (t ∷ ss) (h, k) =
    split_segments-slash s (join_segments (t ∷ ss)) h ∙ ap (λ l. s ∷ l) (split_segments-join t ss k)

path_parts-absolute :
    (s : Text) (ss : List Text)
    → All IsSegment (s ∷ ss)
    → path_parts (absolute (s ∷ ss)) ≡ (codes "/", s ∷ ss)
unfolding path_parts
path_parts-absolute s ss h = rw (split_segments-join s ss h) refl

nonempty :
    (xs : List Text) (y : Text) (ys : List Text)
    → (s : Text) × (ss : List Text) × (xs ++ y ∷ ys ≡ s ∷ ss)
nonempty [] y ys = (y, ys, refl)
nonempty (x ∷ xs) y ys = (x, xs ++ y ∷ ys, refl)

module _ (directory doubled : List Text) (name : Text) (trailing : List Text) where
  -- A path with a name behind a directory, and trivial segments behind both.
  abbrev pub spelled : Text
  spelled = absolute ((directory ++ doubled) ++ name ∷ trailing)

  module _ (segments : All IsSegment ((directory ++ doubled) ++ name ∷ trailing))
      (trimmed : IsTrimmed directory) (between : All IsTrivial doubled)
      (behind : All IsTrivial trailing) (named : name ≢ []) (not_here : name ≢ codes ".") where
    last_of_spelled :
        last_segment (trim_back (path_parts spelled).1) ≡ some (name, directory ++ doubled)
    last_of_spelled =
        let (s, ss, e) = nonempty (directory ++ doubled) name trailing in
        let parts : path_parts spelled ≡ (codes "/", (directory ++ doubled) ++ name ∷ trailing) =
          rw e (path_parts-absolute s ss (rw e at segments)) in
        let regroup : (directory ++ doubled) ++ name ∷ trailing
            ≡ ((directory ++ doubled) ++ name ∷ []) ++ trailing =
          sym (append_assoc (directory ++ doubled) (name ∷ []) trailing) in
        ap (λ (p : Text × List Text). last_segment (trim_back p.1)) parts
        ∙ ap (λ l. last_segment (trim_back l)) regroup
        ∙ ap last_segment (
            trim_back-append ((directory ++ doubled) ++ name ∷ []) trailing
              (trim_back-trivial trailing behind)
            ∙ trim_back-IsTrimmed ((directory ++ doubled) ++ name ∷ [])
                (IsTrimmed-snoc (directory ++ doubled) name named not_here))
        ∙ last_segment-snoc (directory ++ doubled) name

    -- For segments without slashes, a name that is neither empty nor `.`, and a directory that does
    -- not end with such a segment: the parent of the absolute path is the directory in front of the
    -- name, and its file name is the name unless it is `..`, whatever empty and `.` segments stand
    -- between the two or behind the name.
    pub spelled-parts :
        (parent_or_default spelled ≡ absolute directory)
        × (file_name spelled ≡ (if text_eq name (codes "..") then none else some name))
    unfolding parent_or_default file_name
    spelled-parts =
        let (s, ss, e) = nonempty (directory ++ doubled) name trailing in
        let parts : path_parts spelled ≡ (codes "/", (directory ++ doubled) ++ name ∷ trailing) =
          rw e (path_parts-absolute s ss (rw e at segments)) in
        let root : (path_parts spelled).0 ≡ codes "/" = ap (λ (p : Text × List Text). p.0) parts in
        let trim : trim_back (directory ++ doubled) ≡ directory =
          trim_back-append directory doubled (trim_back-trivial doubled between)
          ∙ trim_back-IsTrimmed directory trimmed in
        (rw (parent_or_default, last_of_spelled, trim) refl, rw (file_name, last_of_spelled) refl)

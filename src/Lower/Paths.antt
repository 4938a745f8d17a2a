-- ===== src/Lower/Paths.antt =====
-- What lower.rs uses of `std::path::Path` on Unix: a path is a root or a leading `.`, and the
-- segments between slashes, of which empty ones and `.` count for nothing.
use nixfied.Prelude.{
  Bool, false, not, ◌&&◌, ◌||◌, Option, none, some, List, [], ◌∷◌, ◌++◌, Text, codes, text_eq, any,
  ◌==◌, if◌then◌else◌,
}

-- The text up to the first slash, and what is behind it.
unfoldable pub split_segments : Text → List Text
split_segments [] = [] ∷ []
split_segments (c ∷ cs) =
    let rest = split_segments cs in
    if c == b'/' then [] ∷ rest else elim rest [ [] ↦ (c ∷ []) ∷ [] | s ∷ ss ↦ (c ∷ s) ∷ ss ]

unfoldable pub join_segments : List Text → Text
join_segments [] = []
join_segments (s ∷ []) = s
join_segments (s ∷ t ∷ ss) = s ++ b'/' ∷ join_segments (t ∷ ss)

unfoldable pub is_trivial : Text → Bool
is_trivial s = text_eq s [] || text_eq s (codes ".")

-- The segments without the trivial ones at the end.
unfoldable pub trim_back : List Text → List Text
unfolding is_trivial
trim_back [] = []
trim_back (s ∷ ss) = elim (trim_back ss) [
  | [] ↦ (if is_trivial s then [] else s ∷ [])
  | t ∷ ts ↦ s ∷ t ∷ ts
]

-- The root or the leading `.`, and the segments of the rest.
unfoldable pub path_parts : Text → Text × List Text
unfolding split_segments
path_parts [] = ([], [] ∷ [])
path_parts (c ∷ cs) =
    let segments = split_segments (c ∷ cs) in
    if c == b'/' then (c ∷ [], split_segments cs) else elim segments [
      | [] ↦ ([], [])
      | s ∷ ss ↦ if text_eq s (codes ".") then (s, [] ∷ ss) else ([], s ∷ ss)
    ]

-- The last segment, and those in front of it.
unfoldable pub last_segment : List Text → Option (Text × List Text)
last_segment [] = none
last_segment (s ∷ ss) = elim (last_segment ss) [
  | none ↦ some (s, [])
  | some (l, init) ↦ some (l, s ∷ init)
]

-- `Path::file_name`
unfoldable pub file_name : Text → Option Text
unfolding path_parts trim_back last_segment
file_name path = elim (last_segment (trim_back (path_parts path).1)) [
  | none ↦ none
  | some (l, init) ↦ if text_eq l (codes "..") then none else some l
]

-- `Path::parent` as a text, empty where there is none, as by `unwrap_or_default`. The path in front
-- of the last segment is given without the trivial segments at its end.
unfoldable pub parent_or_default : Text → Text
unfolding path_parts trim_back last_segment join_segments
parent_or_default path = elim (last_segment (trim_back (path_parts path).1)) [
  | none ↦ []
  | some (l, init) ↦ (path_parts path).0 ++ join_segments (trim_back init)
]

unfoldable pub is_rooted : Text → Bool
is_rooted [] = false
is_rooted (c ∷ cs) = c == b'/'

-- `RelativeCwd::new`: no component is `..` or the root.
unfoldable pub relative_cwd : Text → Option Text
unfolding is_rooted split_segments
relative_cwd value =
    if not (text_eq value [])
      && not (any (λ c. c == 0) value)
      && not (is_rooted value)
      && not (any (λ s. text_eq s (codes "..")) (split_segments value))
    then some value
    else none

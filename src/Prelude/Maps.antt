-- ===== src/Prelude/Maps.antt =====
-- `BTreeMap<String, V>` and `BTreeSet<String>` as lists in byte order of the keys.
use mathlib.Core.Path.{◌≡◌}
use mathlib.Core.Logic.{◌⊎◌, inl, inr}
use mathlib.Core.Bool.{Bool, true}
use mathlib.Core.Option.{Option, none, some}
use mathlib.Core.List.{List, [], ◌∷◌}
use native.Mathlib.Omega.{arith}
use nixfied.Prelude.Tests.{if◌then◌else◌}
use nixfied.Prelude.Lists.{Mem}
use nixfied.Prelude.Texts.{Text, text_eq, text_lt, text_eq→≡, text_eq_refl}
use nixfied.Prelude.Searches.{any, any-true}

unfoldable pub contains : List Text → Text → Bool
contains set x = any (λ y. text_eq y x) set

-- `BTreeSet::insert`
unfoldable pub set_insert : Text → List Text → List Text
set_insert x [] = x ∷ []
set_insert x (y ∷ ys) =
    if text_eq x y then y ∷ ys else if text_lt x y then x ∷ y ∷ ys else y ∷ set_insert x ys

-- `extend` and `collect`
unfoldable pub set_extend : List Text → List Text → List Text
unfolding set_insert
set_extend set [] = set
set_extend set (x ∷ xs) = set_extend (set_insert x set) xs

pub contains-Mem : (set : List Text) (x : Text) → contains set x ≡ true → Mem x set
unfolding contains
contains-Mem set x h =
    let (y, m, e) = any-true (λ y. text_eq y x) set h in rw (text_eq→≡ y x e) at m

pub Mem-contains : (set : List Text) (x : Text) → Mem x set → contains set x ≡ true
unfolding contains any
Mem-contains [] x m = absurd m
Mem-contains (y ∷ ys) x (inl e) = ground (arith, e, text_eq_refl y)
Mem-contains (y ∷ ys) x (inr m) = ground (arith, Mem-contains ys x m)

pub mem-set_insert :
    (z x : Text) (set : List Text) → (Mem z (set_insert x set) → (z ≡ x) ⊎ Mem z set)
unfolding set_insert
mem-set_insert z x [] m = m
mem-set_insert z x (y ∷ ys) m = ground (arith, mem-set_insert z x ys)

pub set_insert_mem : (z x : Text) (set : List Text) → (z ≡ x) ⊎ Mem z set → Mem z (set_insert x set)
unfolding set_insert
set_insert_mem z x [] m = m
set_insert_mem z x (y ∷ ys) m = ground (arith, set_insert_mem z x ys, text_eq→≡ x y)

pub mem-set_extend :
    (z : Text) (xs set : List Text) → Mem z (set_extend set xs) → Mem z set ⊎ Mem z xs
unfolding set_extend
mem-set_extend z [] set m = inl m
mem-set_extend z (x ∷ xs) set m = elim (mem-set_extend z xs (set_insert x set) m) [
  | inl n ↦ elim (mem-set_insert z x set n) [ inl e ↦ inr (inl e) | inr o ↦ inl o ]
  | inr n ↦ inr (inr n)
]

pub set_extend_mem :
    (z : Text) (xs set : List Text) → Mem z set ⊎ Mem z xs → Mem z (set_extend set xs)
unfolding set_extend
set_extend_mem z [] set (inl m) = m
set_extend_mem z [] set (inr m) = absurd m
set_extend_mem z (x ∷ xs) set (inl m) =
    set_extend_mem z xs (set_insert x set) (inl (set_insert_mem z x set (inr m)))
set_extend_mem z (x ∷ xs) set (inr (inl e)) =
    set_extend_mem z xs (set_insert x set) (inl (set_insert_mem z x set (inl e)))
set_extend_mem z (x ∷ xs) set (inr (inr m)) = set_extend_mem z xs (set_insert x set) (inr m)

pub contains-set_insert :
    (t k : Text) (u : List Text) → contains u k ≡ true → contains (set_insert t u) k ≡ true
contains-set_insert t k u h =
    Mem-contains (set_insert t u) k (set_insert_mem k t u (inr (contains-Mem u k h)))

module _ {ℓ} {V : Type ℓ} where
  unfoldable pub lookup : Text → List (Text × V) → Option V
  lookup k [] = none
  lookup k ((j, v) ∷ m) = if text_eq j k then some v else lookup k m

  -- `BTreeMap::insert`
  unfoldable pub map_insert : Text → V → List (Text × V) → List (Text × V)
  map_insert k v [] = (k, v) ∷ []
  map_insert k v ((j, w) ∷ m) =
      if text_eq k j
      then (j, v) ∷ m
      else if text_lt k j
      then (k, v) ∷ (j, w) ∷ m
      else (j, w) ∷ map_insert k v m

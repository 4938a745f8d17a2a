-- ===== src/Prelude/Sorted.antt =====
-- Maps in key order: `map_insert` keeps the order, and a key of a sorted map is there once.
use mathlib.Core.Path.{◌≡◌, refl, ap}
use mathlib.Core.Bool.{true, false}
use mathlib.Core.Option.{none}
use mathlib.Core.List.{List, [], ◌∷◌}
use native.Mathlib.Omega.{arith}
use nixfied.Prelude.Texts.{Text, text_eq, text_lt, text_eq→≡}
use nixfied.Prelude.Maps.{lookup, map_insert}

pub text_lt_irrefl : (s : Text) → text_lt s s ≡ false
unfolding text_lt
text_lt_irrefl [] = refl
text_lt_irrefl (a ∷ s) = ground (arith, text_lt_irrefl s)

pub text_lt_trans : (s t u : Text) → text_lt s t ≡ true → text_lt t u ≡ true → text_lt s u ≡ true
unfolding text_lt
text_lt_trans [] [] u h k = cc
text_lt_trans [] (b ∷ t) [] h k = cc
text_lt_trans [] (b ∷ t) (c ∷ u) h k = refl
text_lt_trans (a ∷ s) [] u h k = cc
text_lt_trans (a ∷ s) (b ∷ t) [] h k = cc
text_lt_trans (a ∷ s) (b ∷ t) (c ∷ u) h k = ground (arith, text_lt_trans s t u)

pub text_lt_total : (s t : Text) → text_eq s t ≡ false → text_lt s t ≡ false → text_lt t s ≡ true
unfolding text_lt text_eq
text_lt_total [] [] h k = cc
text_lt_total [] (b ∷ t) h k = cc
text_lt_total (a ∷ s) [] h k = refl
text_lt_total (a ∷ s) (b ∷ t) h k = ground (arith, text_lt_total s t)

module _ {ℓ} {V : Type ℓ} where
  -- The key stands before all keys of the map.
  abbrev pub IsBelow : Text → List (Text × V) → Type 0
  IsBelow k [] = Unit
  IsBelow k ((j, v) ∷ m) = (text_lt k j ≡ true) × IsBelow k m

  abbrev pub IsSortedMap : List (Text × V) → Type 0
  IsSortedMap [] = Unit
  IsSortedMap ((k, v) ∷ m) = IsBelow k m × IsSortedMap m

  IsBelow-trans :
      (i k : Text) (m : List (Text × V)) → text_lt i k ≡ true → IsBelow k m → IsBelow i m
  IsBelow-trans i k [] l h = tt
  IsBelow-trans i k ((j, v) ∷ m) l h = (text_lt_trans i k j l h.0, IsBelow-trans i k m l h.1)

  IsBelow-map_insert :
      (i k : Text) (v : V) (m : List (Text × V))
      → text_lt i k ≡ true
      → IsBelow i m
      → IsBelow i (map_insert k v m)
  unfolding map_insert
  IsBelow-map_insert i k v [] l h = (l, tt)
  IsBelow-map_insert i k v ((j, w) ∷ m) l h = ground (arith, IsBelow-map_insert i k v m l h.1)

  pub map_insert-IsSortedMap :
      (k : Text) (v : V) (m : List (Text × V)) → IsSortedMap m → IsSortedMap (map_insert k v m)
  unfolding map_insert
  map_insert-IsSortedMap k v [] h = (tt, tt)
  map_insert-IsSortedMap k v ((j, w) ∷ m) h = ground (
    arith,
    text_lt_total k j,
    IsBelow-trans k j m,
    IsBelow-map_insert j k v m,
    map_insert-IsSortedMap k v m h.1,
  )

  -- What stands below a map is no key of it.
  pub IsBelow-lookup : (k : Text) (m : List (Text × V)) → IsBelow k m → lookup k m ≡ none
  unfolding lookup
  IsBelow-lookup k [] h = refl
  IsBelow-lookup k ((j, v) ∷ m) h =
      ground (arith, text_eq→≡ j k, text_lt_irrefl k, IsBelow-lookup k m h.1, ap (λ z. text_lt k z))

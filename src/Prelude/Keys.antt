-- ===== src/Prelude/Keys.antt =====
-- The keys of a map: what a lookup finds, and how many keys a set lacks.
use Prim.Native.Nat.{ℕ, ◌+◌, ◌≤◌, ◌<◌}
use mathlib.Core.Path.{◌≡◌, refl, sym, ap}
use mathlib.Core.Logic.{◌⊎◌, inl, inr}
use mathlib.Core.Bool.{true, false}
use mathlib.Core.Option.{some}
use mathlib.Core.List.{List, [], ◌∷◌, map}
use native.Mathlib.Omega.{arith}
use nixfied.Prelude.Tests.{if◌then◌else◌, Bool-cases}
use nixfied.Prelude.Lists.{Mem, length}
use nixfied.Prelude.Texts.{Text, text_eq, text_lt, text_eq→≡, text_eq_refl}
use nixfied.Prelude.Maps.{
  lookup, map_insert, contains, contains-set_insert, Mem-contains, set_insert, set_insert_mem,
}

module _ {V : Type 0} where
  abbrev pub keys : List (Text × V) → List Text
  keys m = map (λ e. e.0) m

  abbrev pub IsKey : List (Text × V) → Text → Type 0
  IsKey m k = (v : V) × (lookup k m ≡ some v)

  pub lookup-cases :
      (k j : Text) (v : V) (m : List (Text × V)) {w : V}
      → lookup k ((j, v) ∷ m) ≡ some w
      → ((j ≡ k) × (v ≡ w)) ⊎ (lookup k m ≡ some w)
  unfolding lookup
  lookup-cases k j v m {w} h = elim (Bool-cases (text_eq j k)) [
    | inl t ↦ let e : some v ≡ some w = rw (lookup, t) at h in inl (text_eq→≡ j k t, cc)
    | inr f ↦ inr (rw (lookup, f) at h)
  ]

  pub lookup-Mem : (k : Text) (m : List (Text × V)) {v : V} → lookup k m ≡ some v → Mem (k, v) m
  unfolding lookup
  lookup-Mem k [] h = cc
  lookup-Mem k ((j, u) ∷ m) {v} h = elim (lookup-cases k j u m h) [
    | inl (e, f) ↦ rw (e, f) (inl refl)
    | inr l ↦ inr (lookup-Mem k m l)
  ]

  pub IsKey-nil : (k : Text) → IsKey [] k → ⊥
  unfolding lookup
  IsKey-nil k (v, e) = cc

  pub IsKey-cons : (k j : Text) (v : V) (m : List (Text × V)) → IsKey m k → IsKey ((j, v) ∷ m) k
  unfolding lookup
  IsKey-cons k j v m (w, l) = elim (Bool-cases (text_eq j k)) [
    | inl t ↦ (v, rw (lookup, t) refl)
    | inr f ↦ (w, rw (lookup, f) l)
  ]

  pub IsKey-head : (k j : Text) (v : V) (m : List (Text × V)) → k ≡ j → IsKey ((j, v) ∷ m) k
  unfolding lookup
  IsKey-head k j v m e = (v, rw (e, lookup, text_eq_refl j) refl)

  pub Mem-IsKey : (k : Text) (m : List (Text × V)) → Mem k (keys m) → IsKey m k
  Mem-IsKey k [] h = absurd h
  Mem-IsKey k ((j, v) ∷ m) (inl e) = IsKey-head k j v m e
  Mem-IsKey k ((j, v) ∷ m) (inr n) = IsKey-cons k j v m (Mem-IsKey k m n)

  pub Mem-keys : (k : Text) (v : V) (m : List (Text × V)) → Mem (k, v) m → Mem k (keys m)
  Mem-keys k v [] h = absurd h
  Mem-keys k v (e ∷ m) (inl h) = inl (ap (λ (p : Text × V). p.0) h)
  Mem-keys k v (e ∷ m) (inr h) = inr (Mem-keys k v m h)

  pub IsKey-Mem : (k : Text) (m : List (Text × V)) → IsKey m k → Mem k (keys m)
  IsKey-Mem k m (v, l) = Mem-keys k v m (lookup-Mem k m l)

  -- The keys that the set lacks.
  unfoldable pub missing : List (Text × V) → List Text → ℕ
  missing [] set = 0
  missing ((k, v) ∷ m) set = (if contains set k then 0 else 1) + missing m set

  -- A larger set lacks no more.
  pub missing-le_of_subset :
      (m : List (Text × V)) (s t : List Text)
      → ((k : Text) → contains s k ≡ true → contains t k ≡ true)
      → missing m t ≤ missing m s
  unfolding missing
  missing-le_of_subset [] s t h = omega arith
  missing-le_of_subset ((k, v) ∷ m) s t h = ground (arith, h k, missing-le_of_subset m s t h)

  -- A larger set with a new key lacks less.
  pub missing-lt_of_new :
      (m : List (Text × V)) (k : Text) (s t : List Text)
      → ((j : Text) → contains s j ≡ true → contains t j ≡ true)
      → IsKey m k
      → contains s k ≡ false
      → contains t k ≡ true
      → missing m t < missing m s
  unfolding missing lookup
  missing-lt_of_new [] k s t h (v, l) old new = cc
  missing-lt_of_new ((j, w) ∷ m) k s t h (v, l) old new = elim (lookup-cases k j w m l) [
    | inl (e, f) ↦ rw e (ground (arith, missing-le_of_subset m s t h))
    | inr n ↦ ground (arith, h j, missing-lt_of_new m k s t h (v, n) old new)
  ]

  pub missing-le : (m : List (Text × V)) (s : List Text) → missing m s ≤ length m
  unfolding missing
  missing-le [] s = omega arith
  missing-le ((k, v) ∷ m) s = ground (arith, missing-le m s)

  pub missing-set_insert-le :
      (m : List (Text × V)) (t : Text) (s : List Text) → missing m (set_insert t s) ≤ missing m s
  missing-set_insert-le m t s =
      missing-le_of_subset m s (set_insert t s) (λ k h. contains-set_insert t k s h)

  pub missing-set_insert-lt :
      (m : List (Text × V)) (t : Text) (s : List Text)
      → IsKey m t
      → contains s t ≡ false
      → missing m (set_insert t s) < missing m s
  missing-set_insert-lt m t s k h =
      missing-lt_of_new m t s (set_insert t s) (λ j l. contains-set_insert t j s l) k h
        (Mem-contains (set_insert t s) t (set_insert_mem t t s (inl refl)))

  pub map_insert-IsKey : (k : Text) (v : V) (m : List (Text × V)) → IsKey (map_insert k v m) k
  unfolding map_insert
  map_insert-IsKey k v [] = IsKey-head k k v [] refl
  map_insert-IsKey k v ((j, w) ∷ m) = elim (Bool-cases (text_eq k j)) [
    | inl t ↦ rw (map_insert, t) (IsKey-head k j v m (text_eq→≡ k j t))
    | inr f ↦ elim (Bool-cases (text_lt k j)) [
      | inl l ↦ rw (map_insert, f, l) (IsKey-head k k v ((j, w) ∷ m) refl)
      | inr l ↦ rw (map_insert, f, l) (IsKey-cons k j w (map_insert k v m) (map_insert-IsKey k v m))
    ]
  ]

  pub IsKey-map_insert :
      (i k : Text) (v : V) (m : List (Text × V)) → IsKey m i → IsKey (map_insert k v m) i
  unfolding map_insert lookup
  IsKey-map_insert i k v [] h = IsKey-cons i k v [] h
  IsKey-map_insert i k v ((j, w) ∷ m) (u, h) = elim (Bool-cases (text_eq k j)) [
    | inl t ↦
        rw (map_insert, t)
          (elim (lookup-cases i j w m h) [
            | inl e ↦ IsKey-head i j v m (sym e.0)
            | inr n ↦ IsKey-cons i j v m (u, n)
          ])
    | inr f ↦ elim (Bool-cases (text_lt k j)) [
      | inl l ↦ rw (map_insert, f, l) (IsKey-cons i k v ((j, w) ∷ m) (u, h))
      | inr l ↦
          rw (map_insert, f, l)
            (elim (lookup-cases i j w m h) [
              | inl e ↦ IsKey-head i j w (map_insert k v m) (sym e.0)
              | inr n ↦ IsKey-cons i j w (map_insert k v m) (IsKey-map_insert i k v m (u, n))
            ])
    ]
  ]

-- Maps with the same keys.
pub IsKey-keys :
    {V W : Type 0} (k : Text) (m : List (Text × V)) (n : List (Text × W))
    → keys n ≡ keys m
    → IsKey m k
    → IsKey n k
IsKey-keys k m n same h = let there = IsKey-Mem k m h in Mem-IsKey k n (rw (sym same) at there)

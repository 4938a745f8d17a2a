-- ===== src/Prelude/Searches.antt =====
-- `Iterator::any`, `all`, `find` and `position` over lists.
use mathlib.Core.Path.{◌≡◌, refl}
use mathlib.Core.Logic.{◌⊎◌, inl, inr}
use mathlib.Core.Bool.{Bool, true, false, ◌&&◌, ◌||◌}
use mathlib.Core.Option.{Option, none, some}
use mathlib.Core.List.{List, [], ◌∷◌}
use native.Mathlib.Omega.{arith}
use nixfied.Prelude.Tests.{if◌then◌else◌, Bool-cases}
use nixfied.Prelude.Lists.{All, Mem}

module _ {ℓ} {A : Type ℓ} where
  unfoldable pub any : (A → Bool) → List A → Bool
  any p [] = false
  any p (x ∷ xs) = p x || any p xs

  unfoldable pub all : (A → Bool) → List A → Bool
  all p [] = true
  all p (x ∷ xs) = p x && all p xs

  unfoldable pub find : (A → Bool) → List A → Option A
  find p [] = none
  find p (x ∷ xs) = if p x then some x else find p xs

  pub any-false : (p : A → Bool) (xs : List A) → any p xs ≡ false → All (λ x. p x ≡ false) xs
  unfolding any
  any-false p [] h = tt
  any-false p (x ∷ xs) h = (ground arith, any-false p xs (ground arith))

  -- Two tests that agree on the list find the same element.
  pub find_congr : (p q : A → Bool) (xs : List A) → All (λ x. p x ≡ q x) xs → find p xs ≡ find q xs
  unfolding find
  find_congr p q [] h = refl
  find_congr p q (x ∷ xs) h = ground (arith, find_congr p q xs h.1)

find_step :
    {A : Type 0} (p : A → Bool) (x : A) (xs : List A) {a : A}
    → (if p x then some x else find p xs) ≡ some a
    → ((p a ≡ true) × (a ≡ x)) ⊎ (find p xs ≡ some a)
find_step p x xs {a} h = elim (Bool-cases (p x)) [
  | inl t ↦ inl (found (rw (t, if◌then◌else◌) at h) t)
  | inr f ↦ inr (rw (f, if◌then◌else◌) at h)
]
  where
    found : some x ≡ some a → p x ≡ true → (p a ≡ true) × (a ≡ x)
    found e t = ground arith

-- What `find` returns passes the test and stands in the list.
pub find_sound :
    {A : Type 0} (p : A → Bool) (xs : List A) {a : A} → find p xs ≡ some a → (p a ≡ true) × Mem a xs
unfolding find
find_sound p [] h = cc
find_sound p (x ∷ xs) h = elim (find_step p x xs h) [
  | inl here ↦ (here.0, inl here.1)
  | inr later ↦ let r = find_sound p xs later in (r.0, inr r.1)
]

-- What a passed test of `any` finds.
pub any-true :
    {A : Type 0} (p : A → Bool) (xs : List A) → any p xs ≡ true → (a : A) × Mem a xs × (p a ≡ true)
unfolding any
any-true p [] h = cc
any-true p (x ∷ xs) h = elim (Bool-cases (p x)) [
  | inl t ↦ (x, inl refl, t)
  | inr f ↦ let (a, m, t) = any-true p xs (rw (f, ◌||◌) at h) in (a, inr m, t)
]

-- ===== src/Manifest/Distinct.antt =====
-- What decoding a `UniqueVec` accepts: the lists of distinct elements, and no others.
use mathlib.Core.List.{append-nil, append_assoc}
use nixfied.Prelude.{
  ◌≡◌, ◌≢◌, ◌⊎◌, ◌↔◌, refl, sym, ◌∙◌, inl, inr, Bool, true, false, List, [], ◌∷◌, ◌++◌, Result, ok,
  err, any, any-true, Mem, arith, Bool-cases,
}
use nixfied.Manifest.UniqueVec.{DuplicateElement, duplicate, first_duplicate, deserialize}

-- No element of the list occurs again.
abbrev pub AllDistinct : {A : Type 0} → List A → Type 0
AllDistinct {A} [] = Unit
AllDistinct {A} (x ∷ xs) = ((y : A) → Mem y xs → y ≢ x) × AllDistinct xs

-- The list begins with distinct elements and then repeats one of them, `x`.
abbrev pub Repeats : {A : Type 0} → List A → A → Type 0
Repeats {A} items x =
    (front : List A) × (back : List A) × (items ≡ front ++ x ∷ back)
    × Mem x front
    × AllDistinct front

mem-snoc : {A : Type 0} (z x : A) (xs : List A) → Mem z (xs ++ x ∷ []) → Mem z xs ⊎ (z ≡ x)
mem-snoc z x [] m = ground arith
mem-snoc z x (y ∷ ys) m = ground (arith, mem-snoc z x ys)

AllDistinct-snoc :
    {A : Type 0} (xs : List A) (x : A)
    → AllDistinct xs
    → ((y : A) → Mem y xs → y ≢ x)
    → AllDistinct (xs ++ x ∷ [])
AllDistinct-snoc [] x d n = ((λ y m. absurd m), tt)
AllDistinct-snoc (z ∷ zs) x d n = (
  (λ y m. elim (mem-snoc y x zs m) [ inl k ↦ d.0 y k | inr e ↦ λ f. n z (inl refl) (sym f ∙ e) ]),
  AllDistinct-snoc zs x d.1 (λ y m. n y (inr m)),
)

any-Mem :
    {A : Type 0} (p : A → Bool) (xs : List A) (x : A) → p x ≡ true → Mem x xs → any p xs ≡ true
unfolding any
any-Mem p [] x t m = absurd m
any-Mem p (y ∷ ys) x t (inl e) = let here : p y ≡ true = rw (sym e) t in ground arith
any-Mem p (y ∷ ys) x t (inr m) = ground (arith, any-Mem p ys x t m)

module _ {A : Type 0} (eq : A → A → Bool) (decides : (a b : A) → (eq a b ≡ true) ↔ (a ≡ b)) where
  Outcome : List A → Result (DuplicateElement A) (Unit {0}) → Type 0
  Outcome items r =
      ((r ≡ ok tt) × AllDistinct items) ⊎ ((x : A) × (r ≡ err (duplicate x)) × Repeats items x)

  first_duplicate-cases :
      (before rest : List A)
      → AllDistinct before
      → Outcome (before ++ rest) (first_duplicate eq before rest)
  unfolding first_duplicate Outcome
  first_duplicate-cases before [] d = inl (refl, rw (append-nil before) d)
  first_duplicate-cases before (x ∷ rest) d = elim (Bool-cases (any (λ y. eq y x) before)) [
    | inl t ↦
        let (y, m, e) = any-true (λ y. eq y x) before t in
        let here : Mem x before = rw (sym ((decides y x).0 e)) m in
        inr (x, rw t refl, (before, rest, refl, here, d))
    | inr f ↦
        let fresh = λ (y : A) (m : Mem y before) (e : y ≡ x). absurd (missed y m e f) in
        let next =
          first_duplicate-cases (before ++ x ∷ []) rest (AllDistinct-snoc before x d fresh) in
        let here : (before ++ x ∷ []) ++ rest ≡ before ++ x ∷ rest =
          append_assoc before (x ∷ []) rest in
        rw (f, sym here) next
  ]
    where
      missed : (y : A) → Mem y before → y ≡ x → any (λ y. eq y x) before ≡ false → ⊥
      missed y m e f = ground (arith, any-Mem (λ y. eq y x) before y ((decides y x).1 e) m)

  -- Where the equality test decides equality, decoding gives the list back if its elements are
  -- distinct, and otherwise names the element that the list repeats first.
  pub deserialize-cases :
      (items : List A)
      → ((deserialize eq items ≡ ok (record { items = items })) × AllDistinct items)
        ⊎ ((x : A) × (deserialize eq items ≡ err (duplicate x)) × Repeats items x)
  unfolding deserialize Outcome
  deserialize-cases items = elim (first_duplicate-cases [] items tt) [
    | inl (e, d) ↦ inl (rw (deserialize, e) refl, d)
    | inr (x, e, r) ↦ inr (x, rw (deserialize, e) refl, r)
  ]

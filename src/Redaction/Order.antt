-- ===== src/Redaction/Order.antt =====
-- What `from_secrets` makes of the secrets: the same texts, longest first.
use nixfied.Prelude.{
  ◌≤◌, ◌≡◌, ◌↔◌, ◌⊎◌, inl, inr, ap, Bool, true, false, List, [], ◌∷◌, Text, length, text_eq,
  text_eq→≡, Bool-cases, leb, leb→le, Mem, arith, some, none, find, starts_with, find_sound,
}
use nixfied.Redaction.Redactor.{
  Redactor, insert_by_length, sort_by_length, dedup_from, dedup, from_secrets, first_match,
}
use nixfied.Redaction.Spec.{IsLongest, NoMatch}

-- Each pattern is at least as long as those after it.
abbrev pub IsDescending : List Text → Type 0
IsDescending [] = Unit
IsDescending (p ∷ ps) = ((q : Text) → Mem q ps → length q ≤ length p) × IsDescending ps

mem-insert_by_length :
    (x p : Text) (ps : List Text) → Mem x (insert_by_length p ps) ↔ ((x ≡ p) ⊎ Mem x ps)
unfolding insert_by_length
mem-insert_by_length x p [] = ground arith
mem-insert_by_length x p (q ∷ qs) = ground (arith, mem-insert_by_length x p qs)

insert_by_length-IsDescending :
    (p : Text) (ps : List Text) → IsDescending ps → IsDescending (insert_by_length p ps)
unfolding insert_by_length
insert_by_length-IsDescending p [] h = ((λ q m. absurd m), tt)
insert_by_length-IsDescending p (q ∷ qs) h = elim (Bool-cases (leb (length q) (length p))) [
  | inl t ↦ rw t ((λ x m. front x t m), h)
  | inr f ↦ rw f ((λ x m. back x f m), insert_by_length-IsDescending p qs h.1)
]
  where
    front : (x : Text) → leb (length q) (length p) ≡ true → (x ≡ q) ⊎ Mem x qs → length x ≤ length p
    front x t (inl e) = omega (arith, ap (λ (z : Text). length z) e, leb→le (length q) (length p) t)
    front x t (inr m) = omega (arith, h.0 x m, leb→le (length q) (length p) t)

    back :
        (x : Text)
        → leb (length q) (length p) ≡ false
        → Mem x (insert_by_length p qs)
        → length x ≤ length q
    back x f m = elim ((mem-insert_by_length x p qs).0 m) [
      | inl e ↦ ground (arith, ap (λ (z : Text). length z) e)
      | inr n ↦ h.0 x n
    ]

mem-sort_by_length : (x : Text) (ps : List Text) → Mem x (sort_by_length ps) ↔ Mem x ps
unfolding sort_by_length
mem-sort_by_length x [] = ((λ m. m), (λ m. m))
mem-sort_by_length x (p ∷ ps) =
    ground (arith, mem-insert_by_length x p (sort_by_length ps), mem-sort_by_length x ps)

sort_by_length-IsDescending : (ps : List Text) → IsDescending (sort_by_length ps)
unfolding sort_by_length
sort_by_length-IsDescending [] = tt
sort_by_length-IsDescending (p ∷ ps) =
    insert_by_length-IsDescending p (sort_by_length ps) (sort_by_length-IsDescending ps)

mem-dedup_from : (x p : Text) (ps : List Text) → Mem x (dedup_from p ps) ↔ ((x ≡ p) ⊎ Mem x ps)
unfolding dedup_from
mem-dedup_from x p [] = ground arith
mem-dedup_from x p (q ∷ qs) = elim (Bool-cases (text_eq p q)) [
  | inl t ↦ let e = text_eq→≡ p q t in rw (t, dedup_from) (ground (arith, mem-dedup_from x p qs, e))
  | inr f ↦ rw (f, dedup_from) (ground (arith, mem-dedup_from x q qs))
]

dedup_from-IsDescending :
    (p : Text) (ps : List Text) → IsDescending (p ∷ ps) → IsDescending (dedup_from p ps)
unfolding dedup_from
dedup_from-IsDescending p [] h = h
dedup_from-IsDescending p (q ∷ qs) h = elim (Bool-cases (text_eq p q)) [
  | inl t ↦ rw (t, dedup_from) (dedup_from-IsDescending p qs ((λ x m. h.0 x (inr m)), h.1.1))
  | inr f ↦
      rw (f, dedup_from)
        ((λ x m. h.0 x ((mem-dedup_from x q qs).0 m)), dedup_from-IsDescending q qs h.1)
]

dedup-IsDescending : (ps : List Text) → IsDescending ps → IsDescending (dedup ps)
unfolding dedup
dedup-IsDescending [] h = h
dedup-IsDescending (p ∷ ps) h = dedup_from-IsDescending p ps h

mem-dedup : (x : Text) (ps : List Text) → Mem x (dedup ps) ↔ Mem x ps
unfolding dedup
mem-dedup x [] = ((λ m. m), (λ m. m))
mem-dedup x (p ∷ ps) = mem-dedup_from x p ps

-- The redactor has exactly the given secrets for its patterns, the longest first: none is lost to
-- the sort or to the removal of duplicates, and none stands before a longer one.
pub from_secrets_lem :
    (values : List Text)
    → ((x : Text) → Mem x (from_secrets values).patterns ↔ Mem x values)
      × IsDescending (from_secrets values).patterns
unfolding from_secrets
from_secrets_lem values = (
  (λ x. ground (arith, mem-dedup x (sort_by_length values), mem-sort_by_length x values)),
  dedup-IsDescending (sort_by_length values) (sort_by_length-IsDescending values),
)

find-longest :
    (rest : Text) (ps : List Text) {p : Text}
    → IsDescending ps
    → find (λ q. starts_with rest q) ps ≡ some p
    → (q : Text) → Mem q ps
    → starts_with rest q ≡ true
    → length q ≤ length p
unfolding find
find-longest rest [] h e q m s = absurd m
find-longest rest (x ∷ ps) {p} h e q m s = elim (Bool-cases (starts_with rest x)) [
  | inl t ↦ first t m
  | inr f ↦ later f m (λ g n. find-longest rest ps h.1 g q n s)
]
  where
    first : starts_with rest x ≡ true → (q ≡ x) ⊎ Mem q ps → length q ≤ length p
    first t (inl c) = ground (arith, ap (λ (z : Text). length z) c)
    first t (inr n) = ground (arith, h.0 q n)

    later :
        starts_with rest x ≡ false
        → (q ≡ x) ⊎ Mem q ps
        → (find (λ z. starts_with rest z) ps ≡ some p → Mem q ps → length q ≤ length p)
        → length q ≤ length p
    later f (inl c) ih = cc (ap (λ z. starts_with rest z) c)
    later f (inr n) ih = ih (rw f at e) n

find-none :
    (test : Text → Bool) (ps : List Text)
    → find test ps ≡ none
    → (q : Text) → Mem q ps
    → test q ≡ false
unfolding find
find-none test [] e q m = absurd m
find-none test (x ∷ ps) e q (inl c) = ground (arith, ap test c)
find-none test (x ∷ ps) e q (inr n) = find-none test ps (ground arith) q n

-- The first pattern that matches is the longest.
pub first_match-IsLongest :
    (r : Redactor) (rest : Text) {p : Text}
    → IsDescending r.patterns
    → first_match r rest ≡ some p
    → IsLongest r.patterns rest p
unfolding first_match
first_match-IsLongest r rest h e =
    let found = find_sound (λ q. starts_with rest q) r.patterns e in
    record { is_secret = found.1; stands = found.0; longest = find-longest rest r.patterns h e }

pub first_match-NoMatch :
    (r : Redactor) (rest : Text) → first_match r rest ≡ none → NoMatch r.patterns rest
unfolding first_match
first_match-NoMatch r rest e = find-none (λ q. starts_with rest q) r.patterns e

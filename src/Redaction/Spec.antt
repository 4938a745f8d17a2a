-- ===== src/Redaction/Spec.antt =====
-- What redaction promises, with no reference to the code: at each position the longest secret that
-- stands there is replaced by the token, and a byte where none stands is kept.
use nixfied.Prelude.{
  ℕ, ◌<◌, ◌≤◌, ◌≡◌, ◌↔◌, refl, sym, ap, ◌∙◌, starts_with-length, true, false, List, [], ◌∷◌, ◌++◌,
  Text, starts_with, length, drop, Mem, arith,
}
use nixfied.Redaction.Redactor.{redaction_token}

-- The secret stands at the front of the text, and no longer one does.
pub record IsLongest (secrets : List Text) (rest p : Text) : Type 0 where
  pub is_secret : Mem p secrets
  pub stands : starts_with rest p ≡ true
  pub longest : (q : Text) → Mem q secrets → starts_with rest q ≡ true → length q ≤ length p

abbrev pub NoMatch : List Text → Text → Type 0
NoMatch secrets rest = (q : Text) → Mem q secrets → starts_with rest q ≡ false

pub data Redacts (secrets : List Text) : Text → Text → Type 0 where
  done : Redacts secrets [] []
  hit :
      {rest tail whole : Text} (p : Text)
      → IsLongest secrets rest p
      → Redacts secrets (drop (length p) rest) tail
      → whole ≡ redaction_token ++ tail
      → Redacts secrets rest whole
  miss :
      {rest tail : Text} (b : ℕ)
      → NoMatch secrets (b ∷ rest)
      → Redacts secrets rest tail
      → Redacts secrets (b ∷ rest) (b ∷ tail)

abbrev pub AllNonempty : List Text → Type 0
AllNonempty secrets = (q : Text) → Mem q secrets → 0 < length q

nothing_stands :
    {secrets : List Text} {rest p : Text}
    → AllNonempty secrets
    → IsLongest secrets rest p
    → [] ≡ rest
    → ⊥
nothing_stands {rest = rest} {p = p} nonempty l e = absurd (
    omega (
      arith,
      nonempty p l.is_secret,
      starts_with-length rest p l.stands,
      ap (λ (t : Text). length t) e,
    ))

longest-clash :
    {secrets : List Text} {rest rest' p : Text}
    → IsLongest secrets rest p
    → NoMatch secrets rest'
    → rest ≡ rest'
    → ⊥
longest-clash {p = p} l n e = cc (n p l.is_secret, l.stands, ap (λ t. starts_with t p) e)

same_length :
    {secrets : List Text} {rest rest' p q : Text}
    → IsLongest secrets rest p
    → IsLongest secrets rest' q
    → rest ≡ rest'
    → length p ≡ length q
same_length {p = p} {q = q} l m e = omega (
  arith,
  l.longest q m.is_secret (ap (λ t. starts_with t q) e ∙ m.stands),
  m.longest p l.is_secret (ap (λ t. starts_with t p) (sym e) ∙ l.stands),
)

-- The specification admits one result.
pub Redacts-unique :
    {secrets : List Text} {x x' y y' : Text}
    → AllNonempty secrets
    → Redacts secrets x y
    → Redacts secrets x' y'
    → x ≡ x'
    → y ≡ y'
Redacts-unique ne done done e = refl
Redacts-unique ne done (hit q m u v) e = absurd (nothing_stands ne m e)
Redacts-unique ne done (miss c m u) e = cc
Redacts-unique ne (hit p l t w) done e = absurd (nothing_stands ne l (sym e))
Redacts-unique ne (hit {rest} p l t w) (hit {rest = rest'} q m u v) e =
    let n : length p ≡ length q = same_length l m e in
    let d : drop (length p) rest ≡ drop (length q) rest' = cc (n, e) in
    let ih = Redacts-unique ne t u d in w ∙ ap (λ s. redaction_token ++ s) ih ∙ sym v
Redacts-unique ne (hit p l t w) (miss c m u) e = absurd (longest-clash l m e)
Redacts-unique ne (miss b n t) done e = cc
Redacts-unique ne (miss b n t) (hit q m u v) e = absurd (longest-clash m n (sym e))
Redacts-unique ne (miss b n t) (miss c m u) e = let ih = Redacts-unique ne t u (cc) in cc

-- The specification depends on which texts are secrets, not on their order or multiplicity.
pub Redacts-congr :
    {secrets others : List Text} {x y : Text}
    → ((q : Text) → Mem q secrets ↔ Mem q others)
    → Redacts secrets x y
    → Redacts others x y
Redacts-congr same done = done
Redacts-congr same (hit p l t w) =
    hit p
      (record {
        is_secret = (same p).0 l.is_secret;
        stands = l.stands;
        longest = λ q m. l.longest q ((same q).1 m);
      })
      (Redacts-congr same t) w
Redacts-congr same (miss b n t) = miss b (λ q m. n q ((same q).1 m)) (Redacts-congr same t)

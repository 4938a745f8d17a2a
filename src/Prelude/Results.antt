-- ===== src/Prelude/Results.antt =====
-- Rust's `Result`, with `?` as `◌>>=◌` and an early `return Err(e)` as `ensure`.
use mathlib.Core.Path.{◌≡◌, refl, ap}
use mathlib.Core.Logic.{◌⊎◌, inl, inr}
use mathlib.Core.Bool.{Bool, true, false}

pub data Result {ℓ κ} (E : Type ℓ) (A : Type κ) : Type (ℓ ⊔ κ) where
  err : E → Result E A
  ok : A → Result E A

infixl 5 ◌>>=◌ ◌>>◌
abbrev pub ◌>>=◌ {ℓ κ μ} :
    {E : Type ℓ} {A : Type κ} {B : Type μ} → Result E A → (A → Result E B) → Result E B
err e >>= next = err e
ok a >>= next = next a

abbrev pub ◌>>◌ {ℓ μ} : {E : Type ℓ} {B : Type μ} → Result E (Unit {0}) → Result E B → Result E B
err e >> next = err e
ok _ >> next = next

-- `if !test { return Err(e) }`
abbrev pub ensure {ℓ} : {E : Type ℓ} → E → Bool → Result E (Unit {0})
ensure e false = err e
ensure e true = ok tt

module _ {ℓ} {E : Type ℓ} where
  pub ensure-ok : (e : E) (test : Bool) → ensure e test ≡ ok tt → test ≡ true
  ensure-ok e false h = cc
  ensure-ok e true h = refl

  pub >>-ok {μ} :
      {B : Type μ} (m : Result E (Unit {0})) (next : Result E B) {b : B}
      → (m >> next) ≡ ok b
      → (m ≡ ok tt) × (next ≡ ok b)
  >>-ok (err e) next h = cc
  >>-ok (ok tt) next h = (refl, h)

  pub >>=-ok {κ μ} :
      {A : Type κ} {B : Type μ} (m : Result E A) (next : A → Result E B) {b : B}
      → (m >>= next) ≡ ok b
      → (a : A) × (m ≡ ok a) × (next a ≡ ok b)
  >>=-ok (err e) next h = cc
  >>=-ok (ok a) next h = (a, refl, h)

pub ok_injective {ℓ κ} :
    {E : Type ℓ} {A : Type κ} {a b : A} → ◌≡◌ {A = Result E A} (ok a) (ok b) → a ≡ b
ok_injective h = cc

pub Result-cases {ℓ κ} :
    {E : Type ℓ} {A : Type κ} (r : Result E A) → ((e : E) × (r ≡ err e)) ⊎ ((a : A) × (r ≡ ok a))
Result-cases (err e) = inl (e, refl)
Result-cases (ok a) = inr (a, refl)

-- Every error that the result may be has the property.
abbrev pub Errs {ℓ κ μ} : {E : Type ℓ} {A : Type κ} → (E → Type μ) → Result E A → Type (ℓ ⊔ κ ⊔ μ)
Errs {E} P m = (e : E) → m ≡ err e → P e

module _ {ℓ μ} {E : Type ℓ} (P : E → Type μ) where
  pub Errs-ok {κ} : {A : Type κ} (a : A) → Errs P (ok a)
  Errs-ok a e h = cc

  pub Errs-of {κ} : {A : Type κ} (e : E) → P e → Errs {A = A} P (err e)
  Errs-of e p d h = let same : e ≡ d = cc in rw same at p

  pub Errs-bind {κ ν} :
      {A : Type κ} {B : Type ν} (m : Result E A) (next : A → Result E B)
      → Errs P m
      → ((a : A) → m ≡ ok a → Errs P (next a))
      → Errs P (m >>= next)
  Errs-bind (err d) next h k e q = let same : d ≡ e = cc in h e (ap err same)
  Errs-bind (ok a) next h k e q = k a refl e q

  pub Errs-then {ν} :
      {B : Type ν} (m : Result E (Unit {0})) (next : Result E B)
      → Errs P m
      → (m ≡ ok tt → Errs P next)
      → Errs P (m >> next)
  Errs-then (err d) next h k e q = let same : d ≡ e = cc in h e (ap err same)
  Errs-then (ok tt) next h k e q = k refl e q

  pub Errs-ensure : (e : E) (test : Bool) → (test ≡ false → P e) → Errs P (ensure e test)
  Errs-ensure e false h d q = let same : e ≡ d = cc in rw same at h refl
  Errs-ensure e true h d q = cc

  -- `if !test { return Err(e) }` and what follows.
  pub Errs-guard {ν} :
      {B : Type ν} (e : E) (test : Bool) (next : Result E B)
      → P e
      → (test ≡ true → Errs P next)
      → Errs P (ensure e test >> next)
  Errs-guard e false next p k d q = let same : e ≡ d = cc in rw same at p
  Errs-guard e true next p k d q = k refl d q

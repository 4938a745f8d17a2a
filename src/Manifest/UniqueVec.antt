-- ===== src/Manifest/UniqueVec.antt =====
-- runtime/crates/nixfied-manifest/src/unique_vec.rs: a list whose elements are distinct, checked
-- where it is decoded. The equality of the elements is an argument, as `T: PartialEq` is.
use nixfied.Prelude.{Bool, List, [], ◌∷◌, ◌++◌, Result, ok, err, if◌then◌else◌, any}

pub record UniqueVec {ℓ} (A : Type ℓ) : Type ℓ where
  pub items : List A

pub data DuplicateElement {ℓ} (A : Type ℓ) : Type ℓ where
  duplicate : A → DuplicateElement A

module _ {ℓ} {A : Type ℓ} (eq : A → A → Bool) where
  -- `items[..index].contains(element)` for each element in turn; `before` is `items[..index]`.
  unfoldable pub first_duplicate : List A → List A → Result (DuplicateElement A) (Unit {0})
  first_duplicate before [] = ok tt
  first_duplicate before (x ∷ rest) =
      let next = first_duplicate (before ++ x ∷ []) rest in
      if any (λ y. eq y x) before then err (duplicate x) else next

  -- `Deserialize` of a decoded list.
  unfoldable pub deserialize : List A → Result (DuplicateElement A) (UniqueVec A)
  unfolding first_duplicate
  deserialize items = elim (first_duplicate [] items) [
    | ok u ↦ ok (record { items = items })
    | err e ↦ err e
  ]

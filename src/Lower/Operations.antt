-- ===== src/Lower/Operations.antt =====
-- The operation ids of a manifest, which `prove_references` collects in a set.
use nixfied.Prelude.{
  ◌≡◌, ◌⊎◌, inl, inr, false, List, [], ◌∷◌, ◌++◌, Text, Result, ok, err, contains, Mem-contains,
  set_insert, set_insert_mem, Mem, Bool-cases, >>-ok, >>=-ok, set_extend, map,
}
use nixfied.Manifest.Types.{Manifest, Codebase}
use nixfied.Manifest.Distinct.{AllDistinct}
use nixfied.Lower.Errors.{LowerError, duplicate_operation_id}
use nixfied.Lower.References.{
  prove_each, invocations, service_op_ids, task_op_ids, declare_all, check_codebase, check_closure,
  prove_references,
}

-- The ids are new and differ, and the set after them holds them and what it held.
record AreNew (ids declared result : List Text) : Type 0 where
  distinct : AllDistinct ids
  fresh : (id : Text) → Mem id ids → Mem id declared → ⊥
  kept : (id : Text) → Mem id declared → Mem id result
  added : (id : Text) → Mem id ids → Mem id result

declare_all-AreNew :
    (ids declared : List Text) {result : List Text}
    → declare_all ids declared ≡ ok result
    → AreNew ids declared result
unfolding declare_all
declare_all-AreNew [] declared {result} h =
    let same : declared ≡ result = cc in
    record {
      distinct = tt;
      fresh = λ id m. absurd m;
      kept = λ id m. rw same at m;
      added = λ id m. absurd m;
    }
declare_all-AreNew (x ∷ xs) declared {result} h = elim (Bool-cases (contains declared x)) [
  | inl t ↦ absurd (refused (rw (declare_all, t) at h))
  | inr f ↦
      let rest = declare_all-AreNew xs (set_insert x declared) (rw (declare_all, f) at h) in
      record {
        distinct = ((λ y m e. rest.fresh y m (set_insert_mem y x declared (inl e))), rest.distinct);
        fresh = λ id m n. elim m [
          | inl e ↦ absurd (unseen (rw e at n) f)
          | inr k ↦ rest.fresh id k (set_insert_mem id x declared (inr n))
        ];
        kept = λ id m. rest.kept id (set_insert_mem id x declared (inr m));
        added = λ id m. elim m [
          | inl e ↦ rest.kept id (set_insert_mem id x declared (inl e))
          | inr k ↦ rest.added id k
        ];
      }
]
  where
    refused :
        ◌≡◌ {A = Result LowerError (List Text)} (err (duplicate_operation_id x)) (ok result) → ⊥
    refused e = cc

    unseen : Mem x declared → contains declared x ≡ false → ⊥
    unseen m e = let t = Mem-contains declared x m in cc

AllDistinct-append :
    (xs ys : List Text)
    → AllDistinct xs
    → AllDistinct ys
    → ((z : Text) → Mem z ys → Mem z xs → ⊥)
    → AllDistinct (xs ++ ys)
AllDistinct-append [] ys dx dy apart = dy
AllDistinct-append (x ∷ xs) ys dx dy apart = (
  (λ y m e. elim (in_either y xs m) [ inl n ↦ dx.0 y n e | inr n ↦ apart y n (inl e) ]),
  AllDistinct-append xs ys dx.1 dy (λ z m n. apart z m (inr n)),
)
  where
    in_either : (y : Text) (zs : List Text) → Mem y (zs ++ ys) → Mem y zs ⊎ Mem y ys
    in_either y [] m = inr m
    in_either y (z ∷ zs) (inl e) = inl (inl e)
    in_either y (z ∷ zs) (inr m) = elim (in_either y zs m) [ inl n ↦ inl (inr n) | inr n ↦ inr n ]

-- In a manifest that the proof of references accepts, no operation id occurs twice among the lifecycle
-- operations of all services and the operations of all tasks.
pub prove_references-AllDistinct :
    (m : Manifest)
    → prove_references m ≡ ok tt
    → AllDistinct (service_op_ids m.services ++ task_op_ids m.tasks)
unfolding prove_references
prove_references-AllDistinct m h =
    let (h1, r1) =
      >>-ok
        (prove_each
          (check_codebase (set_extend [] (map (λ (c : Codebase). c.codebase_id) m.codebases)))
          (invocations m))
        _ h in
    let (h2, r2) = >>-ok (prove_each (check_closure m.target.closure_system) m.closures) _ r1 in
    let (d1, h3, r3) = >>=-ok (declare_all (service_op_ids m.services) []) _ r2 in
    let (d2, h4, r4) = >>=-ok (declare_all (task_op_ids m.tasks) d1) _ r3 in
    let a = declare_all-AreNew (service_op_ids m.services) [] h3 in
    let b = declare_all-AreNew (task_op_ids m.tasks) d1 h4 in
    AllDistinct-append (service_op_ids m.services) (task_op_ids m.tasks) a.distinct b.distinct
      (λ z k n. b.fresh z k (a.added z n))

-- ===== src/Execution/Closure.antt =====
-- `close_union`: the least set of services that holds the base and is closed under the edges.
use nixfied.Prelude.{
  ℕ, zero, suc, ◌+◌, ◌≡◌, ◌⊎◌, ◌↔◌, refl, sym, inl, inr, true, some, List, [], ◌∷◌, Text, ok,
  length, lookup, contains, contains-Mem, set_insert, mem-set_insert, set_insert_mem, map, arith,
  Bool-cases, Option-cases, Mem,
}
use nixfied.Execution.Graph.{EdgeKind, Edges, insert_targets, close_loop, reverse_onto, close_union}
use nixfied.Execution.Plan.{edge_targets}

abbrev IsSubset : List Text → List Text → Type 0
IsSubset xs ys = (z : Text) → Mem z xs → Mem z ys

abbrev target_ids : List (Text × EdgeKind) → List Text
target_ids targets = map (λ t. t.0) targets

-- The services that the base leads to.
pub data Reaches (edges : Edges) (base : List Text) : Text → Type 0 where
  start : {id : Text} → Mem id base → Reaches edges base id
  along :
      {id target : Text}
      → Reaches edges base id
      → Mem target (edge_targets edges id)
      → Reaches edges base target

record Inserts (targets union pending union' pending' : List Text) : Type 0 where
  kept : IsSubset union union'
  waiting : IsSubset pending pending'
  holds : IsSubset targets union'
  fresh : (z : Text) → Mem z union' → Mem z union ⊎ Mem z pending'
  only : (z : Text) → Mem z pending' → Mem z pending ⊎ Mem z targets

insert_targets-Inserts :
    (targets : List (Text × EdgeKind)) (union pending : List Text)
    → Inserts
        (target_ids targets)
        union
        pending
        (insert_targets targets union pending).0
        (insert_targets targets union pending).1
unfolding insert_targets
insert_targets-Inserts [] union pending = record {
  kept = λ z m. m;
  waiting = λ z m. m;
  holds = λ z m. absurd m;
  fresh = λ z m. inl m;
  only = λ z m. inl m;
}
insert_targets-Inserts ((target, kind) ∷ rest) union pending =
    elim (Bool-cases (contains union target)) [
      | inl t ↦ rw t (there (insert_targets-Inserts rest union pending) t)
      | inr f ↦
          rw f (added (insert_targets-Inserts rest (set_insert target union) (target ∷ pending)))
    ]
  where
    there :
        {u p : List Text}
        → Inserts (target_ids rest) union pending u p
        → contains union target ≡ true
        → Inserts (target ∷ target_ids rest) union pending u p
    there i t = record {
      kept = i.kept;
      waiting = i.waiting;
      holds = λ z m. elim m [
        | inl e ↦ i.kept z (rw e (contains-Mem union target t))
        | inr n ↦ i.holds z n
      ];
      fresh = i.fresh;
      only = λ z m. elim (i.only z m) [ inl n ↦ inl n | inr n ↦ inr (inr n) ];
    }

    added :
        {u p : List Text}
        → Inserts (target_ids rest) (set_insert target union) (target ∷ pending) u p
        → Inserts (target ∷ target_ids rest) union pending u p
    added i = record {
      kept = λ z m. i.kept z (set_insert_mem z target union (inr m));
      waiting = λ z m. i.waiting z (inr m);
      holds = λ z m. elim m [
        | inl e ↦ i.kept z (set_insert_mem z target union (inl e))
        | inr n ↦ i.holds z n
      ];
      fresh = λ z m. elim (i.fresh z m) [
        | inl n ↦ elim (mem-set_insert z target union n) [
          | inl e ↦ inr (i.waiting z (inl e))
          | inr o ↦ inl o
        ]
        | inr n ↦ inr n
      ];
      only = λ z m. elim (i.only z m) [
        | inl n ↦ elim n [ inl e ↦ inr (inl e) | inr o ↦ inl o ]
        | inr n ↦ inr (inr n)
      ];
    }

module _ (edges : Edges) (base : List Text) where
  -- Every id of the union is pending, or its targets are in the union.
  abbrev IsHalfClosed : List Text → List Text → Type 0
  IsHalfClosed union pending =
      (id : Text)
      → Mem id union
      → Mem id pending ⊎ ((t : Text) → Mem t (edge_targets edges id) → Mem t union)

  abbrev AllReached : List Text → Type 0
  AllReached ids = (id : Text) → Mem id ids → Reaches edges base id

  pub record IsClosure (result : List Text) : Type 0 where
    pub has_base : (id : Text) → Mem id base → Mem id result
    pub closed : (id t : Text) → Mem id result → Mem t (edge_targets edges id) → Mem t result
    pub least : (id : Text) → Mem id result → Reaches edges base id

  edge_targets-some :
      (id : Text) (targets : List (Text × EdgeKind))
      → lookup id edges ≡ some targets
      → edge_targets edges id ≡ target_ids targets
  unfolding edge_targets
  edge_targets-some id targets e = rw (edge_targets, e)

  close_loop-IsClosure :
      (fuel : ℕ) (union pending : List Text) {result : List Text}
      → IsSubset base union
      → IsHalfClosed union pending
      → AllReached union
      → AllReached pending
      → close_loop fuel edges union pending ≡ ok result
      → IsClosure result
  unfolding close_loop
  close_loop-IsClosure fuel union [] {result} b h u p e =
      let w : union ≡ result = cc in
      rw (sym w) (record {
        has_base = b;
        closed = λ id t m n. elim (h id m) [ inl a ↦ absurd a | inr c ↦ c t n ];
        least = u;
      })
  close_loop-IsClosure zero union (id ∷ pending) b h u p e = cc
  close_loop-IsClosure (suc fuel) union (id ∷ pending) {result} b h u p e =
      elim (Option-cases (lookup id edges)) [
        | inl l ↦ cc (rw (close_loop, l) at e)
        | inr (targets, l) ↦
            let i = insert_targets-Inserts targets union pending in
            let same = edge_targets-some id targets l in
            let waiting =
              wait (target_ids targets) _ _ i (λ z m. along (p id (inl refl)) (rw same m)) in
            close_loop-IsClosure fuel (insert_targets targets union pending).0
              (insert_targets targets union pending).1 (λ z m. i.kept z (b z m))
              (half (target_ids targets) _ _ i (λ t m. rw same at m))
              (reach (target_ids targets) _ _ i waiting) waiting (rw (close_loop, l) at e)
      ]
    where
      wait :
          (targets u' p' : List Text)
          → Inserts targets union pending u' p'
          → ((z : Text) → Mem z targets → Reaches edges base z)
          → AllReached p'
      wait targets u' p' i r z m = elim (i.only z m) [ inl n ↦ p z (inr n) | inr n ↦ r z n ]

      reach :
          (targets u' p' : List Text)
          → Inserts targets union pending u' p'
          → AllReached p'
          → AllReached u'
      reach targets u' p' i r z m = elim (i.fresh z m) [ inl n ↦ u z n | inr n ↦ r z n ]

      half :
          (targets u' p' : List Text)
          → Inserts targets union pending u' p'
          → ((t : Text) → Mem t (edge_targets edges id) → Mem t targets)
          → IsHalfClosed u' p'
      half targets u' p' i same z m = elim (i.fresh z m) [
        | inr n ↦ inl n
        | inl n ↦ elim (h z n) [
          | inl (inl q) ↦ inr (λ t k. i.holds t (same t (rw q at k)))
          | inl (inr q) ↦ inl (i.waiting z q)
          | inr c ↦ inr (λ t k. i.kept t (c t k))
        ]
      ]

  mem-reverse_onto :
      (xs ys : List Text) (z : Text) → Mem z (reverse_onto xs ys) ↔ (Mem z xs ⊎ Mem z ys)
  unfolding reverse_onto
  mem-reverse_onto [] ys z = ((λ m. inr m), λ m. elim m [ inl n ↦ absurd n | inr n ↦ n ])
  mem-reverse_onto (x ∷ xs) ys z = ground (arith, mem-reverse_onto xs (x ∷ ys) z)

-- A service union that is computed holds the base, is closed under the edges of the graph, and has
-- no service that the base does not lead to.
pub close_union-IsClosure :
    (base : List Text) (edges : Edges) (result : List Text)
    → close_union base edges ≡ ok result
    → IsClosure edges base result
unfolding close_union
close_union-IsClosure base edges result h =
    close_loop-IsClosure edges base (length edges + length base) base (reverse_onto base [])
      (λ z m. m) (λ z m. inl ((mem-reverse_onto edges base base [] z).1 (inl m))) (λ z m. start m)
      (λ z m. start (base_only z ((mem-reverse_onto edges base base [] z).0 m))) h
  where
    base_only : (z : Text) → Mem z base ⊎ Mem z [] → Mem z base
    base_only z (inl m) = m
    base_only z (inr m) = absurd m

-- ===== src/Execution/Worklist.antt =====
-- The worklist of `close_union` ends within its fuel where every edge leads to a service.
use nixfied.Prelude.{
  IsKey, missing-set_insert-lt, missing, missing-le, ℕ, zero, suc, ◌+◌, ◌≤◌, ◌≡◌, refl, inl, inr,
  false, some, List, [], ◌∷◌, Text, ok, length, lookup, contains, set_insert, map, arith,
  Bool-cases, Mem,
}
use nixfied.Execution.Graph.{EdgeKind, Edges, insert_targets, close_loop, reverse_onto, close_union}
use nixfied.Execution.Closure.{IsClosure, close_union-IsClosure}

-- Every edge leads to a service of the graph.
abbrev pub IsGraph : Edges → Type 0
IsGraph edges =
    (id : Text) (targets : List (Text × EdgeKind))
    → lookup id edges ≡ some targets
    → (t : Text) → Mem t (map (λ e. e.0) targets)
    → IsKey edges t

abbrev AllKeys : Edges → List Text → Type 0
AllKeys edges ids = (id : Text) → Mem id ids → IsKey edges id

insert_targets-measure :
    (edges : Edges) (targets : List (Text × EdgeKind)) (union pending : List Text)
    → AllKeys edges (map (λ e. e.0) targets)
    → AllKeys edges pending
    → (missing edges (insert_targets targets union pending).0
          + length (insert_targets targets union pending).1
        ≤ missing edges union + length pending)
      × AllKeys edges (insert_targets targets union pending).1
unfolding insert_targets
insert_targets-measure edges [] union pending kt kp = (omega arith, kp)
insert_targets-measure edges ((target, kind) ∷ rest) union pending kt kp =
    elim (Bool-cases (contains union target)) [
      | inl t ↦ rw t (insert_targets-measure edges rest union pending (λ z m. kt z (inr m)) kp)
      | inr f ↦ rw f (
          smaller _ _ f (
            insert_targets-measure edges rest (set_insert target union) (target ∷ pending)
              (λ z m. kt z (inr m)) wider))
    ]
  where
    wider : AllKeys edges (target ∷ pending)
    wider z (inl e) = rw e (kt target (inl refl))
    wider z (inr m) = kp z m

    smaller :
        (u p : List Text)
        → contains union target ≡ false
        → (missing edges u + length p
            ≤ missing edges (set_insert target union) + suc (length pending))
          × AllKeys edges p
        → (missing edges u + length p ≤ missing edges union + length pending) × AllKeys edges p
    smaller u p f (h, k) =
        (omega (arith, missing-set_insert-lt edges target union (kt target (inl refl)) f), k)

close_loop-ok :
    (fuel : ℕ) (edges : Edges) (union pending : List Text)
    → IsGraph edges
    → AllKeys edges pending
    → missing edges union + length pending ≤ fuel
    → (result : List Text) × (close_loop fuel edges union pending ≡ ok result)
unfolding close_loop
close_loop-ok fuel edges union [] g k h = (union, refl)
close_loop-ok zero edges union (id ∷ pending) g k h = absurd (omega arith)
close_loop-ok (suc fuel) edges union (id ∷ pending) g k h =
    let (targets, l) = k id (inl refl) in
    let (less, keys) =
      insert_targets-measure edges targets union pending (g id targets l) (λ z m. k z (inr m)) in
    let (result, run) =
      close_loop-ok fuel edges (insert_targets targets union pending).0
        (insert_targets targets union pending).1 g keys (omega arith) in
    (result, rw (close_loop, l) run)

reverse_onto-AllKeys :
    (edges : Edges) (xs ys : List Text)
    → AllKeys edges xs
    → AllKeys edges ys
    → AllKeys edges (reverse_onto xs ys)
unfolding reverse_onto
reverse_onto-AllKeys edges [] ys kx ky = ky
reverse_onto-AllKeys edges (x ∷ xs) ys kx ky =
    reverse_onto-AllKeys edges xs (x ∷ ys) (λ z m. kx z (inr m)) wider
  where
    wider : AllKeys edges (x ∷ ys)
    wider z (inl e) = kx z (inl e)
    wider z (inr m) = ky z m

length-reverse_onto : (xs ys : List Text) → length (reverse_onto xs ys) ≡ length xs + length ys
unfolding reverse_onto
length-reverse_onto [] ys = omega arith
length-reverse_onto (x ∷ xs) ys = omega (arith, length-reverse_onto xs (x ∷ ys))

-- In a graph whose edges lead to services of the graph, and for a base of such services, the
-- service union is always computed: it is the least set that holds the base and is closed under
-- the edges.
pub close_union-total :
    (base : List Text) (edges : Edges)
    → IsGraph edges
    → ((id : Text) → Mem id base → IsKey edges id)
    → (result : List Text) × (close_union base edges ≡ ok result) × IsClosure edges base result
unfolding close_union
close_union-total base edges g k =
    let (result, run) =
      close_loop-ok (length edges + length base) edges base (reverse_onto base []) g
        (reverse_onto-AllKeys edges base [] k (λ z m. absurd m))
        (omega (arith, missing-le edges base, length-reverse_onto base [])) in
    (result, run, close_union-IsClosure base edges result run)

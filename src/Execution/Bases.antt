-- ===== src/Execution/Bases.antt =====
-- The tables of the tasks' requirements: admission and planning build the same service graph.

use nixfied.Prelude.{
  lookup-Mem, ◌≡◌, ◌⊎◌, sym, ap, ◌∙◌, inl, inr, Option, none, some, List, [], ◌∷◌, Text, Result, ok,
  err, >>=-ok, lookup, map_insert, text_lt, text_eq, text_eq→≡, Mem, arith, Bool-cases,
  Option-cases,
}
use nixfied.Execution.Types.{ExecService, Program}
use nixfied.Execution.Flatten.{PlanError, index_panic, PlanNode, flatten}
use nixfied.Execution.Graph.{
  EdgeKind, Edges, Bases, direct_requirements, prepare_edges, edges_of, service_edges,
}
use nixfied.Execution.Plan.{prepare_bases}
use nixfied.Execution.Admit.{try_map, task_base}

-- The requirements that a table has for a task are those of its leaves.
abbrev pub AreBases : Program → Bases → Type 0
AreBases program bases =
    (task : Text) (base : List Text)
    → Mem (task, base) bases
    → (nodes : List PlanNode) × (flatten program task ≡ ok nodes)
      × (direct_requirements nodes ≡ base)

pub mem-try_map :
    {A B : Type 0} (f : Text → A → Result PlanError B) (xs : List (Text × A)) {ys : List (Text × B)}
    (k : Text) (b : B)
    → try_map f xs ≡ ok ys
    → Mem (k, b) ys
    → (a : A) × (f k a ≡ ok b) × Mem (k, a) xs
unfolding try_map
mem-try_map f [] {ys} k b h l = let same : ys ≡ [] = cc in absurd (rw same at l)
mem-try_map f ((j, a) ∷ xs) {ys} k b h l =
    let (c, e, h1) = >>=-ok (f j a) _ h in
    let (more, e1, last) = >>=-ok (try_map f xs) _ h1 in
    let same : ys ≡ (j, c) ∷ more = cc in
    elim (rw same at l) [
      | inl u ↦
          (a, rw (sym (ap (λ t. t.0) u), sym (ap (λ t. t.1) u)) at e, inl (ap (λ t. (t.0, a)) u))
      | inr m ↦ let (d, g, n) = mem-try_map f xs k b e1 m in (d, g, inr n)
    ]

pub task_base-AreBases :
    (program : Program) {bases : Bases}
    → try_map (task_base program) program.tasks ≡ ok bases
    → AreBases program bases
unfolding task_base
task_base-AreBases program h task base l =
    let (body, e, m) = mem-try_map (task_base program) program.tasks task base h l in
    let (nodes, f, g) = >>=-ok (flatten program task) _ e in (nodes, f, cc)

mem-map_insert :
    (p : Text × List Text) (j : Text) (v : List Text) (m : Bases)
    → Mem p (map_insert j v m)
    → (p ≡ (j, v)) ⊎ Mem p m
unfolding map_insert
mem-map_insert p j v [] h = h
mem-map_insert p j v ((i, u) ∷ m) h = elim (Bool-cases (text_eq j i)) [
  | inl t ↦ elim (rw (map_insert, t) at h) [
    | inl e ↦ inl (e ∙ ap (λ k. (k, v)) (sym (text_eq→≡ j i t)))
    | inr n ↦ inr (inr n)
  ]
  | inr f ↦ elim (Bool-cases (text_lt j i)) [
    | inl l ↦ rw (map_insert, f, l) at h
    | inr l ↦ elim (rw (map_insert, f, l) at h) [
      | inl e ↦ inr (inl e)
      | inr n ↦ ground (arith, mem-map_insert p j v m n)
    ]
  ]
]

pub prepare_bases-AreBases :
    (program : Program) (services : List (Text × ExecService)) (bases : Bases) {result : Bases}
    → AreBases program bases
    → prepare_bases program services bases ≡ ok result
    → AreBases program result
unfolding prepare_bases
prepare_bases-AreBases program [] bases {result} a h =
    let same : bases ≡ result = cc in rw (sym same) a
prepare_bases-AreBases program ((id, service) ∷ rest) bases {result} a h =
    elim (Option-cases service.prepare) [
      | inl e ↦ prepare_bases-AreBases program rest bases a (rw (prepare_bases, e) at h)
      | inr (prepare, e) ↦ elim (Option-cases (lookup prepare bases)) [
        | inr (base, f) ↦
            prepare_bases-AreBases program rest bases a (rw (prepare_bases, e, f) at h)
        | inl f ↦
            let (nodes, g, k) =
              >>=-ok (flatten program prepare) _ (rw (prepare_bases, e, f) at h) in
            prepare_bases-AreBases program rest
              (map_insert prepare (direct_requirements nodes) bases)
              (λ task base m.
                elim (mem-map_insert (task, base) prepare (direct_requirements nodes) bases m) [
                  | inl u ↦ (nodes, rw (ap (λ t. t.0) u) g, sym (ap (λ t. t.1) u))
                  | inr n ↦ a task base n
                ])
              k
      ]
    ]

prepare_edges_unique :
    (program : Program) (prepare : Option Text) (b c : Bases) {p q : List (Text × EdgeKind)}
    → AreBases program b
    → AreBases program c
    → prepare_edges b prepare ≡ ok p
    → prepare_edges c prepare ≡ ok q
    → p ≡ q
unfolding prepare_edges
prepare_edges_unique program none b c x y h k = cc
prepare_edges_unique program (some task) b c x y h k = elim (Option-cases (lookup task b)) [
  | inl e ↦ absurd (none_left (rw (prepare_edges, e) at h))
  | inr (base, e) ↦ elim (Option-cases (lookup task c)) [
    | inl f ↦ absurd (none_left (rw (prepare_edges, f) at k))
    | inr (other, f) ↦
        let (nodes, g, u) = x task base (lookup-Mem task b e) in
        let (others, l, v) = y task other (lookup-Mem task c f) in
        let same : nodes ≡ others = cc in
        let first = rw (prepare_edges, e) at h in let second = rw (prepare_edges, f) at k in cc
  ]
]
  where
    none_left : {r : List (Text × EdgeKind)} → err (index_panic task) ≡ ok r → ⊥
    none_left e = cc

-- Two tables of the tasks' requirements give the same service graph.
edges_of_unique :
    (program : Program) (services : List (Text × ExecService)) (b c : Bases) {e f : Edges}
    → AreBases program b
    → AreBases program c
    → edges_of b services ≡ ok e
    → edges_of c services ≡ ok f
    → e ≡ f
unfolding edges_of
edges_of_unique program [] b c x y h k = cc
edges_of_unique program ((id, service) ∷ rest) b c x y h k =
    let (p, e1, h1) = >>=-ok (prepare_edges b service.prepare) _ h in
    let (q, e2, k1) = >>=-ok (prepare_edges c service.prepare) _ k in
    let (s, e3, h2) = >>=-ok (edges_of b rest) _ h1 in
    let (t, e4, k2) = >>=-ok (edges_of c rest) _ k1 in
    let same : p ≡ q = prepare_edges_unique program service.prepare b c x y e1 e2 in
    let others : s ≡ t = edges_of_unique program rest b c x y e3 e4 in cc

pub service_edges_unique :
    (program : Program) (b c : Bases) {e f : Edges}
    → AreBases program b
    → AreBases program c
    → service_edges program b ≡ ok e
    → service_edges program c ≡ ok f
    → e ≡ f
unfolding service_edges
service_edges_unique program b c x y h k = edges_of_unique program program.services b c x y h k

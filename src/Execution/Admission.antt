-- ===== src/Execution/Admission.antt =====
-- The admission of plan.rs is total on a program whose names are declared.
use nixfied.Prelude.{
  ◌≡◌, refl, sym, ap, ◌∙◌, inl, inr, Option, none, some, List, [], ◌∷◌, ◌++◌, Text, map, Result, ok,
  >>=-ok, Errs, Errs-ok, Errs-bind, Errs-then, lookup, lookup-Mem, Mem, IsKey, IsKey-nil,
  IsKey-head, IsKey-cons, mem-append, mem-map, Option-cases, lookup-cases,
}
use nixfied.Execution.Types.{ExecService, Program}
use nixfied.Execution.Flatten.{PlanError, flatten}
use nixfied.Execution.Graph.{
  EdgeKind, connects_to, prepare_requires, Edges, Bases, prepare_edges, edges_of, service_edges,
}
use nixfied.Execution.Worklist.{IsGraph, close_union-total}
use nixfied.Execution.Bases.{task_base-AreBases}
use nixfied.Execution.Admit.{try_map, task_base, task_union, prove_service_cycles, prove_graph}
use nixfied.Execution.Closed.{IsPlanRefusal, IsClosed}
use nixfied.Execution.Emission.{flatten-Errs}
use nixfied.Execution.Leaves.{direct_requirements-IsLeaf}
use nixfied.Execution.Acyclic.{prove_service_cycles-Errs}

pub try_map-Errs :
    {A B : Type 0} (f : Text → A → Result PlanError B) (xs : List (Text × A))
    → ((k : Text) (a : A) → Mem (k, a) xs → Errs IsPlanRefusal (f k a))
    → Errs IsPlanRefusal (try_map f xs)
unfolding try_map
try_map-Errs f [] h = Errs-ok IsPlanRefusal []
try_map-Errs f ((k, a) ∷ xs) h = Errs-bind IsPlanRefusal (f k a) _ (h k a (inl refl)) (λ b e.
    Errs-bind IsPlanRefusal (try_map f xs) _ (try_map-Errs f xs (λ j c m. h j c (inr m)))
      (λ more g. Errs-ok IsPlanRefusal _))

-- The keys stay.
pub try_map-IsKey :
    {A B : Type 0} (f : Text → A → Result PlanError B) (xs : List (Text × A)) {ys : List (Text × B)}
    (k : Text)
    → try_map f xs ≡ ok ys
    → IsKey xs k
    → IsKey ys k
unfolding try_map
try_map-IsKey f [] k h m = absurd (IsKey-nil k m)
try_map-IsKey f ((j, a) ∷ xs) {ys} k h (v, e) =
    let (b, e1, h1) = >>=-ok (f j a) _ h in
    let (more, e2, last) = >>=-ok (try_map f xs) _ h1 in
    let same : (j, b) ∷ more ≡ ys = cc in
    let moved : IsKey ((j, b) ∷ more) k = elim (lookup-cases k j a xs e) [
      | inl p ↦ IsKey-head k j b more (sym p.0)
      | inr n ↦ IsKey-cons k j b more (try_map-IsKey f xs k e2 (v, n))
    ] in
    rw same at moved

prepare_edges-Errs :
    (bases : Bases) (prepare : Option Text)
    → ((task : Text) → prepare ≡ some task → IsKey bases task)
    → Errs IsPlanRefusal (prepare_edges bases prepare)
unfolding prepare_edges
prepare_edges-Errs bases none k = Errs-ok IsPlanRefusal []
prepare_edges-Errs bases (some task) k =
    let (base, e) = k task refl in rw (prepare_edges, e) (Errs-ok IsPlanRefusal _)

edges_of-Errs :
    (bases : Bases) (services : List (Text × ExecService))
    → ((id : Text) (s : ExecService) (task : Text)
        → Mem (id, s) services
        → s.prepare ≡ some task
        → IsKey bases task)
    → Errs IsPlanRefusal (edges_of bases services)
unfolding edges_of
edges_of-Errs bases [] k = Errs-ok IsPlanRefusal []
edges_of-Errs bases ((id, service) ∷ rest) k =
    Errs-bind IsPlanRefusal (prepare_edges bases service.prepare) _
      (prepare_edges-Errs bases service.prepare (λ t e. k id service t (inl refl) e))
      (λ prepared h.
        Errs-bind IsPlanRefusal (edges_of bases rest) _
          (edges_of-Errs bases rest (λ i s t m e. k i s t (inr m) e))
          (λ edges g. Errs-ok IsPlanRefusal _))

pub edges_of-IsKey :
    (bases : Bases) (services : List (Text × ExecService)) {edges : Edges} (id : Text)
    → edges_of bases services ≡ ok edges
    → IsKey services id
    → IsKey edges id
unfolding edges_of
edges_of-IsKey bases [] id h m = absurd (IsKey-nil id m)
edges_of-IsKey bases ((j, s) ∷ rest) {edges} id h (v, e) =
    let (prepared, e1, h1) = >>=-ok (prepare_edges bases s.prepare) _ h in
    let (more, e2, last) = >>=-ok (edges_of bases rest) _ h1 in
    let targets : List (Text × EdgeKind) =
      map (λ target. (target, connects_to)) s.connects_to ++ prepared in
    let same : (j, targets) ∷ more ≡ edges = cc in
    let moved : IsKey ((j, targets) ∷ more) id = elim (lookup-cases id j s rest e) [
      | inl p ↦ IsKey-head id j targets more (sym p.0)
      | inr n ↦ IsKey-cons id j targets more (edges_of-IsKey bases rest id e2 (v, n))
    ] in
    rw same at moved

-- A key of the graph is a service.
pub edges_of-services :
    (bases : Bases) (services : List (Text × ExecService)) {edges : Edges} (id : Text)
    (targets : List (Text × EdgeKind))
    → edges_of bases services ≡ ok edges
    → Mem (id, targets) edges
    → (s : ExecService) × (prepared : List (Text × EdgeKind)) × Mem (id, s) services
      × (prepare_edges bases s.prepare ≡ ok prepared)
      × (targets ≡ map (λ target. (target, connects_to)) s.connects_to ++ prepared)
unfolding edges_of
edges_of-services bases [] {edges} id targets h m =
    let same : edges ≡ [] = cc in absurd (rw same at m)
edges_of-services bases ((j, s) ∷ rest) {edges} id targets h m =
    let (prepared, e1, h1) = >>=-ok (prepare_edges bases s.prepare) _ h in
    let (more, e2, last) = >>=-ok (edges_of bases rest) _ h1 in
    let own : List (Text × EdgeKind) =
      map (λ target. (target, connects_to)) s.connects_to ++ prepared in
    let same : edges ≡ (j, own) ∷ more = cc in
    elim (rw same at m) [
      | inl e ↦ (
        s,
        prepared,
        inl (ap (λ (p : Text × List (Text × EdgeKind)). (p.0, s)) e),
        e1,
        ap (λ (p : Text × List (Text × EdgeKind)). p.1) e,
      )
      | inr n ↦
          let (s', p, k, f, g) = edges_of-services bases rest id targets e2 n in
          (s', p, inr k, f, g)
    ]

prepare_edges-base :
    (bases : Bases) (prepare : Option Text) {prepared : List (Text × EdgeKind)}
    (pair : Text × EdgeKind)
    → prepare_edges bases prepare ≡ ok prepared
    → Mem pair prepared
    → (task : Text) × (base : List Text) × (lookup task bases ≡ some base) × Mem pair.0 base
unfolding prepare_edges
prepare_edges-base bases none {prepared} pair h m =
    let same : prepared ≡ [] = cc in absurd (rw same at m)
prepare_edges-base bases (some task) {prepared} pair h m = elim (Option-cases (lookup task bases)) [
  | inl e ↦ cc (rw (prepare_edges, e) at h)
  | inr (base, e) ↦
      let last = rw (prepare_edges, e) at h in
      let same : prepared ≡ map (λ id. (id, prepare_requires)) base = cc in
      let (id, k, f) = mem-map (λ (id : Text). (id, prepare_requires)) pair base (rw same at m) in
      let first : id ≡ pair.0 = sym (ap (λ (p : Text × EdgeKind). p.0) f) in
      (task, base, e, rw first at k)
]

module _ (program : Program) (c : IsClosed program) where
  pub base_services :
      {bases : Bases} (task : Text) (base : List Text)
      → try_map (task_base program) program.tasks ≡ ok bases
      → Mem (task, base) bases
      → (service : Text) → Mem service base
      → IsKey program.services service
  base_services task base h m service k =
      let (nodes, flat, same) = task_base-AreBases program h task base m in
      let (leaf, (id, n), r) =
        direct_requirements-IsLeaf program task nodes service flat (rw (sym same) at k) in
      c.requires id leaf service n r

  pub service_edges-IsGraph :
      {bases : Bases} {edges : Edges}
      → try_map (task_base program) program.tasks ≡ ok bases
      → edges_of bases program.services ≡ ok edges
      → IsGraph edges
  service_edges-IsGraph {bases} {edges} h1 h2 id targets l t m =
      let (s, prepared, k, e, shape) =
        edges_of-services bases program.services id targets h2 (lookup-Mem id edges l) in
      let (pair, n, same) = mem-map (λ (p : Text × EdgeKind). p.0) t targets m in
      edges_of-IsKey bases program.services t h2
        (elim (mem-append pair (map (λ target. (target, connects_to)) s.connects_to) prepared
          (rw shape at n)) [
            | inl a ↦
                let (target, b, f) =
                  mem-map (λ (target : Text). (target, connects_to)) pair s.connects_to a in
                let one : target ≡ t = sym (ap (λ (p : Text × EdgeKind). p.0) f) ∙ sym same in
                let found : IsKey program.services target = c.connects id s target k b in
                rw one at found
            | inr a ↦
                let (task, base, f, b) = prepare_edges-base bases s.prepare pair e a in
                let found : IsKey program.services pair.0 =
                  base_services task base h1 (lookup-Mem task bases f) pair.0 b in
                rw (sym same) at found
          ])

  -- In a program whose names are declared, the proof of the graph fails only with an error that the
  -- source returns: neither an indexing fails nor its fuel ends.
  pub prove_graph-Errs : Errs IsPlanRefusal (prove_graph program)
  unfolding prove_graph task_base service_edges task_union
  prove_graph-Errs =
      Errs-bind IsPlanRefusal (try_map (task_base program) program.tasks) _
        (try_map-Errs (task_base program) program.tasks (λ task body m.
          Errs-bind IsPlanRefusal (flatten program task) _ (flatten-Errs program task c)
            (λ nodes h. Errs-ok IsPlanRefusal _)))
        (λ bases h1.
          Errs-bind IsPlanRefusal (edges_of bases program.services) _
            (edges_of-Errs bases program.services (λ id s task m e.
              try_map-IsKey (task_base program) program.tasks task h1 (c.prepares id s task m e)))
            (λ edges h2.
              Errs-then IsPlanRefusal (prove_service_cycles edges) _
                (prove_service_cycles-Errs edges (service_edges-IsGraph h1 h2))
                (λ h3.
                  Errs-bind IsPlanRefusal (try_map (task_union edges) bases) _
                    (try_map-Errs (task_union edges) bases (λ task base m.
                      let (union, e, closure) =
                        close_union-total base edges (service_edges-IsGraph h1 h2) (λ id k.
                          edges_of-IsKey bases program.services id h2
                            (base_services task base h1 m id k)) in
                      rw e (Errs-ok IsPlanRefusal union)))
                    (λ required h4. Errs-ok IsPlanRefusal _))))

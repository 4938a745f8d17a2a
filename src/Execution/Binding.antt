-- ===== src/Execution/Binding.antt =====
-- Binding a plan to a slot: every port lies in the slot's window and serves one endpoint.
use nixfied.Prelude.{
  ℕ, ◌+◌, ◌≤◌, ◌≡◌, ◌⊎◌, refl, sym, ap, inl, inr, Option, none, some, List, [], ◌∷◌, Text, Result,
  ok, >>=-ok, >>-ok, length, lookup, map_insert, IsSortedMap, IsBelow, IsBelow-lookup,
  map_insert-IsSortedMap, text_eq→≡, arith, Mem,
}
use nixfied.Execution.Types.{ExecService, PortWindow, window_capacity, endpoint_ids}
use nixfied.Execution.Flatten.{PlanError, PlanNode}
use nixfied.Execution.Plan.{
  Ports, ServiceBinding, RunPlan, LogicalPlan, capacity, window_at, endpoint_ports_from, allocate,
  canonical_from, demand, remove_key, bind_services, bind_slot,
}
use nixfied.Execution.Ports.{total, IsPort, allocate-IsAllocated}

total-map_insert :
    (k : Text) (v : ExecService) (m : List (Text × ExecService))
    → total (map_insert k v m) ≤ length (endpoint_ids v) + total m
unfolding total map_insert
total-map_insert k v [] = omega arith
total-map_insert k v ((j, w) ∷ m) = ground (arith, total-map_insert k v m)

total-canonical_from :
    (services : List (ExecService × List PlanNode)) (m : List (Text × ExecService))
    → total (canonical_from services m) ≤ demand services + total m
unfolding canonical_from demand
total-canonical_from [] m = omega arith
total-canonical_from ((service, nodes) ∷ rest) m = omega (
  arith,
  total-canonical_from rest (map_insert service.name service m),
  total-map_insert service.name service m,
)

canonical_from-IsSortedMap :
    (services : List (ExecService × List PlanNode)) (m : List (Text × ExecService))
    → IsSortedMap m
    → IsSortedMap (canonical_from services m)
unfolding canonical_from
canonical_from-IsSortedMap [] m h = h
canonical_from-IsSortedMap ((service, nodes) ∷ rest) m h =
    canonical_from-IsSortedMap rest (map_insert service.name service m)
      (map_insert-IsSortedMap service.name service m h)

allocate-IsBelow :
    (k : Text) (cursor : ℕ) (services : List (Text × ExecService))
    → IsBelow k services
    → IsBelow k (allocate cursor services)
unfolding allocate
allocate-IsBelow k cursor [] h = tt
allocate-IsBelow k cursor ((id, service) ∷ rest) h =
    (h.0, allocate-IsBelow k (endpoint_ports_from cursor (endpoint_ids service)).1 rest h.1)

allocate-IsSortedMap :
    (cursor : ℕ) (services : List (Text × ExecService))
    → IsSortedMap services
    → IsSortedMap (allocate cursor services)
unfolding allocate
allocate-IsSortedMap cursor [] h = tt
allocate-IsSortedMap cursor ((id, service) ∷ rest) h =
    let next = (endpoint_ports_from cursor (endpoint_ids service)).1 in
    (allocate-IsBelow id next rest h.0, allocate-IsSortedMap next rest h.1)

remove_key-IsBelow :
    (i k : Text) (m : List (Text × Ports)) → IsBelow i m → IsBelow i (remove_key k m)
unfolding remove_key
remove_key-IsBelow i k [] h = tt
remove_key-IsBelow i k ((j, p) ∷ m) h = ground (arith, remove_key-IsBelow i k m h.1)

remove_key-IsSortedMap :
    (k : Text) (m : List (Text × Ports)) → IsSortedMap m → IsSortedMap (remove_key k m)
unfolding remove_key
remove_key-IsSortedMap k [] h = tt
remove_key-IsSortedMap k ((j, p) ∷ m) h =
    ground (arith, remove_key-IsSortedMap k m h.1, remove_key-IsBelow j k m h.0)

-- What is left in a sorted map after a removal was there before.
lookup-remove_key :
    (k j : Text) (m : List (Text × Ports)) (ports : Ports)
    → IsSortedMap m
    → lookup k (remove_key j m) ≡ some ports
    → lookup k m ≡ some ports
unfolding lookup remove_key
lookup-remove_key k j [] ports h e = e
lookup-remove_key k j ((i, p) ∷ m) ports h e = ground (
  arith,
  lookup-remove_key k j m ports h.1,
  IsBelow-lookup i m h.0,
  text_eq→≡ i k,
  ap (λ z. lookup z m),
)

-- Each binding holds the addresses of its service.
bind_services-lookup :
    (services : List (ExecService × List PlanNode)) (addresses : List (Text × Ports))
    {bindings : List ServiceBinding}
    → IsSortedMap addresses
    → bind_services services addresses ≡ ok bindings
    → (b : ServiceBinding) → Mem b bindings
    → lookup b.service.name addresses ≡ some b.endpoint_ports
unfolding bind_services
bind_services-lookup [] addresses {bindings} h e b m =
    let w : [] ≡ bindings = cc in absurd (rw (sym w) at m)
bind_services-lookup ((service, nodes) ∷ rest) addresses {bindings} h e b m =
    by_entry (lookup service.name addresses) refl λ bs f.
      bind_services-lookup rest (remove_key service.name addresses)
        (remove_key-IsSortedMap service.name addresses h) f
  where
    placed :
        (ports : Ports) (bs : List ServiceBinding)
        → lookup service.name addresses ≡ some ports
        → ((c : ServiceBinding)
            → Mem c bs
            → lookup c.service.name (remove_key service.name addresses) ≡ some c.endpoint_ports)
        → (b ≡ record { service = service; prepare_nodes = nodes; endpoint_ports = ports })
          ⊎ Mem b bs
        → lookup b.service.name addresses ≡ some b.endpoint_ports
    placed ports bs l ih (inl c) = rw c l
    placed ports bs l ih (inr c) =
        lookup-remove_key b.service.name service.name addresses b.endpoint_ports h (ih b c)

    by_entry :
        (o : Option Ports)
        → lookup service.name addresses ≡ o
        → ((bs : List ServiceBinding)
            → bind_services rest (remove_key service.name addresses) ≡ ok bs
            → (c : ServiceBinding) → Mem c bs
            → lookup c.service.name (remove_key service.name addresses) ≡ some c.endpoint_ports)
        → lookup b.service.name addresses ≡ some b.endpoint_ports
    by_entry none l ih = cc (rw (bind_services, l) at e)
    by_entry (some ports) l ih =
        let (bs, f, last) =
          >>=-ok (bind_services rest (remove_key service.name addresses)) _
            (rw (bind_services, l) at e) in
        placed ports bs l (ih bs f) (member ports bs last)
      where
        member :
            (ports : Ports) (bs : List ServiceBinding)
            → ◌≡◌ {A = Result PlanError (List ServiceBinding)}
                (ok (
                  record { service = service; prepare_nodes = nodes; endpoint_ports = ports } ∷ bs))
                (ok bindings)
            → (b ≡ record { service = service; prepare_nodes = nodes; endpoint_ports = ports })
              ⊎ Mem b bs
        member ports bs last =
            let w : record { service = service; prepare_nodes = nodes; endpoint_ports = ports } ∷ bs
                ≡ bindings =
              cc in
            rw (sym w) at m

capacity-fits :
    (window : PortWindow) (slot endpoints services : ℕ)
    → capacity window slot endpoints services ≡ ok tt
    → endpoints ≤ window_capacity window
unfolding capacity
capacity-fits window slot endpoints services h = ground arith

-- The port of an endpoint of a bound service.
abbrev pub IsBound : RunPlan → ServiceBinding → Text → ℕ → Type 0
IsBound plan b endpoint port = Mem b plan.services × (lookup endpoint b.endpoint_ports ≡ some port)

-- In a plan bound to a slot every port lies in the slot's candidate window, and two endpoints with
-- the same port are the same endpoint of services with the same name. The window is one that
-- `PortWindow::new` builds from 16-bit ports.
pub bind_slot-ports :
    (logical : LogicalPlan) (slot : ℕ) (window : PortWindow) (plan : RunPlan)
    → window_at slot logical.slot_windows ≡ some window
    → window.start ≤ window.end
    → window.end ≤ 65535
    → bind_slot logical slot ≡ ok plan
    → ((b : ServiceBinding) (e : Text) (p : ℕ)
        → IsBound plan b e p
        → (window.start ≤ p) × (p ≤ window.end))
      × ((b c : ServiceBinding) (e f : Text) (p : ℕ)
          → IsBound plan b e p
          → IsBound plan c f p
          → (b.service.name ≡ c.service.name) × (e ≡ f))
unfolding bind_slot total window_capacity
bind_slot-ports logical slot window plan w low high h =
    let bound = rw (bind_slot, w) at h in
    let (fits, rest) =
      >>-ok (capacity window slot (demand logical.services) (length logical.services)) _ bound in
    let (bindings, f, last) = >>=-ok (bind_services logical.services _) _ rest in
    let canonical = canonical_from logical.services [] in
    let addresses = allocate window.start canonical in
    let size : window.start + total canonical ≤ window.end + 1 =
      within (total canonical) (total-canonical_from logical.services [])
        (capacity-fits window slot (demand logical.services) (length logical.services) fits) in
    let allocated =
      allocate-IsAllocated window.start window.start canonical
        ((λ l. refl), (λ l. absurd (omega arith))) (omega arith) in
    let sorted =
      allocate-IsSortedMap window.start canonical
        (canonical_from-IsSortedMap logical.services [] tt) in
    let named = λ (b : ServiceBinding) (e : Text) (p : ℕ) (k : IsBound plan b e p).
      port_of addresses b e p (bind_services-lookup logical.services addresses sorted f) last k in
    (
      (λ b e p k. omega (arith, allocated.inside b.service.name e p (named b e p k))),
      λ b c e g p k l.
          allocated.unique b.service.name c.service.name e g p (named b e p k) (named c g p l),
    )
  where
    within :
        (n : ℕ)
        → n ≤ demand logical.services + total []
        → demand logical.services ≤ window_capacity window
        → window.start + n ≤ window.end + 1
    within n h k = omega arith

    port_of :
        {bindings : List ServiceBinding} (addresses : List (Text × Ports)) (b : ServiceBinding)
        (e : Text) (p : ℕ)
        → ((c : ServiceBinding)
            → Mem c bindings
            → lookup c.service.name addresses ≡ some c.endpoint_ports)
        → ◌≡◌ {A = Result PlanError RunPlan}
            (ok (record { services = bindings; nodes = logical.nodes }))
            (ok plan)
        → IsBound plan b e p
        → IsPort addresses b.service.name e p
    port_of {bindings} addresses b e p each last k =
        let same : ◌≡◌ {A = RunPlan} (record { services = bindings; nodes = logical.nodes }) plan =
          cc in
        (b.endpoint_ports, each b (rw (sym (ap (λ (r : RunPlan). r.services) same)) at k.0), k.1)

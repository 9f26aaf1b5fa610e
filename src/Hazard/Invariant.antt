-- ===== src/Hazard/Invariant.antt =====
-- The invariant of the loop of Build: the graph holds the hazards of the history, and no more.
use khaos.Prelude.{
  ℕ, suc, ◌%◌, ◌^◌, ◌<◌, ◌≡◌, refl, sym, List, [], ◌∷◌, ◌++◌, some, Bool, true, false, length,
  count, to_nat, All, All-of-count, get_elem?, get_elem?-snoc, length-append, subst, ◌==◌,
  if◌then◌else◌, arith,
}
use mathlib.Core.Option
use native.Mathlib.Decide.{ℕ_discrete}
use khaos.Result.{ok, >>=-eq-ok, ok_injective}
use khaos.Types.{
  Operation, Graph, ExecutionState, pending, new_dag_node, label_of, dependents_of, in_degree_of,
}
use khaos.Hazard.{BuildState, wire_readers, build_step, build_loop, build_start}
use khaos.Hazard.History.{
  History, op_at, edge, wired, wired_of, hazard_in_bound, edge_bounds, count-wired, last_write_in,
  reads_in,
}
use khaos.Hazard.Wiring.{
  length-wire_readers, label_of-wire_readers, count-dependents_of-wire_readers,
  in_degree_of-wire_readers,
}
use khaos.Hazard.Placed.{is_known, Tracks, IsPlaced, visit-IsPlaced}

abbrev pub new_label : Operation → Operation × Bool × ExecutionState
new_label op = (op, false, pending)

-- The graph of a history.
pub record IsGraphOf (h : History) (g : Graph) : Type 0 where
  pub size : length g ≡ length h
  pub labels : (a : ℕ) → label_of g a ≡ Option.map new_label (op_at h a)
  pub edges : (a b : ℕ) → count b (dependents_of g a) ≡ to_nat (edge h a b)
  pub degrees : (b : ℕ) → in_degree_of g b ≡ length (wired_of h b) % 2 ^ 64

-- The operations stand at their SeqIDs and have known types.
abbrev pub IsAccepted : History → Type 0
IsAccepted [] = Unit
IsAccepted (op ∷ h) = (op.seq_id ≡ length h) × (is_known op.type ≡ true) × IsAccepted h

pub record IsBuilt (h : History) (s : BuildState) : Type 0 where
  pub graph : IsGraphOf h s.all
  pub tracks : Tracks h s
  pub accepted : IsAccepted h

module _ (h : History) (op : Operation) (g : Graph) (inv : IsGraphOf h g) where
  abbrev grown : Graph
  grown = g ++ new_dag_node op ∷ []

  length-grown : length grown ≡ suc (length g)
  length-grown = omega (arith, length-append g (new_dag_node op ∷ []))

  wired-lt : All (λ p. p < length grown) (wired h op)
  wired-lt =
      All-of-count (λ p. p < length grown) (wired h op)
        λ a m. ground (arith, count-wired h op a, hazard_in_bound h op a, length-grown, inv.size)

  abbrev next_graph : Graph
  next_graph = wire_readers (wired h op) (length h) grown

  next_labels : (a : ℕ) → label_of next_graph a ≡ Option.map new_label (op_at (op ∷ h) a)
  unfolding op_at new_dag_node
  next_labels a = ground (
    arith,
    label_of-wire_readers (wired h op) (length h) grown a,
    get_elem?-snoc g (new_dag_node op) a,
    inv.labels a,
    inv.size,
  )

  next_edges : (a b : ℕ) → count b (dependents_of next_graph a) ≡ to_nat (edge (op ∷ h) a b)
  unfolding edge new_dag_node
  next_edges a b = ground (
    arith,
    count-dependents_of-wire_readers (wired h op) (length h) grown a b wired-lt,
    get_elem?-snoc g (new_dag_node op) a,
    count-wired h op a,
    inv.edges a b,
    inv.size,
    edge_bounds h a b,
  )

  next_degrees : (b : ℕ) → in_degree_of next_graph b ≡ length (wired_of (op ∷ h) b) % 2 ^ 64
  unfolding wired_of new_dag_node
  next_degrees b = elim (ℕ_discrete b (length h)) [
    | yes new ↦ ground (
      arith,
      in_degree_of-wire_readers (wired h op) (length h) grown b 0 node-lt
          (ground (arith, at_b, inv.size)),
    )
    | no old ↦ ground (
      arith,
      in_degree_of-wire_readers (wired h op) (length h) grown b (length (wired_of h b)) node-lt
          (ground (arith, at_b, inv.size, inv.degrees b)),
    )
  ]
    where
      at_b : get_elem? grown b ≡ (if length g == b then some (new_dag_node op) else get_elem? g b)
      at_b = get_elem?-snoc g (new_dag_node op) b

      node-lt : length h < length grown
      node-lt = omega (arith, length-grown, inv.size)

  pub next-IsGraphOf : IsGraphOf (op ∷ h) next_graph
  next-IsGraphOf = record {
    size = omega (arith, length-wire_readers (wired h op) (length h) grown, length-grown, inv.size);
    labels = next_labels;
    edges = next_edges;
    degrees = next_degrees;
  }

-- A pass of the loop keeps the invariant.
pub build_step-IsBuilt :
    (h : History) (op : Operation) (s : BuildState) {s' : BuildState}
    → IsBuilt h s
    → build_step (length h) op s ≡ ok s'
    → IsBuilt (op ∷ h) s'
unfolding build_step
build_step-IsBuilt h op s {s'} inv r = elim (ℕ_discrete op.seq_id (length h)) [
  | yes dense ↦ placed dense (visit-IsPlaced h op allocated tracks op.type refl (ground arith))
  | no other ↦ absurd (ground arith)
]
  where
    allocated : BuildState
    allocated = record s { all = s.all ++ new_dag_node op ∷ [] }

    tracks : Tracks h allocated
    tracks = record { last_writes = inv.tracks.last_writes; reads = inv.tracks.reads }

    placed : op.seq_id ≡ length h → IsPlaced h op allocated s' → IsBuilt (op ∷ h) s'
    placed dense p = record {
      graph = subst (IsGraphOf (op ∷ h)) (sym p.wiring) (next-IsGraphOf h op s.all inv.graph);
      tracks = p.tracking;
      accepted = (dense, p.known, inv.accepted);
    }

-- The history after the loop: the batch is passed from left to right.
abbrev pub pass : List Operation → History → History
pass [] h = h
pass (op ∷ batch) h = pass batch (op ∷ h)

pub build_loop-IsBuilt :
    (batch : List Operation) (h : History) (s : BuildState) {s' : BuildState}
    → IsBuilt h s
    → build_loop (length h) batch s ≡ ok s'
    → IsBuilt (pass batch h) s'
unfolding build_loop
build_loop-IsBuilt [] h s inv r = subst (IsBuilt h) (ok_injective r) inv
build_loop-IsBuilt (op ∷ batch) h s inv r =
    let (t, stepped, looped) =
      >>=-eq-ok (build_step (length h) op s) (build_loop (suc (length h)) batch) r in
    build_loop-IsBuilt batch (op ∷ h) t (build_step-IsBuilt h op s inv stepped) looped

pub build_start-IsBuilt : IsBuilt [] build_start
unfolding op_at edge wired_of last_write_in reads_in
build_start-IsBuilt = record {
  graph = record { size = refl; labels = λ a. refl; edges = λ a b. refl; degrees = λ b. refl };
  tracks = record { last_writes = λ k. refl; reads = λ k. refl };
  accepted = tt;
}

-- ===== src/WorkerPool/Run/Released.antt =====
-- types.go: Release of a node, with no other worker in between.
use khaos.Prelude.{
  ℕ, zero, suc, ◌-◌, ◌^◌, ◌≤◌, ◌<◌, ◌≡◌, refl, ◌∙◌, List, [], ◌∷◌, none, some, true, false, ◌==◌,
  ltb, ◌&&◌, if◌then◌else◌, to_nat, length, get_elem?, count, arith, Bool-cases, Option-cases, inl,
  inr,
}
use khaos.Types.{
  Graph, decrement, drop_edge, release_loop, close_done, release, dependents_of, in_degree_of,
}
use khaos.WorkerPool.Schedule.{operation_of}
use khaos.WorkerPool.Run.Heap.{
  SameEdges, drop_edge-SameEdges, in_degree_of-drop_edge, done_of-drop_edge, operation_of-drop_edge,
  done_of, close_done-Closed,
}

-- The in-degree of every node is at least the number of times that it is in the list.
abbrev pub Covers : List ℕ → Graph → Type 0
Covers deps g = (d : ℕ) → (count d deps ≤ in_degree_of g d) × (in_degree_of g d < 2 ^ 64)

-- What the loop has done.
record Dropped (deps : List ℕ) (g g' : Graph) (runnable' : List ℕ) : Type 0 where
  edges : SameEdges g g'
  degrees : (d : ℕ) → in_degree_of g' d ≡ in_degree_of g d - count d deps
  operations : (d : ℕ) → operation_of g' d ≡ operation_of g d
  last_edges :
      (d : ℕ)
      → count d runnable' ≡ to_nat (ltb 0 (count d deps) && (in_degree_of g d == count d deps))

in_range : (g : Graph) (d : ℕ) → 0 < in_degree_of g d → d < length g
in_range [] d some_edge = ground arith
in_range (node ∷ g) zero some_edge = omega arith
in_range (node ∷ g) (suc d) some_edge = let lt = in_range g d some_edge in omega arith

decrement_lem : (x : ℕ) → 0 < x → x < 2 ^ 64 → decrement x ≡ x - 1
decrement_lem x some_edge small = omega arith

-- The in-degrees after one round.
drop_edge_lem :
    (dep : ℕ) (deps : List ℕ) (g : Graph)
    → Covers (dep ∷ deps) g
    → (d : ℕ) → in_degree_of (drop_edge dep g) d ≡ in_degree_of g d - to_nat (d == dep)
drop_edge_lem dep deps g covers d =
    let (some_edge, small) = covers dep in
    let pos : 0 < in_degree_of g dep = ground arith in
    let now = in_degree_of-drop_edge dep g d (in_range g dep pos) in
    elim (Bool-cases (dep == d)) [
      | inl e ↦
          let (enough, small') = covers d in
          let pos' : 0 < in_degree_of g d = ground (arith, e) in
          ground (arith, e, now, decrement_lem (in_degree_of g d) pos' small')
      | inr e ↦ ground (arith, e, now)
    ]

drop_edge-Covers :
    (dep : ℕ) (deps : List ℕ) (g : Graph) → Covers (dep ∷ deps) g → Covers deps (drop_edge dep g)
drop_edge-Covers dep deps g covers d =
    let (enough, small) = covers d in
    let now = drop_edge_lem dep deps g covers d in (omega arith, omega arith)

release_loop-Dropped :
    (deps : List ℕ) (g : Graph)
    → Covers deps g
    → Dropped deps g (release_loop deps g).0 (release_loop deps g).1
unfolding release_loop
release_loop-Dropped [] g covers = record {
  edges = record { size = refl; deps = λ a. refl };
  degrees = λ d. omega arith;
  operations = λ d. refl;
  last_edges = λ d. ground arith;
}
release_loop-Dropped (dep ∷ deps) g covers =
    let now = drop_edge_lem dep deps g covers in
    let rest = release_loop-Dropped deps (drop_edge dep g) (drop_edge-Covers dep deps g covers) in
    let one = drop_edge-SameEdges dep g in
    record {
      edges = record {
        size = rest.edges.size ∙ one.size;
        deps = λ a. rest.edges.deps a ∙ one.deps a;
      };
      degrees = λ d. omega (arith, rest.degrees d, now d);
      operations = λ d. rest.operations d ∙ operation_of-drop_edge dep g d;
      last_edges =
          λ d. let (enough, small) = covers d in ground (arith, rest.last_edges d, now d, now dep);
    }

done_of-release_loop :
    (deps : List ℕ) (g : Graph) (d : ℕ) → done_of (release_loop deps g).0 d ≡ done_of g d
unfolding release_loop
done_of-release_loop [] g d = refl
done_of-release_loop (dep ∷ deps) g d =
    done_of-release_loop deps (drop_edge dep g) d ∙ done_of-drop_edge dep g d

close_done-done : (n : ℕ) (g : Graph) → done_of g n ≡ true → close_done n g ≡ none
unfolding close_done
close_done-done n g shut = elim (Option-cases (get_elem? g n)) [
  | inl e ↦ ground (arith, e)
  | inr (node, e) ↦ ground (arith, e)
]

release-done : (n : ℕ) (g : Graph) → done_of g n ≡ true → release n g ≡ none
unfolding release
release-done n g shut =
    let after = done_of-release_loop (dependents_of g n) g n ∙ shut in
    rw (close_done-done n (release_loop (dependents_of g n) g).0 after, release) refl

-- A node is in the graph and its channel is open; the in-degree of every node is at least the number
-- of edges to it from that node, and below 2^64. Then Release, without another worker in between,
-- takes off each in-degree the number of those edges, closes the channel of the node alone, and
-- returns exactly the nodes all of whose edges these were, each once; no edge or operation changes.
-- A second Release of the node panics.
pub release_lem :
    (n : ℕ) (g : Graph)
    → n < length g
    → done_of g n ≡ false
    → Covers (dependents_of g n) g
    → (g' : Graph) × (runnable' : List ℕ) × (release n g ≡ some (g', runnable'))
      × ((d : ℕ) → in_degree_of g' d ≡ in_degree_of g d - count d (dependents_of g n))
      × ((d : ℕ)
          → count d runnable'
            ≡ to_nat (
                ltb 0 (count d (dependents_of g n))
                && (in_degree_of g d == count d (dependents_of g n))))
      × ((d : ℕ) → done_of g' d ≡ (if n == d then true else done_of g d))
      × ((d : ℕ) → dependents_of g' d ≡ dependents_of g d)
      × ((d : ℕ) → operation_of g' d ≡ operation_of g d)
      × (release n g' ≡ none)
unfolding release
release_lem n g lt open_n covers =
    let deps = dependents_of g n in
    let loop = release_loop-Dropped deps g covers in
    let g1 = (release_loop deps g).0 in
    let (g', shut, closed) =
      close_done-Closed n g1 (omega (arith, loop.edges.size))
        (done_of-release_loop deps g n ∙ open_n) in
    (
      g',
      (release_loop deps g).1,
      rw (shut, release) refl,
      λ d. closed.degrees d ∙ loop.degrees d,
      loop.last_edges,
      λ d. ground (arith, closed.dones d, done_of-release_loop deps g d),
      λ d. closed.edges.deps d ∙ loop.edges.deps d,
      λ d. closed.operations d ∙ loop.operations d,
      release-done n g' (ground (arith, closed.dones n)),
    )

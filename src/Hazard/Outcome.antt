-- ===== src/Hazard/Outcome.antt =====
-- The graph that Build returns, as its callers see it.
use khaos.Prelude.{ℕ, ◌^◌, ◌<◌, ◌≡◌, List, length, count, get_elem?, sum_below}
use mathlib.Core.Option
use khaos.Result.{ok}
use khaos.Types.{Operation, Graph, label_of, dependents_of, in_degree_of}
use khaos.Hazard.{build}
use khaos.Hazard.Invariant.{new_label}
use khaos.Hazard.Spec.{Hazard}
use khaos.Hazard.Order.{Conflict, Waits, Conflict-Waits}
use khaos.Hazard.Correct.{build-Built, Built-nodes, Built-edges, Built-in_degree, Built-runnable}

-- The graph lists j once among the dependents of i.
abbrev pub HasEdge : Graph → ℕ → ℕ → Type 0
HasEdge g i j = count j (dependents_of g i) ≡ 1

Waits-map :
    {R S : ℕ → ℕ → Type 0} {i j : ℕ} → ((a b : ℕ) → R a b → S a b) → Waits R i j → Waits S i j
Waits-map f (Waits.direct r) = Waits.direct (f _ _ r)
Waits-map f (Waits.through w r) = Waits.through (Waits-map f w) (f _ _ r)

-- When Build returns a graph, node i lists node j among its dependents exactly once if there is a
-- hazard from i to j (same key, at least one of the two writes or deletes, i before j, and no write
-- or delete of the key between them), and otherwise not at all.
pub build-edges :
    (batch : List Operation) (g : Graph) (runnable : List ℕ)
    → build batch ≡ ok (g, runnable)
    → (i j : ℕ)
    → (Hazard batch i j → HasEdge g i j) × (¬ Hazard batch i j → count j (dependents_of g i) ≡ 0)
build-edges batch g runnable e i j = Built-edges batch (build-Built batch e) i j

-- When Build returns a graph, any two operations of the batch on one key of which at least one
-- writes or deletes are joined by a chain of dependency edges from the earlier to the later.
pub build-orders_conflicts :
    (batch : List Operation) (g : Graph) (runnable : List ℕ)
    → build batch ≡ ok (g, runnable)
    → (i j : ℕ) → Conflict (get_elem? batch) i j
    → Waits (HasEdge g) i j
build-orders_conflicts batch g runnable e i j c =
    Waits-map (λ a b. (Built-edges batch (build-Built batch e) a b).0)
      (Conflict-Waits (get_elem? batch) i j c)

-- When Build returns a graph for fewer than 2^63 operations, the in-degree of each node is the
-- number of edges into it.
pub build-in_degree :
    (batch : List Operation) (g : Graph) (runnable : List ℕ)
    → build batch ≡ ok (g, runnable)
    → length batch < 2 ^ 63
    → (j : ℕ) → in_degree_of g j ≡ sum_below (length batch) (λ i. count j (dependents_of g i))
build-in_degree batch g runnable e small j = Built-in_degree batch (build-Built batch e) j small

-- When Build returns for fewer than 2^63 operations, the runnable list holds each position of the
-- batch to which no hazard points, once, and no other number.
pub build-runnable :
    (batch : List Operation) (g : Graph) (runnable : List ℕ)
    → build batch ≡ ok (g, runnable)
    → length batch < 2 ^ 63
    → (i : ℕ)
    → ((i < length batch) × ((a : ℕ) → ¬ Hazard batch a i) → count i runnable ≡ 1)
      × (¬ ((i < length batch) × ((a : ℕ) → ¬ Hazard batch a i)) → count i runnable ≡ 0)
build-runnable batch g runnable e small i = Built-runnable batch (build-Built batch e) i small

-- When Build returns a graph, it has one node for each operation, in order, which holds that
-- operation, is not done and is pending.
pub build-nodes :
    (batch : List Operation) (g : Graph) (runnable : List ℕ)
    → build batch ≡ ok (g, runnable)
    → (length g ≡ length batch)
      × ((i : ℕ) → label_of g i ≡ Option.map new_label (get_elem? batch i))
build-nodes batch g runnable e = Built-nodes batch (build-Built batch e)

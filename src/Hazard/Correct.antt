-- ===== src/Hazard/Correct.antt =====
-- What a call of Build that succeeds returns.
use khaos.Prelude.{
  ℕ, suc, ◌+◌, ◌^◌, ◌<◌, ◌≡◌, sym, ap, ◌∙◌, List, [], ◌∷◌, length, count, to_nat, get_elem?,
  All-of-count, sum_below, sum_below-le_one, sum_below-congr, zero-of-sum_below, sum_below-eq-zero,
  length-eq-sum_below, ◌==◌, ltb, leb, ◌&&◌, ◌-◌, if◌then◌else◌, subst, arith, Bool-cases, inl, inr,
}
use mathlib.Core.Option
use native.Mathlib.Decide.{dec_lt, ℕ_discrete}
use khaos.Result.{ok, >>=-eq-ok, ok_injective}
use khaos.Types.{Operation, Graph, label_of, dependents_of, in_degree_of}
use khaos.Hazard.{build_loop, build_start, collect_runnable, build}
use khaos.Hazard.History.{History, edge, edge_bounds, wired_of, count-wired_of}
use khaos.Hazard.Invariant.{
  new_label, IsGraphOf, IsAccepted, pass, build_loop-IsBuilt, build_start-IsBuilt,
}
use khaos.Hazard.Spec.{Hazard, edge_iff-Hazard, op_at-pass}

pub record Built (batch : List Operation) (g : Graph) (runnable : List ℕ) : Type 0 where
  pub graph : IsGraphOf (pass batch []) g
  pub accepted : IsAccepted (pass batch [])
  pub collected : collect_runnable 0 g ≡ runnable

pub build-Built :
    (batch : List Operation) {g : Graph} {runnable : List ℕ}
    → build batch ≡ ok (g, runnable)
    → Built batch g runnable
unfolding build
build-Built batch {g} {runnable} r =
    let (s, looped, returned) =
      >>=-eq-ok (build_loop 0 batch build_start) (λ s. ok (s.all, collect_runnable 0 s.all)) r in
    let built = build_loop-IsBuilt batch [] build_start build_start-IsBuilt looped in
    let all : s.all ≡ g = ap (λ p. p.0) (ok_injective returned) in
    let collected : collect_runnable 0 s.all ≡ runnable = ap (λ p. p.1) (ok_injective returned) in
    record {
      graph = subst (IsGraphOf (pass batch [])) all built.graph;
      accepted = built.accepted;
      collected = rw (← all) collected;
    }

length-pass :
    (batch : List Operation) (h : History) → length (pass batch h) ≡ length batch + length h
length-pass [] h = omega arith
length-pass (op ∷ batch) h = omega (arith, length-pass batch (op ∷ h))

pub count-collect_runnable :
    (k : ℕ) (g : Graph) (i : ℕ)
    → count i (collect_runnable k g)
      ≡ (if leb k i && ltb i (k + length g) then to_nat (in_degree_of g (i - k) == 0) else 0)
unfolding collect_runnable
count-collect_runnable k [] i = ground arith
count-collect_runnable k (node ∷ g) i = elim (ℕ_discrete i k) [
  | yes first ↦
      let e : i - k ≡ 0 = omega arith in rw e (ground (arith, count-collect_runnable (suc k) g i))
  | no later ↦ elim (dec_lt i k) [
    | yes below ↦ ground (arith, count-collect_runnable (suc k) g i)
    | no above ↦
        let e : i - k ≡ suc (i - suc k) = omega arith in
        rw e (ground (arith, count-collect_runnable (suc k) g i))
  ]
]

module _ (batch : List Operation) {g : Graph} {runnable : List ℕ} (b : Built batch g runnable) where
  -- One node for each operation, in order, with no label set yet.
  pub Built-nodes :
      (length g ≡ length batch)
      × ((i : ℕ) → label_of g i ≡ Option.map new_label (get_elem? batch i))
  Built-nodes = (
    omega (arith, b.graph.size, length-pass batch []),
    λ i. rw (← op_at-pass batch i) (b.graph.labels i),
  )

  pub Built-edges :
      (i j : ℕ)
      → (Hazard batch i j → count j (dependents_of g i) ≡ 1)
        × (¬ Hazard batch i j → count j (dependents_of g i) ≡ 0)
  Built-edges i j = (
    λ hz. ground (arith, b.graph.edges i j, (edge_iff-Hazard batch i j).1 hz),
    λ free. elim (Bool-cases (edge (pass batch []) i j)) [
      | inl e ↦ absurd (free ((edge_iff-Hazard batch i j).0 e))
      | inr e ↦ rw (b.graph.edges i j) (rw e)
    ],
  )

  length-wired_of :
      (j : ℕ)
      → length (wired_of (pass batch []) j)
        ≡ sum_below (length batch) (λ i. to_nat (edge (pass batch []) i j))
  length-wired_of j =
      length-eq-sum_below (length batch) (wired_of (pass batch []) j) (
        All-of-count (λ a. a < length batch) (wired_of (pass batch []) j)
          λ a m. ground (
            arith,
            count-wired_of (pass batch []) a j,
            edge_bounds (pass batch []) a j,
            length-pass batch [],
          ))
      ∙ sum_below-congr (length batch) (λ i. count i (wired_of (pass batch []) j)) _
          (λ i. count-wired_of (pass batch []) i j)

  in_degree_of-eq-sum :
      (j : ℕ)
      → length batch < 2 ^ 63
      → in_degree_of g j ≡ sum_below (length batch) (λ i. to_nat (edge (pass batch []) i j))
  in_degree_of-eq-sum j small = omega (
    arith,
    b.graph.degrees j,
    length-wired_of j,
    sum_below-le_one (length batch) (λ i. to_nat (edge (pass batch []) i j)) (λ i. ground arith),
  )

  pub Built-in_degree :
      (j : ℕ)
      → length batch < 2 ^ 63
      → in_degree_of g j ≡ sum_below (length batch) (λ i. count j (dependents_of g i))
  Built-in_degree j small =
      in_degree_of-eq-sum j small
      ∙ sum_below-congr (length batch) (λ i. to_nat (edge (pass batch []) i j)) _
          (λ i. sym (b.graph.edges i j))

  abbrev IsReady : ℕ → Type 0
  IsReady i = (i < length batch) × ((a : ℕ) → ¬ Hazard batch a i)

  -- A node is collected, once, exactly if no hazard points to it.
  pub Built-runnable :
      (i : ℕ)
      → length batch < 2 ^ 63
      → (IsReady i → count i runnable ≡ 1) × (¬ IsReady i → count i runnable ≡ 0)
  Built-runnable i small = (
    λ (lt, free).
        let none_into : in_degree_of g i ≡ 0 =
          in_degree_of-eq-sum i small
          ∙ sum_below-eq-zero (length batch) (λ a. to_nat (edge (pass batch []) a i))
              (λ a _. no_edge a (free a)) in
        ground (arith, counted, size, none_into),
    λ blocked. elim (Bool-cases (ltb i (length batch) && in_degree_of g i == 0)) [
      | inl e ↦ absurd (blocked (ground arith, λ a hz. none_at a hz (ground arith) (ground arith)))
      | inr e ↦ ground (arith, counted, size)
    ],
  )
    where
      none_at : (a : ℕ) → Hazard batch a i → in_degree_of g i ≡ 0 → i < length batch → ⊥
      none_at a hz zero_in lt =
          let z =
            zero-of-sum_below (length batch) (λ a. to_nat (edge (pass batch []) a i)) a
              (sym (in_degree_of-eq-sum i small) ∙ zero_in) (omega (arith, hz.ordered)) in
          ground (arith, z, (edge_iff-Hazard batch a i).1 hz)

      size : length g ≡ length batch
      size = (Built-nodes).0

      counted :
          count i runnable
          ≡ (if leb 0 i && ltb i (0 + length g) then to_nat (in_degree_of g (i - 0) == 0) else 0)
      counted = rw (← b.collected) (count-collect_runnable 0 g i)

      no_edge : (a : ℕ) → ¬ Hazard batch a i → to_nat (edge (pass batch []) a i) ≡ 0
      no_edge a free = elim (Bool-cases (edge (pass batch []) a i)) [
        | inl e ↦ absurd (free ((edge_iff-Hazard batch a i).0 e))
        | inr e ↦ rw e
      ]

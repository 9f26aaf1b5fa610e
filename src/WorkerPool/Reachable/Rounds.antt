-- ===== src/WorkerPool/Reachable/Rounds.antt =====
-- What the rounds of reachableNodes keep, on any graph whose edges lead to its nodes.
use khaos.Prelude.{
  ℕ, zero, suc, ◌+◌, ◌≤◌, ◌<◌, ◌≡◌, refl, sym, ap, ◌∙◌, List, [], ◌∷◌, ◌++◌, Bool, true, false,
  ◌||◌, length, count, to_nat, ltb, All-of-count, sum_below-le_one, length-eq-sum_below,
  length-append, count-append, if◌then◌else◌, arith, Bool-cases, inl, inr,
}
use native.Mathlib.Decide.{ℕ_discrete}
use khaos.Types.{Graph, dependents_of}
use khaos.WorkerPool.Reachable.{Search, enqueue, enqueue_new, reach_loop}

visited-enqueue_new :
    (ns : List ℕ) (st : Search) (a : ℕ)
    → (enqueue_new ns st).visited a ≡ (st.visited a || ltb 0 (count a ns))
unfolding enqueue_new
visited-enqueue_new [] st a = ground arith
visited-enqueue_new (n ∷ ns) st a =
    visited-enqueue_new ns (if st.visited n then st else enqueue n st) a
    ∙ elim (Bool-cases (st.visited n)) [
      | inl seen ↦ rw seen (elim (ℕ_discrete n a) [
        | yes same ↦
            let seen_a : st.visited a ≡ true = ap st.visited (sym same) ∙ seen in rw seen_a refl
        | no other ↦ ground arith
      ])
      | inr new ↦ rw new (ground arith)
    ]

count-enqueue_new :
    (ns : List ℕ) (st : Search) (a : ℕ)
    → count a (enqueue_new ns st).queue + to_nat (st.visited a)
      ≡ count a st.queue + to_nat ((enqueue_new ns st).visited a)
unfolding enqueue_new
count-enqueue_new [] st a = refl
count-enqueue_new (n ∷ ns) st a = elim (Bool-cases (st.visited n)) [
  | inl seen ↦ rw (seen, enqueue_new) (count-enqueue_new ns st a)
  | inr new ↦
      rw (new, enqueue_new)
        (elim (ℕ_discrete n a) [
          | yes same ↦
              let new_a : st.visited a ≡ false = ap st.visited (sym same) ∙ new in
              ground
                (arith, count-enqueue_new ns (enqueue n st) a, count-append a st.queue (n ∷ []))
          | no other ↦
              ground
                (arith, count-enqueue_new ns (enqueue n st) a, count-append a st.queue (n ∷ []))
        ])
]

module _ (g : Graph) (size : ℕ)
    (bounded : (a b : ℕ) → 0 < count b (dependents_of g a) → b < size) where
  pub record Found (roots order : List ℕ) (st : Search) : Type 0 where
    pub once : (a : ℕ) → count a order + count a st.queue ≡ to_nat (st.visited a)
    pub inside : (a : ℕ) → st.visited a ≡ true → a < size
    pub followed :
        (a b : ℕ) → 0 < count a order → 0 < count b (dependents_of g a) → st.visited b ≡ true
    pub started : (a : ℕ) → 0 < count a roots → st.visited a ≡ true

  length-Found :
      (roots order : List ℕ) (st : Search)
      → Found roots order st
      → length order + length st.queue ≤ size
  length-Found roots order st f =
      let all = order ++ st.queue in
      let e = length-eq-sum_below size all (
        All-of-count (λ a. a < size) all
          (λ a m. f.inside a (ground (arith, count-append a order st.queue, f.once a)))) in
      omega (
        arith,
        e,
        length-append order st.queue,
        sum_below-le_one size (λ a. count a all)
            (λ a. ground (arith, count-append a order st.queue, f.once a)),
      )

  step-Found :
      (roots order rest : List ℕ) (n : ℕ) (visited : ℕ → Bool)
      → Found roots order (record { visited = visited; queue = n ∷ rest })
      → Found roots
          (order ++ n ∷ [])
          (enqueue_new (dependents_of g n) (record { visited = visited; queue = rest }))
  step-Found roots order rest n visited f =
      let st : Search = record { visited = visited; queue = rest } in
      let ns = dependents_of g n in
      record {
        once =
            λ a. ground (arith, f.once a, count-append a order (n ∷ []), count-enqueue_new ns st a);
        inside = λ a v. ground (arith, f.inside a, bounded n a, visited-enqueue_new ns st a);
        followed = λ a b h d. elim (ℕ_discrete a n) [
          | yes same ↦
              let d' : 0 < count b ns = rw (← same) d in ground (arith, visited-enqueue_new ns st b)
          | no other ↦
              ground
                (arith, f.followed a b, count-append a order (n ∷ []), visited-enqueue_new ns st b)
        ];
        started = λ a r. ground (arith, f.started a, visited-enqueue_new ns st a);
      }

  pub reach_loop-Found :
      (fuel : ℕ) (roots order : List ℕ) (visited : ℕ → Bool) (queue : List ℕ)
      → Found roots order (record { visited = visited; queue = queue })
      → size ≤ fuel + length order
      → (last : ℕ → Bool) × Found roots
          (reach_loop g fuel order (record { visited = visited; queue = queue }))
          (record { visited = last; queue = [] })
  unfolding reach_loop
  reach_loop-Found zero roots order visited [] f enough = (visited, f)
  reach_loop-Found zero roots order visited (n ∷ rest) f enough = absurd (
      let le = length-Found roots order (record { visited = visited; queue = n ∷ rest }) f in
      omega arith)
  reach_loop-Found (suc fuel) roots order visited [] f enough = (visited, f)
  reach_loop-Found (suc fuel) roots order visited (n ∷ rest) f enough =
      reach_loop-Found fuel roots (order ++ n ∷ []) _ _ (step-Found roots order rest n visited f)
        (omega (arith, length-append order (n ∷ [])))

pub start-Found :
    (g : Graph) (size : ℕ) (bounded : (a b : ℕ) → 0 < count b (dependents_of g a) → b < size)
    (roots : List ℕ)
    → ((a : ℕ) → 0 < count a roots → a < size)
    → Found g size bounded roots []
        (enqueue_new roots (record { visited = λ n. false; queue = [] }))
start-Found g size bounded roots inside =
    let st : Search = record { visited = λ n. false; queue = [] } in
    record {
      once = λ a. ground (arith, count-enqueue_new roots st a);
      inside = λ a v. ground (arith, inside a, visited-enqueue_new roots st a);
      followed = λ a b h d. absurd (omega arith);
      started = λ a r. ground (arith, visited-enqueue_new roots st a);
    }

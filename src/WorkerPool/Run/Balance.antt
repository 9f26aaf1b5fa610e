-- ===== src/WorkerPool/Run/Balance.antt =====
-- The in-degree of a node is the number of edges into it that are not released, and a node waits
-- exactly while there is one.
use khaos.Prelude.{
  ℕ, ◌+◌, ◌^◌, ◌<◌, ◌≡◌, sym, ap, ◌∙◌, List, ◌∷◌, true, false, length, count, to_nat, set_at,
  sum_below, sum_below-congr, sum_below-drop, ltb, ◌==◌, arith,
}
use native.Mathlib.Decide.{ℕ_discrete, dec_lt}
use khaos.Types.{Graph, in_degree_of, drop_edge}
use khaos.WorkerPool.Run.{Pc, releasing}
use khaos.WorkerPool.Run.Heap.{in_degree_of-drop_edge}
use khaos.WorkerPool.Run.Places.{
  Place, waits, ready, held, holds, edges_left, is_waits, held_of, waits_of, Holders,
}

-- The edges into j that are not released.
abbrev pub load : ℕ → (ℕ → List ℕ) → (ℕ → Place) → (ℕ → Pc) → ℕ → ℕ
load size deps place pcs j = sum_below size (λ i. count j (edges_left (deps i) pcs (place i)))

pub record Balanced (size : ℕ) (deps : ℕ → List ℕ) (g : Graph) (place : ℕ → Place) (pcs : ℕ → Pc)
    : Type 0 where
  pub degree : (j : ℕ) → j < size → in_degree_of g j ≡ load size deps place pcs j
  pub small : (j : ℕ) → load size deps place pcs j < 2 ^ 64
  pub blocked : (j : ℕ) → is_waits (place j) ≡ ltb 0 (load size deps place pcs j)

module _ {size : ℕ} {deps : ℕ → List ℕ} {g : Graph} {place : ℕ → Place} {pcs : ℕ → Pc}
    (b : Balanced size deps g place pcs) where
  -- What changes no edge and lets no node run keeps the balance.
  pub same-Balanced :
      (g' : Graph) (place' : ℕ → Place) (pcs' : ℕ → Pc)
      → ((j : ℕ) → in_degree_of g' j ≡ in_degree_of g j)
      → ((i : ℕ) → edges_left (deps i) pcs' (place' i) ≡ edges_left (deps i) pcs (place i))
      → ((j : ℕ) → is_waits (place' j) ≡ is_waits (place j))
      → Balanced size deps g' place' pcs'
  same-Balanced g' place' pcs' degrees edges kept =
      let same : (j : ℕ) → load size deps place' pcs' j ≡ load size deps place pcs j =
        λ j. sum_below-congr size _ _ (λ i. ap (count j) (edges i)) in
      record {
        degree = λ j lt. degrees j ∙ b.degree j lt ∙ sym (same j);
        small = λ j. rw (same j) (b.small j);
        blocked = λ j. kept j ∙ b.blocked j ∙ ap (ltb 0) (sym (same j));
      }

  module _ {workers : ℕ} {queue : List ℕ} (h : Holders workers size place pcs queue) (w n d : ℕ)
      (rest newly newly' : List ℕ) (at : pcs w ≡ releasing n (d ∷ rest) newly) where
    abbrev pcs' : ℕ → Pc
    pcs' = set_at w (releasing n rest newly') pcs

    in_hand : place n ≡ held w
    in_hand = held_of w (place n) (ground (arith, h.hands w n, ap (holds n) at))

    n-lt-size : n < size
    n-lt-size = elim (dec_lt n size) [
      | yes lt ↦ lt
      | no ge ↦ let out = h.outside n (omega arith) in absurd (ground (arith, in_hand))
    ]

    load-drop : (j : ℕ) → load size deps place pcs j ≡ load size deps place pcs' j + to_nat (j == d)
    load-drop j =
        sum_below-drop size n (to_nat (j == d)) _ _ n-lt-size (rw in_hand (rw at (ground arith)))
          (λ i other. ap (count j) (elsewhere i other))
      where
        elsewhere :
            (i : ℕ)
            → (n == i) ≡ false
            → edges_left (deps i) pcs' (place i) ≡ edges_left (deps i) pcs (place i)
        elsewhere i other = ground (arith, h.hands w i, ap (holds i) at)

    load-pos : 0 < load size deps place pcs d
    load-pos = ground (arith, load-drop d)

    d-lt-size : d < size
    d-lt-size = elim (dec_lt d size) [
      | yes lt ↦ lt
      | no ge ↦
          let out = h.outside d (omega arith) in absurd (ground (arith, b.blocked d, load-pos))
    ]

    pub d-waits : is_waits (place d) ≡ true
    d-waits = ground (arith, b.blocked d, load-pos)

    degree-drop :
        length g ≡ size
        → (j : ℕ) → j < size
        → in_degree_of (drop_edge d g) j ≡ load size deps place pcs' j
    degree-drop whole j lt = ground (
      arith,
      in_degree_of-drop_edge d g j (rw whole d-lt-size),
      b.degree j lt,
      load-drop j,
      b.small j,
    )

    pub keep-Balanced :
        length g ≡ size
        → (in_degree_of (drop_edge d g) d == 0) ≡ false
        → Balanced size deps (drop_edge d g) place pcs'
    keep-Balanced whole more = record {
      degree = degree-drop whole;
      small = λ j. omega (arith, load-drop j, b.small j);
      blocked = λ j. elim (ℕ_discrete j d) [
        | yes same ↦
            let here : 0 < load size deps place pcs' d =
              ground (arith, degree-drop whole d d-lt-size) in
            rw same (d-waits ∙ ground arith)
        | no other ↦ ground (arith, load-drop j, b.blocked j)
      ];
    }

    load-ready :
        (j : ℕ) → load size deps (set_at d (ready w) place) pcs' j ≡ load size deps place pcs' j
    load-ready j = sum_below-congr size _ _ (λ i. ap (count j) (full i))
      where
        full :
            (i : ℕ)
            → edges_left (deps i) pcs' (set_at d (ready w) place i)
              ≡ edges_left (deps i) pcs' (place i)
        full i = elim (ℕ_discrete d i) [
          | yes same ↦
              let wait : place i ≡ waits = ap place (sym same) ∙ waits_of (place d) d-waits in
              rw wait (ground arith)
          | no other ↦ ground arith
        ]

    pub ready-Balanced :
        length g ≡ size
        → (in_degree_of (drop_edge d g) d == 0) ≡ true
        → Balanced size deps (drop_edge d g) (set_at d (ready w) place) pcs'
    ready-Balanced whole last = record {
      degree = λ j lt. degree-drop whole j lt ∙ sym (load-ready j);
      small = λ j. omega (arith, load-ready j, load-drop j, b.small j);
      blocked = λ j. rw (load-ready j) (elim (ℕ_discrete d j) [
        | yes same ↦
            let none_left : load size deps place pcs' j ≡ 0 =
              rw (← same) (ground (arith, degree-drop whole d d-lt-size)) in
            ground arith
        | no other ↦ ground (arith, load-drop j, b.blocked j)
      ]);
    }

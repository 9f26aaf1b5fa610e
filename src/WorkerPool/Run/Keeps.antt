-- ===== src/WorkerPool/Run/Keeps.antt =====
-- Every step of every worker keeps the invariant, and none panics.
use khaos.Prelude.{
  ℕ, ◌≤◌, ◌<◌, ◌≡◌, refl, sym, ap, subst, ◌∙◌, List, [], ◌∷◌, ◌++◌, Option, none, some, Bool, true,
  false, length, count, to_nat, All-of-count, length-eq-sum_below, sum_below-le_one,
  zero-of-sum_below, get_elem?, get_elem?-some, set_at, ltb, ◌==◌, if◌then◌else◌, arith, Bool-cases,
  inl, inr,
}
use native.Mathlib.Decide.{dec_lt}
use khaos.Storage.{Context, StorageEngine}
use khaos.Types.{Graph, decrement, dependents_of, in_degree_of, drop_edge, close_done}
use khaos.WorkerPool.Run.{
  Pc, waiting, executing, releasing, committing, sending, closing_queue, exited, Shared, Choice,
  Outcome, moved, blocked, panicked, advance, select, receive, commit_node,
}
use khaos.WorkerPool.Run.Heap.{close_done-Closed, execute_node-Ran}
use khaos.WorkerPool.Run.Measure.{
  Moves, pc_weight, stay-Moves, execute-Moves, receive-Moves, ready-Moves, send-Moves, finish-Moves,
}
use khaos.WorkerPool.Run.Balance.{d-waits}
use khaos.WorkerPool.Run.Places.{Place, held, holds, listed_at, is_ready, unfinished}
use khaos.WorkerPool.Run.Closing.{go-Closing, close-Closing, is_closing}
use khaos.WorkerPool.Run.Invariant.{Rule, Inv}
use khaos.WorkerPool.Run.QueueSteps.{leave-Inv, receive-Inv, send-Inv, finish-Inv}
use khaos.WorkerPool.Run.NodeSteps.{execute-Inv, in_hand, held-lt-size, graph-size}
use khaos.WorkerPool.Run.ReleaseSteps.{keep-Inv, ready-Inv, still_open, close-Inv}
use khaos.WorkerPool.Run.CommitStep.{commit-Inv}

module _ {engine : StorageEngine} {g0 : Graph} {size : ℕ} (whole : length g0 ≡ size)
    (rule : Rule engine g0 size) {workers : ℕ} {place : ℕ → Place} {sh : Shared engine}
    {pcs : ℕ → Pc} (inv : Inv rule workers place sh pcs) (w : ℕ) (lt : w < workers) where
  -- What the outcome of a step from p leaves.
  abbrev pub Keeps : Pc → Outcome engine → Type 0
  Keeps p (moved sh' p') =
      (place' : ℕ → Place) × Inv rule workers place' sh' (set_at w p' pcs)
      × Moves workers size (dependents_of g0) place place' pcs (set_at w p' pcs) p
  Keeps p blocked = Unit
  Keeps p panicked = ⊥

  abbrev edges_of : ℕ → List ℕ
  edges_of = dependents_of g0

  -- The queue is open while a worker has a node in its hands.
  pub open_while_held : (n : ℕ) (p : Pc) → pcs w ≡ p → holds n p ≡ true → sh.closed ≡ false
  open_while_held n p at mine = elim (Bool-cases sh.closed) [
    | inr still ↦ still
    | inl shut ↦
        let none_left = sym inv.closing.counted ∙ inv.closing.shut_empty shut in
        let gone : to_nat (unfinished (place n)) ≡ 0 =
          zero-of-sum_below size (λ j. to_nat (unfinished (place j))) n none_left
            (held-lt-size whole rule inv w lt n p at mine) in
        let here_n : place n ≡ held w = in_hand whole rule inv w lt n p at mine in
        absurd (ground arith)
  ]

  -- There is room in the queue for a node that is to be sent.
  pub room : (n m : ℕ) (rest : List ℕ) → pcs w ≡ sending n (m ∷ rest) → length sh.queue < size
  room n m rest at =
      let listed : is_ready w (place m) ≡ true =
        ground (arith, inv.holders.lists w m, ap listed_at at) in
      let inside : (a : ℕ) → 0 < count a (m ∷ sh.queue) → a < size = λ a there.
        elim (dec_lt a size) [
          | yes below ↦ below
          | no out ↦
              let f = inv.holders.outside a (omega arith) in
              absurd (ground (arith, inv.holders.line a, listed))
        ] in
      omega (
        arith,
        length-eq-sum_below size (m ∷ sh.queue)
            (All-of-count (λ a. a < size) (m ∷ sh.queue) inside),
        sum_below-le_one size (λ a. count a (m ∷ sh.queue))
            (λ a. ground (arith, inv.holders.line a, listed)),
      )

  if_Keeps :
      (p : Pc) (b : Bool) (x y : Outcome engine)
      → (b ≡ true → Keeps p x)
      → (b ≡ false → Keeps p y)
      → Keeps p (if b then x else y)
  if_Keeps p true x y t f = t refl
  if_Keeps p false x y t f = f refl

  some-Keeps :
      {A : Type 0} (p : Pc) (o : Option A) (a : A) (f : A → Outcome engine)
      → o ≡ some a
      → Keeps p (f a)
      → Keeps p (elim o [ none ↦ panicked | some x ↦ f x ])
  some-Keeps p none a f e k = cc
  some-Keeps p (some x) a f e k =
      let same : a ≡ x = ground (arith, e) in subst (λ y. Keeps p (f y)) same k

  -- An exit, where it is allowed.
  exit-Keeps :
      pcs w ≡ waiting → (sh.ctx ≡ none → sh.closed ≡ true) → Keeps waiting (moved sh exited)
  exit-Keeps at allowed = (
    place,
    leave-Inv rule inv w lt waiting exited at (λ j. refl) (λ j. refl) refl refl
        (λ full. refl, refl, refl, refl) sh.closed
        (go-Closing inv.closing w lt waiting exited place at refl refl (λ gone. allowed)
          (λ j. refl)),
    stay-Moves edges_of inv.holders w lt waiting exited 0 at refl (λ i. refl) refl,
  )

  leave-Keeps :
      (ctx : Context)
      → sh.ctx ≡ ctx
      → pcs w ≡ waiting
      → Keeps waiting (elim ctx [ none ↦ blocked | some e ↦ moved sh exited ])
  leave-Keeps none e at = tt
  leave-Keeps (some c) e at = exit-Keeps at (λ running. let impossible = sym running ∙ e in cc)

  receive-Keeps :
      (queue : List ℕ)
      → sh.queue ≡ queue
      → pcs w ≡ waiting
      → Keeps waiting (receive engine queue sh)
  unfolding receive
  receive-Keeps (n ∷ rest) e at = (
    _,
    receive-Inv rule inv w lt n rest at e,
    receive-Moves edges_of inv.holders w lt n rest at e,
  )
  receive-Keeps [] e at =
      if_Keeps waiting sh.closed (moved sh exited) blocked (λ shut. exit-Keeps at (λ running. shut))
        (λ still. tt)

  execute-Keeps :
      (n : ℕ) (choice : Choice)
      → pcs w ≡ executing n
      → Keeps (executing n) (advance engine size choice sh (executing n))
  unfolding advance
  execute-Keeps n choice at =
      let run = execute_node-Ran engine sh.ctx n sh.graph sh.store in
      (
        place,
        execute-Inv whole rule inv w lt n at,
        execute-Moves edges_of inv.holders w lt n _ at
            (ap length (run.edges.deps n ∙ inv.edges.deps n)),
      )

  close_done-Keeps :
      (n : ℕ) (newly : List ℕ)
      → pcs w ≡ releasing n [] newly
      → Keeps (releasing n [] newly) (elim (close_done n sh.graph) [
        | none ↦ panicked
        | some graph' ↦ moved (record sh { graph = graph' }) (committing n newly)
      ])
  close_done-Keeps n newly at =
      let below = held-lt-size whole rule inv w lt n _ at (ground arith) in
      let (g', e, c) =
        close_done-Closed n sh.graph (rw (graph-size whole rule inv) below)
          (still_open whole rule inv w lt n newly at) in
      some-Keeps (releasing n [] newly) (close_done n sh.graph) g' _ e (
        place,
        close-Inv whole rule inv w lt n newly g' at c,
        stay-Moves edges_of inv.holders w lt (releasing n [] newly) (committing n newly) 0 at refl
            (λ i. refl) refl,
      )

  commit_node-Keeps :
      (choice : Choice) (n : ℕ) (newly : List ℕ)
      → pcs w ≡ committing n newly
      → Keeps (committing n newly) (commit_node engine choice n newly sh)
  unfolding commit_node
  commit_node-Keeps choice n newly at =
      let p = committing n newly in
      let below = held-lt-size whole rule inv w lt n _ at (ground arith) in
      let (node, found) = get_elem?-some sh.graph n (rw (graph-size whole rule inv) below) in
      let (rob', e, inv') = commit-Inv whole rule inv w lt n newly at node found choice in
      some-Keeps p (get_elem? sh.graph n) node _ found (
        some-Keeps p _ rob' _ e (
          place,
          inv',
          stay-Moves edges_of inv.holders w lt p (sending n newly) 0 at refl (λ i. refl) refl,
        ))

  drop-Keeps :
      (n d : ℕ) (rest newly : List ℕ) (b : Bool)
      → (in_degree_of (drop_edge d sh.graph) d == 0) ≡ b
      → pcs w ≡ releasing n (d ∷ rest) newly
      → Keeps (releasing n (d ∷ rest) newly) (
          moved
            (record sh { graph = drop_edge d sh.graph })
            (releasing n rest (if b then newly ++ d ∷ [] else newly)))
  drop-Keeps n d rest newly true e at = (
    _,
    ready-Inv whole rule inv w lt n d rest newly at e,
    ready-Moves edges_of inv.holders w lt n d rest newly at
        (d-waits inv.balanced inv.holders w n d rest newly newly at),
  )
  drop-Keeps n d rest newly false e at = (
    _,
    keep-Inv whole rule inv w lt n d rest newly at e,
    stay-Moves edges_of inv.holders w lt (releasing n (d ∷ rest) newly) (releasing n rest newly) 0
        at (omega arith) (λ i. refl) refl,
  )

  light : (b : Bool) → pc_weight edges_of (if b then closing_queue else waiting) ≤ 2
  light true = omega arith
  light false = omega arith

  -- The next step of worker w, wherever it stands.
  pub advance-Keeps :
      (choice : Choice) (p : Pc) → pcs w ≡ p → Keeps p (advance engine size choice sh p)
  unfolding advance select
  advance-Keeps choice waiting at =
      if_Keeps waiting choice.leave _ _ (λ leaving. leave-Keeps sh.ctx refl at)
        (λ staying. receive-Keeps sh.queue refl at)
  advance-Keeps choice (executing n) at = execute-Keeps n choice at
  advance-Keeps choice (releasing n (d ∷ rest) newly) at = drop-Keeps n d rest newly _ refl at
  advance-Keeps choice (releasing n [] newly) at = close_done-Keeps n newly at
  advance-Keeps choice (committing n newly) at = commit_node-Keeps choice n newly at
  advance-Keeps choice (sending n (m ∷ rest)) at =
      let p = sending n (m ∷ rest) in
      if_Keeps p sh.closed _ _
        (λ shut. let open_still = open_while_held n p at (ground arith) in cc)
        (λ still.
          if_Keeps p (ltb (length sh.queue) size) _ _
            (λ free. (
              _,
              send-Inv rule inv w lt n m rest at,
              send-Moves edges_of inv.holders w lt n m rest at,
            ))
            (λ full. tt))
  advance-Keeps choice (sending n []) at = (
    _,
    finish-Inv rule inv w lt n at,
    finish-Moves edges_of inv.holders w lt n _ at (light (decrement sh.remaining == 0)),
  )
  advance-Keeps choice closing_queue at =
      if_Keeps closing_queue sh.closed _ _
        (λ shut. let (empty, still) = inv.closing.closer w (ap is_closing at) in cc)
        (λ still. (
          place,
          leave-Inv rule inv w lt closing_queue waiting at (λ j. refl) (λ j. refl) refl refl
              (λ full. refl, refl, refl, refl) true (close-Closing inv.closing w lt at),
          stay-Moves edges_of inv.holders w lt closing_queue waiting 0 at refl (λ i. refl) refl,
        ))
  advance-Keeps choice exited at = tt

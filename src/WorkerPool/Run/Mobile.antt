-- ===== src/WorkerPool/Run/Mobile.antt =====
-- A worker that is neither at the select nor gone can take a step.
use khaos.Prelude.{
  ℕ, ◌<◌, ◌≡◌, refl, [], ◌∷◌, ◌++◌, Option, none, some, Bool, true, false, length, get_elem?, ltb,
  if◌then◌else◌, arith,
}
use khaos.Storage.{StorageEngine}
use khaos.Types.{Graph, close_done}
use khaos.Reorder.{commit}
use khaos.WorkerPool.Run.{
  Pc, waiting, executing, releasing, committing, sending, closing_queue, exited, Shared, Choice,
  Outcome, moved, blocked, panicked, sends_under, advance, select, commit_node,
}
use khaos.WorkerPool.Run.Places.{Place}
use khaos.WorkerPool.Run.Closing.{is_exited}
use khaos.WorkerPool.Run.Invariant.{Rule, Inv}
use khaos.WorkerPool.Run.Keeps.{Keeps, advance-Keeps, room}

module _ {engine : StorageEngine} where
  abbrev pub is_moved : Outcome engine → Bool
  is_moved (moved sh p) = true
  is_moved blocked = false
  is_moved panicked = false

  abbrev is_blocked : Outcome engine → Bool
  is_blocked (moved sh p) = false
  is_blocked blocked = true
  is_blocked panicked = false

  pub moved_of :
      (o : Outcome engine) → is_moved o ≡ true → (sh : Shared engine) × (p : Pc) × (o ≡ moved sh p)
  moved_of (moved sh p) e = (sh, p, refl)
  moved_of blocked e = cc
  moved_of panicked e = cc

  option_unblocked :
      {A : Type 0} (o : Option A) (f : A → Outcome engine)
      → ((a : A) → is_blocked (f a) ≡ false)
      → is_blocked (elim o [ none ↦ panicked | some x ↦ f x ]) ≡ false
  option_unblocked none f e = refl
  option_unblocked (some a) f e = e a

abbrev pub is_waiting : Pc → Bool
is_waiting waiting = true
is_waiting _ = false

module _ {engine : StorageEngine} {g0 : Graph} {size : ℕ} (whole : length g0 ≡ size)
    (rule : Rule engine g0 size) {workers : ℕ} {place : ℕ → Place} {sh : Shared engine}
    {pcs : ℕ → Pc} (inv : Inv rule workers place sh pcs) where
  module _ (w : ℕ) (lt : w < workers) (choice : Choice) where
    Keeps-moved :
        (p : Pc) (o : Outcome engine)
        → Keeps whole rule inv w lt p o
        → is_blocked o ≡ false
        → is_moved o ≡ true
    Keeps-moved p (moved sh' p') k e = refl
    Keeps-moved p blocked k e = cc
    Keeps-moved p panicked k e = absurd k

    unblocked :
        (p : Pc)
        → pcs w ≡ p
        → is_waiting p ≡ false
        → is_exited p ≡ false
        → is_blocked (advance engine size choice sh p) ≡ false
    unfolding advance select commit_node
    unblocked waiting at a b = cc
    unblocked (executing n) at a b = refl
    unblocked (releasing n (d ∷ rest) newly) at a b = refl
    unblocked (releasing n [] newly) at a b =
        option_unblocked (close_done n sh.graph)
          (λ graph'. moved (record sh { graph = graph' }) (committing n newly)) (λ graph'. refl)
    unblocked (committing n newly) at a b =
        option_unblocked (get_elem? sh.graph n)
          (λ node. elim (commit (sends_under sh.ctx choice) node sh.rob) [
            | none ↦ panicked
            | some rob' ↦ moved (record sh { rob = rob' }) (sending n newly)
          ])
          (λ node.
            option_unblocked (commit (sends_under sh.ctx choice) node sh.rob)
              (λ rob'. moved (record sh { rob = rob' }) (sending n newly)) (λ rob'. refl))
    unblocked (sending n (m ∷ rest)) at a b =
        let space : ltb (length sh.queue) size ≡ true =
          ground (arith, room whole rule inv w lt n m rest at) in
        sent_or_panicked sh.closed (ltb (length sh.queue) size) space
      where
        sent_or_panicked :
            (c s : Bool)
            → s ≡ true
            → is_blocked (
                if c
                then panicked
                else if s
                then moved (record sh { queue = sh.queue ++ m ∷ [] }) (sending n rest)
                else blocked)
              ≡ false
        sent_or_panicked true s e = refl
        sent_or_panicked false true e = refl
        sent_or_panicked false false e = cc
    unblocked (sending n []) at a b = refl
    unblocked closing_queue at a b = close_or_panic sh.closed
      where
        close_or_panic :
            (c : Bool)
            → is_blocked (if c then panicked else moved (record sh { closed = true }) waiting)
              ≡ false
        close_or_panic true = refl
        close_or_panic false = refl
    unblocked exited at a b = cc

    pub mobile :
        (p : Pc)
        → pcs w ≡ p
        → is_waiting p ≡ false
        → is_exited p ≡ false
        → is_moved (advance engine size choice sh p) ≡ true
    mobile p at a b =
        Keeps-moved p _ (advance-Keeps whole rule inv w lt choice p at) (unblocked p at a b)

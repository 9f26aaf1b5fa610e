-- ===== src/WorkerPool/Run/ContextKept.antt =====
-- No step of a worker ends the context.
use khaos.Prelude.{
  ℕ, ◌≡◌, refl, List, [], ◌∷◌, ◌++◌, Option, none, some, Bool, true, false, length, get_elem?, ltb,
  if◌then◌else◌,
}
use khaos.Storage.{Context, StorageEngine}
use khaos.Types.{close_done}
use khaos.Reorder.{commit}
use khaos.WorkerPool.Run.{
  Pc, waiting, executing, releasing, committing, sending, closing_queue, exited, Shared, Choice,
  Outcome, moved, blocked, panicked, sends_under, advance, select, receive, commit_node,
}

module _ {engine : StorageEngine} (total : ℕ) (choice : Choice) (sh : Shared engine) where
  abbrev pub KeepsCtx : Outcome engine → Type 0
  KeepsCtx (moved sh' p') = sh'.ctx ≡ sh.ctx
  KeepsCtx blocked = Unit
  KeepsCtx panicked = Unit

  if_KeepsCtx :
      (b : Bool) (x y : Outcome engine) → KeepsCtx x → KeepsCtx y → KeepsCtx (if b then x else y)
  if_KeepsCtx true x y t f = t
  if_KeepsCtx false x y t f = f

  option_KeepsCtx :
      {A : Type 0} (o : Option A) (f : A → Outcome engine)
      → ((a : A) → KeepsCtx (f a))
      → KeepsCtx (elim o [ none ↦ panicked | some x ↦ f x ])
  option_KeepsCtx none f k = tt
  option_KeepsCtx (some a) f k = k a

  leave_KeepsCtx :
      (ctx : Context) → KeepsCtx (elim ctx [ none ↦ blocked | some e ↦ moved sh exited ])
  leave_KeepsCtx none = tt
  leave_KeepsCtx (some e) = refl

  receive-KeepsCtx : (queue : List ℕ) → KeepsCtx (receive engine queue sh)
  unfolding receive
  receive-KeepsCtx (n ∷ rest) = refl
  receive-KeepsCtx [] = if_KeepsCtx sh.closed _ _ refl tt

  pub advance-KeepsCtx : (p : Pc) → KeepsCtx (advance engine total choice sh p)
  unfolding advance select commit_node
  advance-KeepsCtx waiting =
      if_KeepsCtx choice.leave _ _ (leave_KeepsCtx sh.ctx) (receive-KeepsCtx sh.queue)
  advance-KeepsCtx (executing n) = refl
  advance-KeepsCtx (releasing n (d ∷ rest) newly) = refl
  advance-KeepsCtx (releasing n [] newly) =
      option_KeepsCtx (close_done n sh.graph)
        (λ graph'. moved (record sh { graph = graph' }) (committing n newly)) (λ graph'. refl)
  advance-KeepsCtx (committing n newly) =
      option_KeepsCtx (get_elem? sh.graph n)
        (λ node. elim (commit (sends_under sh.ctx choice) node sh.rob) [
          | none ↦ panicked
          | some rob' ↦ moved (record sh { rob = rob' }) (sending n newly)
        ])
        (λ node.
          option_KeepsCtx (commit (sends_under sh.ctx choice) node sh.rob)
            (λ rob'. moved (record sh { rob = rob' }) (sending n newly)) (λ rob'. refl))
  advance-KeepsCtx (sending n (m ∷ rest)) =
      if_KeepsCtx sh.closed panicked
        (if ltb (length sh.queue) total
          then moved (record sh { queue = sh.queue ++ m ∷ [] }) (sending n rest)
          else blocked)
        tt
        (if_KeepsCtx (ltb (length sh.queue) total)
          (moved (record sh { queue = sh.queue ++ m ∷ [] }) (sending n rest)) blocked refl tt)
  advance-KeepsCtx (sending n []) = refl
  advance-KeepsCtx closing_queue = if_KeepsCtx sh.closed _ _ tt refl
  advance-KeepsCtx exited = tt

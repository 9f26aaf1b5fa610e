-- ===== src/WorkerPool/Run/Trace.antt =====
-- The steps from the start of Run to a state: what was executed, in which order, and in how many
-- steps.
use khaos.Prelude.{
  ℕ, suc, ◌+◌, ◌≤◌, ◌<◌, ◌≡◌, refl, sym, ap, subst, ◌∙◌, List, [], ◌∷◌, ◌++◌, none, some, Bool,
  true, false, ◌||◌, length, set_at, ◌==◌, if◌then◌else◌, arith,
}
use khaos.Values.{Error}
use khaos.Storage.{Context, StorageEngine}
use khaos.Types.{Graph, dependents_of}
use khaos.Hazard.Outcome.{HasEdge}
use mathlib.Core.List.{append-nil}
use khaos.WorkerPool.Schedule.{mark}
use khaos.WorkerPool.Serial.{marks, IsScheduled, nothing}
use khaos.WorkerPool.Run.{
  Pc, waiting, executing, releasing, committing, sending, closing_queue, exited, Shared, Choice,
  moved, advance, Pool, work, cancel, Reach, here, next,
}
use khaos.WorkerPool.Run.Places.{Place, has_run, ran}
use khaos.WorkerPool.Run.Closing.{cancel-Closing}
use khaos.WorkerPool.Run.Measure.{measure, executes_at}
use khaos.WorkerPool.Run.Invariant.{Rule, Inv}
use khaos.WorkerPool.Run.NodeSteps.{in_hand, held-lt-size, before-ran, HasEdge-bound}
use khaos.WorkerPool.Run.Keeps.{Keeps, advance-Keeps}
use khaos.WorkerPool.Run.ContextKept.{KeepsCtx, advance-KeepsCtx}

-- The node that a worker is about to execute.
abbrev pub about_to_run : Pc → List ℕ
about_to_run waiting = []
about_to_run (executing n) = n ∷ []
about_to_run (releasing n deps newly) = []
about_to_run (committing n newly) = []
about_to_run (sending n rest) = []
about_to_run closing_queue = []
about_to_run exited = []

module _ {engine : StorageEngine} {workers total : ℕ} {p : Pool engine} where
  -- The nodes executed on the way, in order.
  unfoldable pub executed : {q : Pool engine} → Reach engine workers total p q → List ℕ
  executed here = []
  executed (next {q} r (work w choice lt e)) = executed r ++ about_to_run (q.pcs w)
  executed (next r (cancel e running)) = executed r

  unfoldable pub steps : {q : Pool engine} → Reach engine workers total p q → ℕ
  steps here = 0
  steps (next r s) = suc (steps r)

marks-snoc :
    (order : List ℕ) (done : ℕ → Bool) (n i : ℕ)
    → marks (order ++ n ∷ []) done i ≡ mark n (marks order done) i
marks-snoc [] done n i = refl
marks-snoc (m ∷ order) done n i = marks-snoc order (mark m done) n i

IsScheduled-snoc :
    (g : Graph) (size : ℕ) (order : List ℕ) (done : ℕ → Bool) (n : ℕ)
    → IsScheduled g size done order
    → n < size
    → marks order done n ≡ false
    → ((a : ℕ) → HasEdge g a n → marks order done a ≡ true)
    → IsScheduled g size done (order ++ n ∷ [])
IsScheduled-snoc g size [] done n sched lt new preds = (lt, new, preds, tt)
IsScheduled-snoc g size (m ∷ order) done n (below, first, before, rest) lt new preds =
    (below, first, before, IsScheduled-snoc g size order (mark m done) n rest lt new preds)

either : (a b : Bool) → (if a then true else b) ≡ (a || b)
either true b = refl
either false b = refl

abbrev pub still_running : Context → ℕ
still_running none = 1
still_running (some e) = 0

module _ {engine : StorageEngine} {g0 : Graph} {size : ℕ} (whole : length g0 ≡ size)
    (rule : Rule engine g0 size) (workers : ℕ) where
  -- A state that has been reached in `taken` steps, with `log` executed, of at most `budget`.
  pub record Traced (budget : ℕ) (log : List ℕ) (taken : ℕ) (q : Pool engine) : Type 0 where
    pub place : ℕ → Place
    pub inv : Inv rule workers place q.shared q.pcs
    pub scheduled : IsScheduled g0 size nothing log
    pub marked : (i : ℕ) → i < size → marks log nothing i ≡ ran q.pcs (place i)
    pub spent :
        measure workers size (dependents_of g0) place q.pcs + still_running q.shared.ctx + taken
        ≤ budget

  module _ {budget : ℕ} {log : List ℕ} {taken : ℕ} {q : Pool engine}
      (t : Traced budget log taken q) where
    cancel-Traced :
        (e : Error)
        → q.shared.ctx ≡ none
        → Traced budget log
            (suc taken)
            (record { shared = record q.shared { ctx = some e }; pcs = q.pcs })
    cancel-Traced e running =
        let one : still_running q.shared.ctx ≡ 1 = ap still_running running in
        record {
          place = t.place;
          inv = record {
            edges = t.inv.edges;
            holders = t.inv.holders;
            balanced = t.inv.balanced;
            dones = t.inv.dones;
            closing = cancel-Closing t.inv.closing e;
            numbered = t.inv.numbered;
            buffered = record {
              ordered = t.inv.buffered.ordered;
              total = t.inv.buffered.total;
              settled = λ off. cc;
            };
            rules = rule.ends e _ _ _ (
                subst (λ c. rule.Holds c (λ i. ran q.pcs (t.place i)) q.shared.graph q.shared.store)
                  running t.inv.rules);
          };
          scheduled = t.scheduled;
          marked = t.marked;
          spent = let s = t.spent in omega (arith, one);
        }

    module _ (w : ℕ) (lt : w < workers) where
      log-IsScheduled : (p : Pc) → q.pcs w ≡ p → IsScheduled g0 size nothing (log ++ about_to_run p)
      log-IsScheduled (executing n) at =
          let mine = in_hand whole rule t.inv w lt n (executing n) at (ground arith) in
          let below = held-lt-size whole rule t.inv w lt n (executing n) at (ground arith) in
          let not_yet : ran q.pcs (t.place n) ≡ false = rw mine (ap has_run at) in
          IsScheduled-snoc g0 size log nothing n t.scheduled below (t.marked n below ∙ not_yet)
            (λ a e.
              let inside : a < size = rw (← whole) (HasEdge-bound g0 a n e) in
              t.marked a inside ∙ before-ran whole rule t.inv a n (rw mine refl) e)
      log-IsScheduled waiting at = rw append-nil t.scheduled
      log-IsScheduled (releasing n deps newly) at = rw append-nil t.scheduled
      log-IsScheduled (committing n newly) at = rw append-nil t.scheduled
      log-IsScheduled (sending n rest) at = rw append-nil t.scheduled
      log-IsScheduled closing_queue at = rw append-nil t.scheduled
      log-IsScheduled exited at = rw append-nil t.scheduled

      log_marked :
          (p : Pc)
          → q.pcs w ≡ p
          → (i : ℕ) → i < size
          → marks (log ++ about_to_run p) nothing i ≡ (executes_at p i || ran q.pcs (t.place i))
      log_marked (executing n) at i below =
          marks-snoc log nothing n i
          ∙ rw (t.marked i below) (either (n == i) (ran q.pcs (t.place i)))
      log_marked waiting at i below = rw append-nil (t.marked i below)
      log_marked (releasing n deps newly) at i below = rw append-nil (t.marked i below)
      log_marked (committing n newly) at i below = rw append-nil (t.marked i below)
      log_marked (sending n rest) at i below = rw append-nil (t.marked i below)
      log_marked closing_queue at i below = rw append-nil (t.marked i below)
      log_marked exited at i below = rw append-nil (t.marked i below)

      work-Traced :
          (choice : Choice) (p p' : Pc) (sh : Shared engine)
          → q.pcs w ≡ p
          → advance engine size choice q.shared p ≡ moved sh p'
          → (ctx_kept : sh.ctx ≡ q.shared.ctx)
          → Traced budget
              (log ++ about_to_run p)
              (suc taken)
              (record { shared = sh; pcs = set_at w p' q.pcs })
      work-Traced choice p p' sh at e ctx_kept =
          let (place', inv', m) =
            subst (Keeps whole rule t.inv w lt p) e
              (advance-Keeps whole rule t.inv w lt choice p at) in
          record {
            place = place';
            inv = inv';
            scheduled = log-IsScheduled p at;
            marked = λ i below. log_marked p at i below ∙ sym (m.rans i);
            spent =
                let s = t.spent in
                let l = m.less in let c = ap still_running ctx_kept in omega arith;
          }

module _ {engine : StorageEngine} {g0 : Graph} {size : ℕ} (whole : length g0 ≡ size)
    (rule : Rule engine g0 size) (workers : ℕ) {budget total : ℕ} {p : Pool engine}
    (exact : total ≡ size) (from : Traced whole rule workers budget [] 0 p) where
  -- Whatever has been reached has been traced.
  pub Reach-Traced :
      {q : Pool engine} (r : Reach engine workers total p q)
      → Traced whole rule workers budget (executed r) (steps r) q
  unfolding executed steps
  Reach-Traced here = from
  Reach-Traced (next {q} r (work w choice {sh} {pc} lt e)) =
      let kept : sh.ctx ≡ q.shared.ctx =
        subst (KeepsCtx total choice q.shared) e
          (advance-KeepsCtx total choice q.shared (q.pcs w)) in
      let e' : advance engine size choice q.shared (q.pcs w) ≡ moved sh pc =
        subst (λ n. advance engine n choice q.shared (q.pcs w) ≡ moved sh pc) exact e in
      work-Traced whole rule workers (Reach-Traced r) w lt choice (q.pcs w) pc sh refl e' kept
  Reach-Traced (next r (cancel e running)) =
      cancel-Traced whole rule workers (Reach-Traced r) e running

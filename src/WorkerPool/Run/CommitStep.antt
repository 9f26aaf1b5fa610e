-- ===== src/WorkerPool/Run/CommitStep.antt =====
-- A Commit by a worker does not panic and keeps the invariant.
use khaos.Prelude.{
  ℕ, ◌<◌, ◌≡◌, refl, sym, ap, subst, fun_ext, ◌∙◌, List, [], none, some, true, false, length,
  get_elem?, set_at, ◌==◌, arith,
}
use native.Mathlib.Decide.{ℕ_discrete}
use khaos.Storage.{Context, StorageEngine}
use khaos.Types.{DagNode, Graph, dependents_of}
use khaos.Reorder.{ReorderBuffer, commit}
use khaos.Reorder.Flush.{Committed}
use khaos.Reorder.Correct.{add_commit, commit_step, inserted-IsComplete}
use khaos.WorkerPool.Run.{Pc, committing, sending, Shared, Choice, sends_under}
use khaos.WorkerPool.Run.Places.{Place, edges_at, sent, has_run, has_closed, has_committed}
use khaos.WorkerPool.Run.Holders.{stay-Holders}
use khaos.WorkerPool.Run.Flags.{stay_flag, step_flag}
use khaos.WorkerPool.Run.Balance.{same-Balanced}
use khaos.WorkerPool.Run.Closing.{go-Closing}
use khaos.WorkerPool.Run.Invariant.{Rule, Inv, Buffered, committed_in}
use khaos.WorkerPool.Run.NodeSteps.{in_hand, held-lt-size}

sends_under-none :
    (ctx : Context) (choice : Choice) → ctx ≡ none → (n : ℕ) → sends_under ctx choice n ≡ true
sends_under-none none choice e n = refl
sends_under-none (some c) choice e n = cc

module _ {engine : StorageEngine} {g0 : Graph} {size : ℕ} (whole : length g0 ≡ size)
    (rule : Rule engine g0 size) {workers : ℕ} {place : ℕ → Place} {sh : Shared engine}
    {pcs : ℕ → Pc} (inv : Inv rule workers place sh pcs) (w : ℕ) (lt : w < workers) (n : ℕ)
    (newly : List ℕ) (at : pcs w ≡ committing n newly) where
  abbrev pcs' : ℕ → Pc
  pcs' = set_at w (sending n newly) pcs

  abbrev committed : Committed
  committed = committed_in place pcs sh.graph

  below : n < size
  below = held-lt-size whole rule inv w lt n (committing n newly) at (ground arith)

  fresh : committed n ≡ none
  fresh =
      let self : (n == n) ≡ true = ground arith in
      let mine = in_hand whole rule inv w lt n (committing n newly) at self in
      let unsent : sent pcs (place n) ≡ false = rw mine (ap has_committed at) in rw unsent refl

  module _ (node : DagNode) (found : get_elem? sh.graph n ≡ some node) where
    named : node.seq_id ≡ n
    named = inv.numbered n node.operation (rw found refl)

    committed-add : (i : ℕ) → committed_in place pcs' sh.graph i ≡ add_commit node committed i
    committed-add i =
        let flag =
          step_flag inv.holders w has_committed false true (committing n newly) (sending n newly) at
            i in
        let test : (node.seq_id == i) ≡ (n == i) = ap (λ k. k == i) named in
        elim (ℕ_discrete n i) [
          | yes same ↦
              let self : (n == i) ≡ true = ground arith in
              let found_i : get_elem? sh.graph i ≡ some node =
                ap (get_elem? sh.graph) (sym same) ∙ found in
              let flag' : sent pcs' (place i) ≡ true = flag ∙ rw self refl in
              rw (test, self, flag', found_i) refl
          | no other ↦
              let diff : (n == i) ≡ false = ground arith in
              let flag' : sent pcs' (place i) ≡ sent pcs (place i) = flag ∙ rw diff refl in
              rw (test, diff, flag') refl
        ]

    pub commit-Inv :
        (choice : Choice)
        → (rob' : ReorderBuffer) × (commit (sends_under sh.ctx choice) node sh.rob ≡ some rob')
          × Inv rule workers place (record sh { rob = rob' }) pcs'
    commit-Inv choice =
        let new : committed node.seq_id ≡ none = rw named fresh in
        let inside : node.seq_id < sh.rob.total = rw (named, inv.buffered.total) below in
        let (rob', e, f) =
          commit_step committed node sh.rob inv.buffered.ordered new inside
            (sends_under sh.ctx choice) in
        let p = committing n newly in
        let p' = sending n newly in
        (
          rob',
          e,
          record {
            edges = inv.edges;
            holders = stay-Holders inv.holders w lt p p' at (λ j. refl) refl;
            balanced =
                same-Balanced inv.balanced sh.graph place pcs' (λ j. refl)
                  (λ i.
                    stay_flag (edges_at (dependents_of g0 i)) (dependents_of g0 i) [] pcs w p p' at
                      refl (place i))
                  (λ j. refl);
            dones = λ j inside_j.
                inv.dones j inside_j
                ∙ sym (stay_flag has_closed false true pcs w p p' at refl (place j));
            closing = go-Closing inv.closing w lt p p' place at refl refl (λ e r. cc) (λ j. refl);
            numbered = inv.numbered;
            buffered =
                subst (λ c. Buffered size c rob' sh.ctx) (sym (fun_ext committed-add))
                  (record {
                    ordered = f.ordered;
                    total = f.total_kept ∙ inv.buffered.total;
                    settled = λ running.
                        let (full, gap) = inv.buffered.settled running in
                        f.settles (sends_under-none sh.ctx choice running) (
                          inserted-IsComplete committed node sh.rob inv.buffered.ordered new inside
                            full);
                  });
            rules =
                rule.same sh.ctx _ _ sh.graph sh.graph sh.store
                  (λ i. stay_flag has_run false true pcs w p p' at refl (place i)) (λ i. refl)
                  inv.rules;
          },
        )

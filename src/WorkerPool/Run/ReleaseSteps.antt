-- ===== src/WorkerPool/Run/ReleaseSteps.antt =====
-- The steps of Release and Commit keep the invariant.
use khaos.Prelude.{
  ℕ, ◌<◌, ◌≡◌, refl, sym, ap, ◌∙◌, List, [], ◌∷◌, ◌++◌, true, false, length, set_at, ◌==◌,
  if◌then◌else◌, arith,
}
use khaos.Storage.{StorageEngine}
use khaos.Types.{Graph, dependents_of, in_degree_of, drop_edge}
use khaos.WorkerPool.Run.{Pc, releasing, committing, Shared}
use khaos.WorkerPool.Run.Heap.{
  drop_edge-SameEdges, done_of-drop_edge, operation_of-drop_edge, Closed, done_of,
}
use khaos.WorkerPool.Run.Places.{
  Place, ready, edges_at, has_run, has_closed, has_committed, waits_of,
}
use khaos.WorkerPool.Run.Holders.{stay-Holders, ready-Holders}
use khaos.WorkerPool.Run.Flags.{stay_flag, list_flag, step_flag, is_untouched}
use khaos.WorkerPool.Run.Balance.{same-Balanced, d-waits, keep-Balanced, ready-Balanced}
use khaos.WorkerPool.Run.Closing.{go-Closing}
use khaos.WorkerPool.Run.Invariant.{Rule, Inv, Buffered-same}
use khaos.WorkerPool.Run.NodeSteps.{SameEdges-trans, in_hand, held-lt-size, graph-size}

module _ {engine : StorageEngine} {g0 : Graph} {size : ℕ} (whole : length g0 ≡ size)
    (rule : Rule engine g0 size) {workers : ℕ} {place : ℕ → Place} {sh : Shared engine}
    {pcs : ℕ → Pc} (inv : Inv rule workers place sh pcs) (w : ℕ) (lt : w < workers) where
  module _ (n d : ℕ) (rest newly : List ℕ) (at : pcs w ≡ releasing n (d ∷ rest) newly) where
    abbrev dropped : Graph
    dropped = drop_edge d sh.graph

    pub keep-Inv :
        (in_degree_of dropped d == 0) ≡ false
        → Inv rule workers place
            (record sh { graph = dropped })
            (set_at w (releasing n rest newly) pcs)
    keep-Inv more =
        let p = releasing n (d ∷ rest) newly in
        let p' = releasing n rest newly in
        record {
          edges = SameEdges-trans inv.edges (drop_edge-SameEdges d sh.graph);
          holders = stay-Holders inv.holders w lt p p' at (λ j. refl) refl;
          balanced =
              keep-Balanced inv.balanced inv.holders w n d rest newly newly at
                (graph-size whole rule inv) more;
          dones = λ j below.
              done_of-drop_edge d sh.graph j
              ∙ inv.dones j below
              ∙ sym (stay_flag has_closed false true pcs w p p' at refl (place j));
          closing = go-Closing inv.closing w lt p p' place at refl refl (λ e r. cc) (λ j. refl);
          numbered = λ i op e. inv.numbered i op (sym (operation_of-drop_edge d sh.graph i) ∙ e);
          buffered =
              Buffered-same rule inv place (set_at w p' pcs) dropped
                (λ i. stay_flag has_committed false true pcs w p p' at refl (place i))
                (λ i e. operation_of-drop_edge d sh.graph i);
          rules =
              rule.same sh.ctx _ _ sh.graph dropped sh.store
                (λ i. stay_flag has_run false true pcs w p p' at refl (place i))
                (operation_of-drop_edge d sh.graph) inv.rules;
        }

    pub ready-Inv :
        (in_degree_of dropped d == 0) ≡ true
        → Inv rule workers
            (set_at d (ready w) place)
            (record sh { graph = dropped })
            (set_at w (releasing n rest (newly ++ d ∷ [])) pcs)
    ready-Inv last =
        let p = releasing n (d ∷ rest) newly in
        let p' = releasing n rest (newly ++ d ∷ []) in
        let wait = d-waits inv.balanced inv.holders w n d rest newly (newly ++ d ∷ []) at in
        let free : is_untouched (place d) ≡ true = ap is_untouched (waits_of (place d) wait) in
        record {
          edges = SameEdges-trans inv.edges (drop_edge-SameEdges d sh.graph);
          holders = ready-Holders inv.holders w lt n d rest newly at wait;
          balanced =
              ready-Balanced inv.balanced inv.holders w n d rest newly (newly ++ d ∷ []) at
                (graph-size whole rule inv) last;
          dones = λ j below.
              done_of-drop_edge d sh.graph j
              ∙ inv.dones j below
              ∙ sym (
                  list_flag inv.holders w has_closed false true d (ready w) p p' at refl free refl
                    j);
          closing =
              go-Closing inv.closing w lt p p' (set_at d (ready w) place) at refl refl (λ e r. cc)
                (λ j. ground (arith, ap place, waits_of (place d) wait));
          numbered = λ i op e. inv.numbered i op (sym (operation_of-drop_edge d sh.graph i) ∙ e);
          buffered =
              Buffered-same rule inv (set_at d (ready w) place) (set_at w p' pcs) dropped
                (list_flag inv.holders w has_committed false true d (ready w) p p' at refl free
                  refl)
                (λ i e. operation_of-drop_edge d sh.graph i);
          rules =
              rule.same sh.ctx _ _ sh.graph dropped sh.store
                (list_flag inv.holders w has_run false true d (ready w) p p' at refl free refl)
                (operation_of-drop_edge d sh.graph) inv.rules;
        }

  module _ (n : ℕ) (newly : List ℕ) where
    pub still_open : pcs w ≡ releasing n [] newly → done_of sh.graph n ≡ false
    still_open at =
        let self : (n == n) ≡ true = ground arith in
        inv.dones n (held-lt-size whole rule inv w lt n _ at self)
        ∙ rw (in_hand whole rule inv w lt n _ at self) (ap has_closed at)

    pub close-Inv :
        (g' : Graph)
        → pcs w ≡ releasing n [] newly
        → Closed n sh.graph g'
        → Inv rule workers place (record sh { graph = g' }) (set_at w (committing n newly) pcs)
    close-Inv g' at c =
        let p = releasing n [] newly in
        let p' = committing n newly in
        record {
          edges = SameEdges-trans inv.edges c.edges;
          holders = stay-Holders inv.holders w lt p p' at (λ j. refl) refl;
          balanced =
              same-Balanced inv.balanced g' place (set_at w p' pcs) c.degrees
                (λ i.
                  stay_flag (edges_at (dependents_of g0 i)) (dependents_of g0 i) [] pcs w p p' at
                    refl (place i))
                (λ j. refl);
          dones = λ j below.
              c.dones j
              ∙ ap (λ b. if n == j then true else b) (inv.dones j below)
              ∙ sym (step_flag inv.holders w has_closed false true p p' at j);
          closing = go-Closing inv.closing w lt p p' place at refl refl (λ e r. cc) (λ j. refl);
          numbered = λ i op e. inv.numbered i op (sym (c.operations i) ∙ e);
          buffered =
              Buffered-same rule inv place (set_at w p' pcs) g'
                (λ i. stay_flag has_committed false true pcs w p p' at refl (place i))
                (λ i e. c.operations i);
          rules =
              rule.same sh.ctx _ _ sh.graph g' sh.store
                (λ i. stay_flag has_run false true pcs w p p' at refl (place i)) c.operations
                inv.rules;
        }

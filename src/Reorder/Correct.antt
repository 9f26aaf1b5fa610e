-- ===== src/Reorder/Correct.antt =====
-- Calls of Commit in any order: what the consumer of Drain receives.
use khaos.Prelude.{
  ℕ, ◌^◌, ◌≤◌, ◌<◌, ◌≡◌, ◌≢◌, refl, sym, subst, ◌∙◌, List, [], ◌∷◌, Option, none, some, Bool, true,
  length, get_elem?, get_elem?-some, ◌==◌, if◌then◌else◌, arith,
}
use native.Mathlib.Decide.{dec_lt}
use khaos.Storage.{Context}
use khaos.Types.{DagNode}
use khaos.Reorder.{ReorderBuffer, insert, new_reorder_buffer, drain, commit}
use khaos.Reorder.Pending.{lookup-insert}
use khaos.Reorder.Flush.{Committed, IsOrdered, IsComplete, Flushed, flush_enough}

abbrev pub add_commit : DagNode → Committed → Committed
add_commit node committed i = if node.seq_id == i then some node.operation else committed i

-- One commit after another: the mutex puts them in an order.
unfoldable pub commit_all : (ℕ → Bool) → List DagNode → ReorderBuffer → Option ReorderBuffer
commit_all sends [] rb = some rb
commit_all sends (node ∷ nodes) rb = elim (commit sends node rb) [
  | none ↦ none
  | some rb' ↦ commit_all sends nodes rb'
]

abbrev pub commits_from : Committed → List DagNode → Committed
commits_from committed [] = committed
commits_from committed (node ∷ nodes) = commits_from (add_commit node committed) nodes

-- What was committed under each sequence number.
abbrev pub commits_of : List DagNode → Committed
commits_of = commits_from (λ i. none)

abbrev pub IsFreshFrom : ℕ → Committed → List DagNode → Type 0
IsFreshFrom total committed [] = Unit
IsFreshFrom total committed (node ∷ nodes) =
    (committed node.seq_id ≡ none)
    × (node.seq_id < total)
    × IsFreshFrom total (add_commit node committed) nodes

-- The sequence numbers of the nodes are below the total, and no two are the same.
abbrev pub AreDistinct : ℕ → List DagNode → Type 0
AreDistinct total nodes = IsFreshFrom total (λ i. none) nodes

module _ (committed : Committed) (node : DagNode) (rb : ReorderBuffer)
    (inv : IsOrdered committed rb) (fresh : committed node.seq_id ≡ none)
    (lt : node.seq_id < rb.total) where
  abbrev inserted : ReorderBuffer
  inserted = record rb { pending = insert node.seq_id node.operation rb.pending }

  -- What has been delivered has another number.
  not_delivered : rb.next_expected ≤ node.seq_id
  not_delivered = elim (dec_lt node.seq_id rb.next_expected) [
    | yes below ↦
        let (op, e) = get_elem?-some rb.out node.seq_id (omega (arith, inv.delivered)) in
        absurd (ground (arith, e, inv.in_order node.seq_id below, fresh))
    | no above ↦ omega arith
  ]

  inserted-IsOrdered : IsOrdered (add_commit node committed) inserted
  inserted-IsOrdered = record {
    delivered = inv.delivered;
    counted = inv.counted;
    within = inv.within;
    small = inv.small;
    finishes = inv.finishes;
    in_order = λ i below. ground (arith, inv.in_order i, not_delivered);
    waiting = λ i op e. ground (
      arith,
      lookup-insert node.seq_id node.operation rb.pending i,
      inv.waiting i op,
      not_delivered,
    );
    in_range = λ i op e. ground (arith, inv.in_range i op, lt);
  }

  pub inserted-IsComplete :
      IsComplete committed rb → IsComplete (add_commit node committed) inserted
  inserted-IsComplete full i le =
      ground (arith, lookup-insert node.seq_id node.operation rb.pending i, full i)

  pub commit_step :
      (sends : ℕ → Bool)
      → (rb' : ReorderBuffer) × (commit sends node rb ≡ some rb')
        × Flushed (add_commit node committed) sends inserted rb'
  unfolding commit
  commit_step sends =
      flush_enough (add_commit node committed) sends (length inserted.pending) inserted
        (omega arith) inserted-IsOrdered

commit_all_from :
    (sends : ℕ → Bool) (committed : Committed) (nodes : List DagNode) (rb : ReorderBuffer)
    → IsOrdered committed rb
    → IsFreshFrom rb.total committed nodes
    → (rb' : ReorderBuffer) × (commit_all sends nodes rb ≡ some rb')
      × IsOrdered (commits_from committed nodes) rb'
      × (rb'.total ≡ rb.total)
      × (((n : ℕ) → sends n ≡ true)
          → IsComplete committed rb
          → committed rb.next_expected ≡ none
          → commits_from committed nodes rb'.next_expected ≡ none)
unfolding commit_all
commit_all_from sends committed [] rb inv fresh = (rb, refl, inv, refl, λ all full gap. gap)
commit_all_from sends committed (node ∷ nodes) rb inv (new, lt, others) =
    let (rb', e, f) = commit_step committed node rb inv new lt sends in
    let (rb'', e', inv', kept, settled) =
      commit_all_from sends (add_commit node committed) nodes rb' f.ordered
        (subst (λ n. IsFreshFrom n (add_commit node committed) nodes) (sym f.total_kept) others) in
    (
      rb'',
      rw (e, commit_all) e',
      inv',
      kept ∙ f.total_kept,
      λ all full gap.
          let (full', gap') =
            f.settles all (inserted-IsComplete committed node rb inv new lt full) in
          settled all full' gap',
    )

pub start-IsOrdered :
    (ctx : Context) (total : ℕ)
    → total < 2 ^ 63
    → IsOrdered (λ i. none) (drain ctx total new_reorder_buffer)
unfolding drain new_reorder_buffer
start-IsOrdered ctx total small = record {
  delivered = refl;
  counted = refl;
  within = omega arith;
  small = small;
  finishes = ground arith;
  in_order = λ i below. absurd (omega arith);
  waiting = λ i op e. cc;
  in_range = λ i op e. cc;
}

pub start_fields :
    (ctx : Context) (total : ℕ)
    → ((drain ctx total new_reorder_buffer).total ≡ total)
      × IsComplete (λ i. none) (drain ctx total new_reorder_buffer)
unfolding drain new_reorder_buffer
start_fields ctx total = (refl, λ i le. refl)

module _ (sends : ℕ → Bool) (ctx : Context) (total : ℕ) (nodes : List DagNode)
    (small : total < 2 ^ 63) (distinct : AreDistinct total nodes) where
  abbrev start : ReorderBuffer
  start = drain ctx total new_reorder_buffer

  committed_run :
      (rb : ReorderBuffer) × (commit_all sends nodes start ≡ some rb)
      × IsOrdered (commits_of nodes) rb
      × (rb.total ≡ total)
      × (((n : ℕ) → sends n ≡ true) → commits_of nodes rb.next_expected ≡ none)
  committed_run =
      let (whole, complete) = start_fields ctx total in
      let (rb, e, inv, kept, settled) =
        commit_all_from sends (λ i. none) nodes start (start-IsOrdered ctx total small)
          (rw whole distinct) in
      (rb, e, inv, kept ∙ whole, λ all. settled all complete refl)

  -- For a total below 2^63 and nodes whose sequence numbers are distinct and below the total,
  -- committed in any order to a new drained buffer, with the context ending at any of the sends:
  -- no Commit panics, the consumer has received a run of the committed operations from number 0
  -- on, in the order of their numbers, and the channel is closed exactly if that run is the
  -- whole total.
  pub reorder_prefix :
      (rb : ReorderBuffer) × (commit_all sends nodes (drain ctx total new_reorder_buffer) ≡ some rb)
      × (length rb.out ≤ total)
      × ((i : ℕ) → i < length rb.out → get_elem? rb.out i ≡ commits_of nodes i)
      × (rb.closed ≡ (length rb.out == total))
  reorder_prefix =
      let (rb, e, inv, kept, _) = committed_run in
      (
        rb,
        e,
        omega (arith, inv.delivered, inv.within, kept),
        λ i below. inv.in_order i (omega (arith, inv.delivered, below)),
        ground (arith, inv.finishes, inv.counted, inv.delivered, kept),
      )

  -- For a total below 2^63 and nodes whose sequence numbers are distinct and below the total,
  -- committed in any order to a new drained buffer, if the context never ends a send and every
  -- number below the total is committed, then no Commit panics, the consumer has received all of
  -- the operations, each at its number, and the channel is closed.
  pub reorder_complete :
      ((n : ℕ) → sends n ≡ true)
      → ((i : ℕ) → i < total → commits_of nodes i ≢ none)
      → (rb : ReorderBuffer) × (commit_all sends nodes (drain ctx total new_reorder_buffer)
          ≡ some rb)
        × (length rb.out ≡ total)
        × ((i : ℕ) → i < total → get_elem? rb.out i ≡ commits_of nodes i)
        × (rb.closed ≡ true)
  reorder_complete all covered =
      let (rb, e, inv, kept, settled) = committed_run in
      let done : rb.next_expected ≡ total = elim (dec_lt rb.next_expected total) [
        | yes short ↦ absurd (covered rb.next_expected short (settled all))
        | no reached ↦ omega (arith, inv.within, kept)
      ] in
      (
        rb,
        e,
        inv.delivered ∙ done,
        λ i below. inv.in_order i (omega (arith, done, below)),
        ground (arith, inv.finishes, inv.counted, done, kept),
      )

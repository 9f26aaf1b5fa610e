-- ===== src/Tests/Reorder.antt =====
-- Three operations that finish in the order 2, 0, 1.
use khaos.Prelude.{
  ℕ, ◌≤◌, ◌<◌, ◌≡◌, refl, text, List, [], ◌∷◌, none, some, Bool, true, length, get_elem?, ◌==◌,
  arith, zero, suc, ◌≢◌,
}
use khaos.Types.{op_read, op_write, DagNode, new_dag_node}
use khaos.Reorder.{ReorderBuffer, new_reorder_buffer, drain}
use khaos.Reorder.Correct.{commit_all, commits_of, AreDistinct, reorder_prefix, reorder_complete}
use khaos.Tests.Hazard.{op}

abbrev always : ℕ → Bool
always n = true

-- The context ends before number 1 is received.
abbrev only_first : ℕ → Bool
only_first n = n == 0

finished : List DagNode
unfolding new_dag_node
finished =
    new_dag_node (op 2 op_read (text "a") 0)
    ∷ new_dag_node (op 0 op_write (text "a") 1)
    ∷ new_dag_node (op 1 op_read (text "b") 0)
    ∷ []

finished-AreDistinct : AreDistinct 3 finished
unfolding finished
finished-AreDistinct = (refl, omega arith, (refl, omega arith, (refl, omega arith, tt)))

finished-covered : (i : ℕ) → i < 3 → commits_of finished i ≢ none
unfolding finished
finished-covered zero h = ground arith
finished-covered (suc zero) h = ground arith
finished-covered (suc (suc zero)) h = ground arith
finished-covered (suc (suc (suc i))) h = absurd (omega arith)

reorder_prefix_example :
    (rb : ReorderBuffer) × (commit_all only_first finished (drain none 3 new_reorder_buffer)
      ≡ some rb)
    × (length rb.out ≤ 3)
    × ((i : ℕ) → i < length rb.out → get_elem? rb.out i ≡ commits_of finished i)
    × (rb.closed ≡ (length rb.out == 3))
reorder_prefix_example =
    reorder_prefix only_first none 3 finished (omega arith) finished-AreDistinct

reorder_complete_example :
    (rb : ReorderBuffer) × (commit_all always finished (drain none 3 new_reorder_buffer) ≡ some rb)
    × (length rb.out ≡ 3)
    × ((i : ℕ) → i < 3 → get_elem? rb.out i ≡ commits_of finished i)
    × (rb.closed ≡ true)
reorder_complete_example =
    reorder_complete always none 3 finished (omega arith) finished-AreDistinct (λ n. refl)
      finished-covered

-- ===== src/Hazard/Accept.antt =====
-- Which batches Build accepts, and what it says of the first operation that it does not.
use khaos.Prelude.{ℕ, suc, ◌+◌, ◌≡◌, ◌≢◌, ◌↔◌, refl, List, [], ◌∷◌, ◌++◌, true, length, arith}
use khaos.Values.{not_dense, unknown_operation_type}
use khaos.Result.{ok, err}
use khaos.Types.{
  OperationType, op_read, op_write, op_delete, undefined, Operation, Graph, new_dag_node,
}
use khaos.Hazard.{BuildState, visit, build_step, build_loop, build_start, collect_runnable, build}
use khaos.Hazard.History.{History}
use khaos.Hazard.Placed.{is_known}
use khaos.Hazard.Invariant.{IsAccepted, pass}
use khaos.Hazard.Correct.{build-Built}

-- From position i on, each operation's SeqID is its position and its type is a declared one.
abbrev pub IsDense : ℕ → List Operation → Type 0
IsDense i [] = Unit
IsDense i (op ∷ batch) = (op.seq_id ≡ i) × (is_known op.type ≡ true) × IsDense (suc i) batch

visit_total :
    (i : ℕ) (op : Operation) (t : OperationType) (s : BuildState)
    → is_known t ≡ true
    → (s' : BuildState) × (visit i op t s ≡ ok s')
unfolding visit
visit_total i op op_read s e = (_, refl)
visit_total i op op_write s e = (_, refl)
visit_total i op op_delete s e = (_, refl)
visit_total i op (undefined n) s e = cc

build_step_total :
    (i : ℕ) (op : Operation) (s : BuildState)
    → op.seq_id ≡ i
    → is_known op.type ≡ true
    → (s' : BuildState) × (build_step i op s ≡ ok s')
unfolding build_step
build_step_total i op s e known =
    let (s', r) =
      visit_total i op op.type (record s { all = s.all ++ new_dag_node op ∷ [] }) known in
    (s', ground arith)

-- A dense prefix is passed, whatever follows.
build_loop-append :
    (i : ℕ) (pre post : List Operation) (s : BuildState)
    → IsDense i pre
    → (s' : BuildState) × (build_loop i (pre ++ post) s ≡ build_loop (length pre + i) post s')
unfolding build_loop
build_loop-append i [] post s d = let e : 0 + i ≡ i = omega arith in (s, rw e)
build_loop-append i (op ∷ pre) post s (e, known, d) =
    let (t, stepped) = build_step_total i op s e known in
    let (s', rest) = build_loop-append (suc i) pre post t d in
    let n : suc (length pre) + i ≡ length pre + suc i = omega arith in (s', rw (stepped, n) rest)

IsAccepted-pass :
    (batch : List Operation) (h : History)
    → IsAccepted (pass batch h)
    → IsDense (length h) batch × IsAccepted h
IsAccepted-pass [] h a = (tt, a)
IsAccepted-pass (op ∷ batch) h a =
    let (dense, (e, known, older)) = IsAccepted-pass batch (op ∷ h) a in ((e, known, dense), older)

build_loop_total :
    (i : ℕ) (batch : List Operation) (s : BuildState)
    → IsDense i batch
    → (s' : BuildState) × (build_loop i batch s ≡ ok s')
unfolding build_loop
build_loop_total i [] s d = (s, refl)
build_loop_total i (op ∷ batch) s (e, known, d) =
    let (t, stepped) = build_step_total i op s e known in
    let (s', rest) = build_loop_total (suc i) batch t d in (s', rw stepped rest)

-- Build returns a result exactly if each operation's SeqID is its position and each type is a
-- read, a write or a delete.
pub build_accepts :
    (batch : List Operation) → ((r : Graph × List ℕ) × (build batch ≡ ok r)) ↔ IsDense 0 batch
unfolding build
build_accepts batch = (
  λ (r, e). (IsAccepted-pass batch [] (build-Built batch e).accepted).0,
  λ d.
      let (s, e) = build_loop_total 0 batch build_start d in
      ((s.all, collect_runnable 0 s.all), rw e),
)

-- After a prefix that Build accepts, an operation whose SeqID is not its position makes Build
-- return the error of a batch that is not dense, with that position and SeqID, and an operation
-- at its position with an undeclared type makes it return the error of an unknown type, whatever
-- follows.
pub build_rejects :
    (pre : List Operation) (op : Operation) (post : List Operation)
    → IsDense 0 pre
    → (op.seq_id ≢ length pre → build (pre ++ op ∷ post) ≡ err (not_dense (length pre) op.seq_id))
      × ((n : ℕ)
          → op.seq_id ≡ length pre
          → op.type ≡ undefined n
          → build (pre ++ op ∷ post) ≡ err (unknown_operation_type (n + 3) op.seq_id))
unfolding build build_loop build_step visit
build_rejects pre op post d =
    let (s, e) = build_loop-append 0 pre (op ∷ post) build_start d in
    let len : length pre + 0 ≡ length pre = omega arith in
    (λ other. rw (e, len) (ground arith), λ n dense t. rw (e, len) (ground arith))

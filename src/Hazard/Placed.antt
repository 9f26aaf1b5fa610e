-- ===== src/Hazard/Placed.antt =====
-- One pass of the switch in Build, against the history.
use khaos.Prelude.{◌≡◌, ap, GoString, [], ◌∷◌, Bool, true, false, length, str_eq_iff, subst, arith}
use khaos.Result.{ok, ok_injective}
use khaos.Types.{OperationType, op_read, op_write, op_delete, undefined, Operation}
use khaos.Hazard.{BuildState, wire_readers, visit_read, visit_write, visit}
use khaos.Hazard.History.{History, writes, last_write_in, reads_in, wired}
use khaos.Hazard.Wiring.{wire_readers-append}

-- The types that Build accepts.
abbrev pub is_known : OperationType → Bool
is_known op_read = true
is_known op_write = true
is_known op_delete = true
is_known (undefined n) = false

-- The maps of Build say what the history says.
pub record Tracks (h : History) (s : BuildState) : Type 0 where
  pub last_writes : (k : GoString) → s.last_write k ≡ last_write_in h k
  pub reads : (k : GoString) → s.last_reads k ≡ reads_in h k

pub record IsPlaced (h : History) (op : Operation) (s s' : BuildState) : Type 0 where
  pub wiring : s'.all ≡ wire_readers (wired h op) (length h) s.all
  pub tracking : Tracks (op ∷ h) s'
  pub known : is_known op.type ≡ true

module _ (h : History) (op : Operation) (s : BuildState) (tracks : Tracks h s) where
  visit_read-wiring :
      writes op.type ≡ false
      → (visit_read (length h) op.key s).all ≡ wire_readers (wired h op) (length h) s.all
  unfolding visit_read wired wire_readers
  visit_read-wiring e =
      rw (e, tracks.last_writes op.key)
        (wire_readers-append (last_write_in h op.key) [] (length h) s.all)

  visit_write-wiring :
      writes op.type ≡ true
      → (visit_write (length h) op.key s).all ≡ wire_readers (wired h op) (length h) s.all
  unfolding visit_write wired
  visit_write-wiring e =
      rw (e, tracks.last_writes op.key, tracks.reads op.key)
        (wire_readers-append (last_write_in h op.key) (reads_in h op.key) (length h) s.all)

  visit_read-Tracks : writes op.type ≡ false → Tracks (op ∷ h) (visit_read (length h) op.key s)
  unfolding visit_read last_write_in reads_in
  visit_read-Tracks e = record {
    last_writes = λ k. ground (arith, tracks.last_writes k);
    reads = λ k. ground (arith, tracks.reads k, tracks.reads op.key, str_eq_iff op.key k);
  }

  visit_write-Tracks : writes op.type ≡ true → Tracks (op ∷ h) (visit_write (length h) op.key s)
  unfolding visit_write last_write_in reads_in
  visit_write-Tracks e = record {
    last_writes = λ k. ground (arith, tracks.last_writes k);
    reads = λ k. ground (arith, tracks.reads k);
  }

  written :
      {s' : BuildState}
      → writes op.type ≡ true
      → is_known op.type ≡ true
      → ok (visit_write (length h) op.key s) ≡ ok s'
      → IsPlaced h op s s'
  written e known r =
      subst (IsPlaced h op s) (ok_injective r)
        (record { wiring = visit_write-wiring e; tracking = visit_write-Tracks e; known = known })

  pub visit-IsPlaced :
      (t : OperationType) {s' : BuildState}
      → op.type ≡ t
      → visit (length h) op t s ≡ ok s'
      → IsPlaced h op s s'
  unfolding visit
  visit-IsPlaced op_read e r =
      let writes_not : writes op.type ≡ false = ap writes e in
      subst (IsPlaced h op s) (ok_injective r) (record {
        wiring = visit_read-wiring writes_not;
        tracking = visit_read-Tracks writes_not;
        known = ap is_known e;
      })
  visit-IsPlaced op_write e r = written (ap writes e) (ap is_known e) r
  visit-IsPlaced op_delete e r = written (ap writes e) (ap is_known e) r
  visit-IsPlaced (undefined n) e r = cc

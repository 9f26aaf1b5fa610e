-- ===== src/Hazard/Order.antt =====
-- Why the hazards are enough: any two conflicting operations of a batch are joined by a path.
use khaos.Prelude.{
  ℕ, zero, suc, ◌<◌, ◌≡◌, refl, ◌⊎◌, inl, inr, Option, some, true, false, arith, Bool-cases,
  Option-cases, GoString, str_eq_iff,
}
use native.Mathlib.Decide.{dec_lt, ℕ_discrete}
use khaos.Types.{Operation}
use khaos.Hazard.History.{conflicts, writes_key}
use khaos.Hazard.Spec.{HazardIn}

-- Two operations of the batch on one key, one of which writes or deletes.
pub record Conflict (op : ℕ → Option Operation) (i j : ℕ) : Type 0 where
  pub earlier : Operation
  pub later : Operation
  pub at_i : op i ≡ some earlier
  pub at_j : op j ≡ some later
  pub ordered : i < j
  pub conflict : conflicts earlier later ≡ true

-- A chain of dependency edges.
pub data Waits (R : ℕ → ℕ → Type 0) (i : ℕ) : ℕ → Type 0 where
  direct : {j : ℕ} → R i j → Waits R i j
  through : {m j : ℕ} → Waits R i m → R m j → Waits R i j

module _ (op : ℕ → Option Operation) where
  abbrev Quiet : GoString → ℕ → ℕ → Type 0
  Quiet k i j = (m : ℕ) (p : Operation) → i < m → m < j → op m ≡ some p → writes_key p k ≡ false

  -- The last write of a key between two positions.
  record LastWrite (k : GoString) (i j : ℕ) : Type 0 where
    place : ℕ
    write : Operation
    after_i : i < place
    before_j : place < j
    at_place : op place ≡ some write
    is_write : writes_key write k ≡ true
    quiet : Quiet k place j

  Quiet-suc :
      (k : GoString) (i j : ℕ)
      → Quiet k i j
      → ((p : Operation) → i < j → op j ≡ some p → writes_key p k ≡ false)
      → Quiet k i (suc j)
  Quiet-suc k i j quiet last m p lt lt' at_m = elim (ℕ_discrete m j) [
    | yes e ↦ last p (omega arith) (rw (← e) at_m)
    | no ne ↦ quiet m p lt (omega arith) at_m
  ]

  LastWrite-suc :
      (k : GoString) (i j : ℕ)
      → LastWrite k i j
      → ((p : Operation) → i < j → op j ≡ some p → writes_key p k ≡ false)
      → LastWrite k i (suc j)
  LastWrite-suc k i j w last = record {
    place = w.place;
    write = w.write;
    after_i = w.after_i;
    before_j = omega (arith, w.before_j);
    at_place = w.at_place;
    is_write = w.is_write;
    quiet = Quiet-suc k w.place j w.quiet (λ p lt. last p (omega (arith, w.after_i)));
  }

  scan_back : (k : GoString) (i j : ℕ) → Quiet k i j ⊎ LastWrite k i j
  scan_back k i zero = inl (λ m p lt lt'. absurd (omega arith))
  scan_back k i (suc j) = elim (at_j (op j) refl) [
    | inl (p, lt, e, w) ↦ inr (record {
      place = j;
      write = p;
      after_i = lt;
      before_j = omega arith;
      at_place = e;
      is_write = w;
      quiet = λ m r lt lt'. absurd (omega arith);
    })
    | inr last ↦ elim (scan_back k i j) [
      | inl quiet ↦ inl (Quiet-suc k i j quiet last)
      | inr w ↦ inr (LastWrite-suc k i j w last)
    ]
  ]
    where
      at_j :
          (o : Option Operation)
          → op j ≡ o
          → ((p : Operation) × (i < j) × (op j ≡ some p) × (writes_key p k ≡ true))
            ⊎ ((p : Operation) → i < j → op j ≡ some p → writes_key p k ≡ false)
      at_j o e = elim (Option-cases o) [
        | inl absent ↦ inr (λ p lt at. absurd (ground arith))
        | inr (p, present) ↦ elim (dec_lt i j) [
          | no outside ↦ inr (λ r lt at. absurd (omega arith))
          | yes lt ↦ elim (Bool-cases (writes_key p k)) [
            | inl w ↦ inl (p, lt, cc, w)
            | inr quiet ↦ inr (λ r lt at. let same : r ≡ p = ground arith in rw same quiet)
          ]
        ]
      ]

  Conflict-Waits_below : (n i j : ℕ) → j < n → Conflict op i j → Waits (HazardIn op) i j
  Conflict-Waits_below zero i j h c = absurd (omega arith)
  Conflict-Waits_below (suc n) i j h c = elim (scan_back c.later.key i j) [
    | inl quiet ↦ Waits.direct (record {
      earlier = c.earlier;
      later = c.later;
      at_i = c.at_i;
      at_j = c.at_j;
      ordered = c.ordered;
      conflict = c.conflict;
      unbroken = quiet;
    })
    | inr w ↦
        let c' : Conflict op i w.place = record {
          earlier = c.earlier;
          later = w.write;
          at_i = c.at_i;
          at_j = w.at_place;
          ordered = w.after_i;
          conflict = ground (
            arith,
            c.conflict,
            w.is_write,
            str_eq_iff c.earlier.key c.later.key,
            str_eq_iff w.write.key c.later.key,
            str_eq_iff c.earlier.key w.write.key,
          );
        } in
        Waits.through (Conflict-Waits_below n i w.place (omega (arith, w.before_j)) c') (record {
          earlier = w.write;
          later = c.later;
          at_i = w.at_place;
          at_j = c.at_j;
          ordered = w.before_j;
          conflict = ground (arith, w.is_write);
          unbroken = w.quiet;
        })
  ]

  pub Conflict-Waits : (i j : ℕ) → Conflict op i j → Waits (HazardIn op) i j
  Conflict-Waits i j c = Conflict-Waits_below (suc j) i j (omega arith) c

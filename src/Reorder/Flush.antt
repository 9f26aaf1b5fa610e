-- ===== src/Reorder/Flush.antt =====
-- The invariant of the buffer against the operations committed so far, and what a flush does to it.
use khaos.Prelude.{
  ℕ, zero, suc, ◌^◌, ◌≤◌, ◌<◌, ◌≡◌, refl, sym, ◌∙◌, [], ◌∷◌, Option, none, some, Bool, true, false,
  length, get_elem?, get_elem?-snoc, length-append, ◌==◌, arith, Option-cases, Bool-cases, inl, inr,
}
use khaos.Types.{Operation}
use khaos.Reorder.{Pending, ReorderBuffer, lookup, remove, deliver, flush}
use khaos.Reorder.Pending.{lookup-remove, length-remove-lt}

-- The operations committed so far, by sequence number.
abbrev pub Committed : Type 0
Committed = ℕ → Option Operation

-- The output is the committed operations from 0 on, in order; the rest of them wait or, after a
-- cancelled send, are lost.
pub record IsOrdered (committed : Committed) (rb : ReorderBuffer) : Type 0 where
  pub delivered : length rb.out ≡ rb.next_expected
  pub counted : rb.flushed ≡ rb.next_expected
  pub within : rb.next_expected ≤ rb.total
  pub small : rb.total < 2 ^ 63
  pub finishes : rb.closed ≡ (rb.flushed == rb.total)
  pub in_order : (i : ℕ) → i < rb.next_expected → get_elem? rb.out i ≡ committed i
  pub waiting :
      (i : ℕ) (op : Operation)
      → lookup i rb.pending ≡ some op
      → (committed i ≡ some op) × (rb.next_expected ≤ i)
  pub in_range : (i : ℕ) (op : Operation) → committed i ≡ some op → i < rb.total

-- Every committed operation has been delivered or waits.
abbrev pub IsComplete : Committed → ReorderBuffer → Type 0
IsComplete committed rb = (i : ℕ) → rb.next_expected ≤ i → lookup i rb.pending ≡ committed i

-- `delete(rb.pending, rb.nextExpected)`
abbrev take_next : ReorderBuffer → ReorderBuffer
take_next rb = record rb { pending = remove rb.next_expected rb.pending }

module _ (committed : Committed) (rb : ReorderBuffer) (inv : IsOrdered committed rb) where
  taken-IsOrdered : IsOrdered committed (take_next rb)
  taken-IsOrdered = record {
    delivered = inv.delivered;
    counted = inv.counted;
    within = inv.within;
    small = inv.small;
    finishes = inv.finishes;
    in_order = inv.in_order;
    waiting =
        λ i op e. ground (arith, lookup-remove rb.next_expected rb.pending i, inv.waiting i op);
    in_range = inv.in_range;
  }

  module _ (op : Operation) (at_next : lookup rb.next_expected rb.pending ≡ some op) where
    -- The channel is open while an operation waits to be sent.
    taken-open : rb.closed ≡ false
    taken-open =
        let (here, _) = inv.waiting rb.next_expected op at_next in
        ground (arith, inv.finishes, inv.counted, inv.in_range rb.next_expected op here)

    deliver-IsOrdered : IsOrdered committed (deliver op (take_next rb))
    unfolding deliver
    deliver-IsOrdered =
        let (here, _) = inv.waiting rb.next_expected op at_next in
        let lt = inv.in_range rb.next_expected op here in
        record {
          delivered = omega (arith, length-append rb.out (op ∷ []), inv.delivered, inv.small, lt);
          counted = ground (arith, inv.counted, inv.small);
          within = omega (arith, lt, inv.small);
          small = inv.small;
          finishes = rw taken-open (ground arith);
          in_order = λ i below. ground (
            arith,
            get_elem?-snoc rb.out op i,
            inv.delivered,
            inv.in_order i,
            here,
            inv.small,
            lt,
          );
          waiting = λ i o e.
              ground (
                arith,
                lookup-remove rb.next_expected rb.pending i,
                inv.waiting i o,
                inv.small,
                lt,
              );
          in_range = inv.in_range;
        }

    deliver-IsComplete : IsComplete committed rb → IsComplete committed (deliver op (take_next rb))
    unfolding deliver
    deliver-IsComplete full i le =
        ground (arith, lookup-remove rb.next_expected rb.pending i, full i, inv.within, inv.small)

deliver_fields :
    (op : Operation) (rb : ReorderBuffer)
    → ((deliver op (take_next rb)).pending ≡ remove rb.next_expected rb.pending)
      × ((deliver op (take_next rb)).total ≡ rb.total)
unfolding deliver
deliver_fields op rb = (refl, refl)

-- What a flush leaves: the invariant, and, where no send was cancelled, a gap at the next number.
pub record Flushed (committed : Committed) (sends : ℕ → Bool) (rb rb' : ReorderBuffer)
    : Type 0 where
  pub ordered : IsOrdered committed rb'
  pub total_kept : rb'.total ≡ rb.total
  pub settles :
      ((n : ℕ) → sends n ≡ true)
      → IsComplete committed rb
      → IsComplete committed rb' × (committed rb'.next_expected ≡ none)

flush_stops :
    (committed : Committed) (sends : ℕ → Bool) (rb : ReorderBuffer)
    → IsOrdered committed rb
    → lookup rb.next_expected rb.pending ≡ none
    → Flushed committed sends rb rb
flush_stops committed sends rb inv gap = record {
  ordered = inv;
  total_kept = refl;
  settles = λ all full. (full, sym (full rb.next_expected (omega arith)) ∙ gap);
}

-- With fuel for every pending entry the loop ends, without a panic.
pub flush_enough :
    (committed : Committed) (sends : ℕ → Bool) (fuel : ℕ) (rb : ReorderBuffer)
    → length rb.pending ≤ fuel
    → IsOrdered committed rb
    → (rb' : ReorderBuffer) × (flush fuel sends rb ≡ some rb') × Flushed committed sends rb rb'
unfolding flush
flush_enough committed sends zero rb h inv =
    (rb, refl, flush_stops committed sends rb inv (nothing rb.pending h))
  where
    nothing : (m : Pending) → length m ≤ 0 → lookup rb.next_expected m ≡ none
    nothing [] e = refl
    nothing (x ∷ m) e = absurd (omega arith)
flush_enough committed sends (suc fuel) rb h inv =
    elim (Option-cases (lookup rb.next_expected rb.pending)) [
      | inl gap ↦ (rb, rw (gap, flush), flush_stops committed sends rb inv gap)
      | inr (op, at_next) ↦ elim (Bool-cases (sends rb.next_expected)) [
        | inl sent ↦
            let ordered = deliver-IsOrdered committed rb inv op at_next in
            let fewer = length-remove-lt rb.next_expected rb.pending op at_next in
            let (rb', e, rest) =
              flush_enough committed sends fuel (deliver op (take_next rb))
                (ground (arith, fewer, deliver_fields op rb)) ordered in
            (
              rb',
              rw (at_next, sent, taken-open committed rb inv op at_next, flush) e,
              record {
                ordered = rest.ordered;
                total_kept = rest.total_kept ∙ (deliver_fields op rb).1;
                settles = λ all full.
                    rest.settles all (deliver-IsComplete committed rb inv op at_next full);
              },
            )
        | inr stopped ↦ (
          take_next rb,
          rw (at_next, stopped, flush),
          record {
            ordered = taken-IsOrdered committed rb inv;
            total_kept = refl;
            settles = λ all full. absurd (ground (arith, all rb.next_expected));
          },
        )
      ]
    ]

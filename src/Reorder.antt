-- ===== src/Reorder.antt =====
-- reorder.go: InOrderReorderBuffer. Commit holds the mutex throughout, so each call is one step.
pub mod Pending
pub mod Correct
pub mod Flush
use khaos.Prelude.{
  ℕ, zero, suc, ◌+◌, ◌%◌, ◌^◌, List, [], ◌∷◌, ◌++◌, Option, none, some, Bool, true, false, not,
  ◌&&◌, length, ◌==◌, if◌then◌else◌,
}
use khaos.Storage.{Context}
use khaos.Types.{Operation, DagNode, increment}

-- `map[uint64]Operation`, an association list with one entry for a key.
abbrev pub Pending : Type 0
Pending = List (ℕ × Operation)

abbrev pub lookup : ℕ → Pending → Option Operation
lookup k [] = none
lookup k ((j, op) ∷ m) = if j == k then some op else lookup k m

abbrev pub remove : ℕ → Pending → Pending
remove k [] = []
remove k ((j, op) ∷ m) = let rest = remove k m in if j == k then rest else (j, op) ∷ rest

-- `pending[k] = op`
abbrev pub insert : ℕ → Operation → Pending → Pending
insert k op m = (k, op) ∷ remove k m

pub record ReorderBuffer : Type 0 where
  pub pending : Pending
  pub next_expected : ℕ  -- uint64
  pub flushed : ℕ  -- the 64 bits of an int
  pub total : ℕ  -- an int that is a length
  pub out : List Operation  -- what the channel has delivered so far
  pub closed : Bool  -- the channel is closed
  pub ctx : Context

unfoldable pub new_reorder_buffer : ReorderBuffer
new_reorder_buffer = record {
  pending = [];
  next_expected = 0;
  flushed = 0;
  total = 0;
  out = [];
  closed = false;
  ctx = none;
}

unfoldable pub drain : Context → ℕ → ReorderBuffer → ReorderBuffer
drain ctx total rb = record rb {
  ctx = ctx;
  total = total;
  closed = if total == 0 && not rb.closed then true else rb.closed;
}

-- The send branch of the select, after the operation has been received.
unfoldable pub deliver : Operation → ReorderBuffer → ReorderBuffer
deliver op rb =
    let flushed' = increment rb.flushed in
    record rb {
      out = rb.out ++ op ∷ [];
      next_expected = (rb.next_expected + 1) % 2 ^ 64;
      flushed = flushed';
      closed = if flushed' == rb.total && not rb.closed then true else rb.closed;
    }

-- The loop of Commit. `sends n` says which branch the select takes at sequence number n: the send,
-- once the consumer receives, or the end of the context. `none` is the panic of a send on a closed
-- channel. Every round removes an entry of `pending`, so its length is fuel enough (flush_enough).
unfoldable pub flush : ℕ → (ℕ → Bool) → ReorderBuffer → Option ReorderBuffer
flush zero sends rb = some rb
flush (suc fuel) sends rb = elim (lookup rb.next_expected rb.pending) [
  | none ↦ some rb
  | some op ↦
      let rb' = record rb { pending = remove rb.next_expected rb.pending } in
      elim (sends rb.next_expected) [
        | false ↦ some rb'
        | true ↦ elim rb.closed [ true ↦ none | false ↦ flush fuel sends (deliver op rb') ]
      ]
]

unfoldable pub commit : (ℕ → Bool) → DagNode → ReorderBuffer → Option ReorderBuffer
unfolding flush deliver
commit sends node rb =
    let rb' = record rb { pending = insert node.seq_id node.operation rb.pending } in
    flush (length rb'.pending) sends rb'

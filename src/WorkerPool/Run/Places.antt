-- ===== src/WorkerPool/Run/Places.antt =====
-- Where each node of the batch is while the workers run.
use khaos.Prelude.{ℕ, ◌≤◌, ◌≡◌, refl, ap, List, [], Bool, true, false, count, to_nat, ◌==◌, arith}
use khaos.WorkerPool.Run.{
  Pc, waiting, executing, releasing, committing, sending, closing_queue, exited,
}

-- A node waits for its predecessors, is in the newly runnable list of a worker, in the queue, in the
-- hands of a worker, or finished.
pub data Place : Type 0 where
  waits : Place
  ready : (w : ℕ) → Place
  queued : Place
  held : (w : ℕ) → Place
  finished : Place

-- The node in a worker's hands is n.
abbrev pub holds : ℕ → Pc → Bool
holds n waiting = false
holds n (executing m) = m == n
holds n (releasing m deps newly) = m == n
holds n (committing m newly) = m == n
holds n (sending m next) = m == n
holds n closing_queue = false
holds n exited = false

-- The nodes that a worker has made runnable and not sent yet.
abbrev pub listed_at : Pc → List ℕ
listed_at waiting = []
listed_at (executing n) = []
listed_at (releasing n deps newly) = newly
listed_at (committing n newly) = newly
listed_at (sending n next) = next
listed_at closing_queue = []
listed_at exited = []

-- The edges of the node in hand, all of which are `full`, that are not released yet.
abbrev pub edges_at : List ℕ → Pc → List ℕ
edges_at full waiting = []
edges_at full (executing n) = full
edges_at full (releasing n deps newly) = deps
edges_at full (committing n newly) = []
edges_at full (sending n next) = []
edges_at full closing_queue = []
edges_at full exited = []

-- What has been done with the node in hand: executed, closed, committed.
abbrev pub has_run : Pc → Bool
has_run (executing n) = false
has_run _ = true

abbrev pub has_closed : Pc → Bool
has_closed (executing n) = false
has_closed (releasing n deps newly) = false
has_closed _ = true

abbrev pub has_committed : Pc → Bool
has_committed (executing n) = false
has_committed (releasing n deps newly) = false
has_committed (committing n newly) = false
has_committed _ = true

abbrev pub is_waits : Place → Bool
is_waits waits = true
is_waits (ready w) = false
is_waits queued = false
is_waits (held w) = false
is_waits finished = false

abbrev pub is_ready : ℕ → Place → Bool
is_ready w waits = false
is_ready w (ready v) = v == w
is_ready w queued = false
is_ready w (held v) = false
is_ready w finished = false

abbrev pub is_queued : Place → Bool
is_queued waits = false
is_queued (ready v) = false
is_queued queued = true
is_queued (held v) = false
is_queued finished = false

abbrev pub is_held : ℕ → Place → Bool
is_held w waits = false
is_held w (ready v) = false
is_held w queued = false
is_held w (held v) = v == w
is_held w finished = false

abbrev pub unfinished : Place → Bool
unfinished finished = false
unfinished waits = true
unfinished (ready v) = true
unfinished queued = true
unfinished (held v) = true

-- What a worker's state says of the node in its hands, and what holds before and after.
abbrev pub in_place {ℓ} : {A : Type ℓ} → (Pc → A) → A → A → (ℕ → Pc) → Place → A
in_place f before after pcs waits = before
in_place f before after pcs (ready w) = before
in_place f before after pcs queued = before
in_place f before after pcs (held w) = f (pcs w)
in_place f before after pcs finished = after

-- The edges from a node, all of which are `full`, that are not released yet.
abbrev pub edges_left : List ℕ → (ℕ → Pc) → Place → List ℕ
edges_left full = in_place (edges_at full) full []

abbrev pub ran : (ℕ → Pc) → Place → Bool
ran = in_place has_run false true

abbrev pub shut : (ℕ → Pc) → Place → Bool
shut = in_place has_closed false true

abbrev pub sent : (ℕ → Pc) → Place → Bool
sent = in_place has_committed false true

-- Each node is where its place says, once, and nowhere else.
pub record Holders (workers size : ℕ) (place : ℕ → Place) (pcs : ℕ → Pc) (queue : List ℕ)
    : Type 0 where
  pub outside : (j : ℕ) → size ≤ j → place j ≡ finished
  pub idle : (w : ℕ) → workers ≤ w → pcs w ≡ waiting
  pub hands : (w j : ℕ) → holds j (pcs w) ≡ is_held w (place j)
  pub lists : (w j : ℕ) → count j (listed_at (pcs w)) ≡ to_nat (is_ready w (place j))
  pub line : (j : ℕ) → count j queue ≡ to_nat (is_queued (place j))

pub held_of : (w : ℕ) (p : Place) → is_held w p ≡ true → p ≡ held w
held_of w waits e = cc
held_of w (ready v) e = cc
held_of w queued e = cc
held_of w (held v) e = let same : v ≡ w = ground arith in ap held same
held_of w finished e = cc

pub waits_of : (p : Place) → is_waits p ≡ true → p ≡ waits
waits_of waits e = refl
waits_of (ready v) e = cc
waits_of queued e = cc
waits_of (held v) e = cc
waits_of finished e = cc

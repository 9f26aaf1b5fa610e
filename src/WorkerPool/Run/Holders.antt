-- ===== src/WorkerPool/Run/Holders.antt =====
-- Each step of a worker keeps every node in one place.
use khaos.Prelude.{ℕ, ◌<◌, ◌≡◌, ap, List, [], ◌∷◌, ◌++◌, true, false, set_at, arith, count-append}
use khaos.WorkerPool.Run.{Pc, waiting, executing, releasing, sending}
use khaos.WorkerPool.Run.Places.{
  Place, ready, queued, held, finished, holds, listed_at, is_waits, is_ready, is_held, Holders,
}

module _ {workers size : ℕ} {place : ℕ → Place} {pcs : ℕ → Pc} {queue : List ℕ}
    (h : Holders workers size place pcs queue) (w : ℕ) (lt : w < workers) where
  open h use {outside, idle, hands, lists, line}

  -- The worker goes on, with the same node and the same list.
  pub stay-Holders :
      (p p' : Pc)
      → pcs w ≡ p
      → ((j : ℕ) → holds j p' ≡ holds j p)
      → listed_at p' ≡ listed_at p
      → Holders workers size place (set_at w p' pcs) queue
  stay-Holders p p' at same_node same_list = record {
    outside = outside;
    idle = λ v le. ground (arith, idle v);
    hands = λ v j. ground (arith, hands v j, same_node j, ap (holds j) at);
    lists = λ v j. ground (arith, lists v j, ap listed_at at);
    line = line;
  }

  pub receive-Holders :
      (n : ℕ) (rest : List ℕ)
      → pcs w ≡ waiting
      → queue ≡ n ∷ rest
      → Holders workers size (set_at n (held w) place) (set_at w (executing n) pcs) rest
  receive-Holders n rest at q = record {
    outside = λ j le. ground (arith, outside j, line j);
    idle = λ v le. ground (arith, idle v);
    hands = λ v j. ground (arith, hands v j, hands w j, line j, ap (holds j) at);
    lists = λ v j. ground (arith, lists v j, lists w j, line j, ap listed_at at);
    line = λ j. ground (arith, line j, line n);
  }

  -- A node whose last edge is released goes to the list.
  pub ready-Holders :
      (n d : ℕ) (deps newly : List ℕ)
      → pcs w ≡ releasing n (d ∷ deps) newly
      → is_waits (place d) ≡ true
      → Holders workers size
          (set_at d (ready w) place)
          (set_at w (releasing n deps (newly ++ d ∷ [])) pcs)
          queue
  ready-Holders n d deps newly at wait = record {
    outside = λ j le. ground (arith, outside j);
    idle = λ v le. ground (arith, idle v);
    hands = λ v j. ground (arith, hands v j, ap (holds j) at);
    lists = λ v j. ground (arith, lists v j, count-append j newly (d ∷ []), ap listed_at at);
    line = λ j. ground (arith, line j);
  }

  -- A node goes from the list to the queue.
  pub send-Holders :
      (n m : ℕ) (next : List ℕ)
      → pcs w ≡ sending n (m ∷ next)
      → Holders workers size
          (set_at m queued place)
          (set_at w (sending n next) pcs)
          (queue ++ m ∷ [])
  send-Holders n m next at =
      let listed : is_ready w (place m) ≡ true = ground (arith, lists w m, ap listed_at at) in
      record {
        outside = λ j le. ground (arith, outside j);
        idle = λ v le. ground (arith, idle v);
        hands = λ v j. ground (arith, hands v j, ap (holds j) at);
        lists = λ v j. ground (arith, lists v j, lists w j, ap listed_at at);
        line = λ j. ground (arith, line j, count-append j queue (m ∷ []));
      }

  -- The node in hand is finished.
  pub finish-Holders :
      (n : ℕ) (p' : Pc)
      → pcs w ≡ sending n []
      → listed_at p' ≡ []
      → ((j : ℕ) → holds j p' ≡ false)
      → Holders workers size (set_at n finished place) (set_at w p' pcs) queue
  finish-Holders n p' at no_list no_node =
      let in_hand : is_held w (place n) ≡ true = ground (arith, hands w n, ap (holds n) at) in
      record {
        outside = λ j le. ground (arith, outside j);
        idle = λ v le. ground (arith, idle v);
        hands = λ v j. ground (arith, hands v j, hands w j, no_node j, ap (holds j) at);
        lists = λ v j. ground (arith, lists v j, ap listed_at at);
        line = λ j. ground (arith, line j);
      }

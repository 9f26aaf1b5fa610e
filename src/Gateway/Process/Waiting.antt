-- ===== src/Gateway/Process/Waiting.antt =====
-- api/main.go: what waitForDB returns, by the pings and the ends of its context.
use khaos.Prelude.{
  ◌≡◌, ◌≢◌, ◌↔◌, refl, ap, ◌∙◌, List, [], ◌∷◌, ◌++◌, Option, none, some, Bool, true, false, All,
}
use khaos.Values.{Error, giving_up}
use khaos.Gateway.Process.{Round, after_ping, wait_for_db}

-- The ping fails, and the context has not ended.
abbrev pub Waits : Round → Type 0
Waits r = (r.ping ≢ none) × (r.gives_up ≡ false)

-- The ping succeeds, or it fails with an error that is the last one.
abbrev pub Decides : Round → Option Error → Type 0
Decides r none = r.ping ≡ none
Decides r (some e) =
    (last : Error) × (r.ping ≡ some last) × (r.gives_up ≡ true) × (e ≡ giving_up last)

abbrev pub Ended : List Round → Option Error → Type 0
Ended rounds outcome =
    (before : List Round) × (r : Round) × (after : List Round) × (rounds ≡ before ++ r ∷ after)
    × All Waits before
    × Decides r outcome

-- One more round.
after_ping_lem :
    (ping : Option Error) (gives_up : Bool) (rounds : List Round) (outcome : Option Error)
    → (wait_for_db rounds ≡ some outcome → Ended rounds outcome)
    → after_ping ping gives_up (wait_for_db rounds) ≡ some outcome
    → Ended (record { ping = ping; gives_up = gives_up } ∷ rounds) outcome
after_ping_lem none g rounds none rest e = ([], _, rounds, refl, tt, refl)
after_ping_lem none g rounds (some x) rest e = cc
after_ping_lem (some last) true rounds none rest e = cc
after_ping_lem (some last) true rounds (some x) rest e =
    ([], _, rounds, refl, tt, (last, refl, refl, cc))
after_ping_lem (some last) false rounds outcome rest e =
    let (before, r, after, split, waited, decides) = rest e in
    let q : Round = record { ping = some last; gives_up = false } in
    (q ∷ before, r, after, ap (λ l. q ∷ l) split, ((λ h. cc, refl), waited), decides)

ended :
    (rounds : List Round) (outcome : Option Error)
    → wait_for_db rounds ≡ some outcome
    → Ended rounds outcome
unfolding wait_for_db
ended [] outcome e = cc
ended (r ∷ rounds) outcome e =
    after_ping_lem r.ping r.gives_up rounds outcome (ended rounds outcome) e

decided :
    (r : Round) (rest : Option (Option Error)) (outcome : Option Error)
    → Decides r outcome
    → after_ping r.ping r.gives_up rest ≡ some outcome
decided r rest none e = rw e refl
decided r rest (some x) (last, ping, gives_up, same) = rw (ping, gives_up, same) refl

goes_on :
    (ping : Option Error) (gives_up : Bool) (rest : Option (Option Error))
    → ping ≢ none
    → gives_up ≡ false
    → after_ping ping gives_up rest ≡ rest
goes_on none gives_up rest failed on = absurd (failed refl)
goes_on (some e) true rest failed on = cc
goes_on (some e) false rest failed on = refl

waited_on :
    (before : List Round) (r : Round) (after : List Round) (outcome : Option Error)
    → All Waits before
    → Decides r outcome
    → wait_for_db (before ++ r ∷ after) ≡ some outcome
unfolding wait_for_db
waited_on [] r after outcome waited decides = decided r _ outcome decides
waited_on (q ∷ before) r after outcome ((failed, on), waited) decides =
    goes_on q.ping q.gives_up _ failed on ∙ waited_on before r after outcome waited decides

-- waitForDB returns an outcome exactly if some round decides on it and in every round before it the
-- ping failed and the select did not take the end of the context: no error where the ping of that
-- round succeeded, and the last error, wrapped, where it failed and the select took the end of the
-- context.
pub wait_for_db_lem :
    (rounds : List Round) (outcome : Option Error)
    → wait_for_db rounds ≡ some outcome ↔ (
        (before : List Round) × (r : Round) × (after : List Round) × (rounds ≡ before ++ r ∷ after)
        × All Waits before
        × Decides r outcome)
wait_for_db_lem rounds outcome = (
  ended rounds outcome,
  λ (before, r, after, split, waited, decides).
      ap wait_for_db split ∙ waited_on before r after outcome waited decides,
)

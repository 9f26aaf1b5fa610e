-- ===== src/Simulator/Verdict.antt =====
-- cmd/simulator/main.go: the exit status and the last line of the report.
use khaos.Prelude.{
  ◌^◌, ◌<◌, ◌≡◌, ◌↔◌, refl, List, [], ◌∷◌, Bool, true, false, length, leb, ◌==◌, All, arith,
}
use khaos.Simulator.{
  Reply, Clients, Reach, start_clients, AllDone, exit_status, clean_sweep, remark_of,
}
use khaos.Simulator.Totals.{
  number_of, number_of-le, has_code, has_timed_out, has_failed, simulation_totals,
}

All-number_of {ℓ} :
    {A : Type ℓ} (p : A → Bool) (xs : List A)
    → number_of p xs ≡ length xs ↔ All (λ x. p x ≡ true) xs
All-number_of p [] = (λ e. tt, λ all. refl)
All-number_of p (x ∷ xs) = (
  λ e. (
    ground (arith, number_of-le p xs),
    (All-number_of p xs).0 (ground (arith, number_of-le p xs)),
  ),
  λ (here, rest). let r = (All-number_of p xs).1 rest in ground arith,
)

none-number_of {ℓ} :
    {A : Type ℓ} (p o : A → Bool) (xs : List A)
    → ((x : A) → p x ≡ true → o x ≡ false)
    → All (λ x. p x ≡ true) xs
    → number_of o xs ≡ 0
none-number_of p o [] apart all = refl
none-number_of p o (x ∷ xs) apart (here, rest) =
    let e = apart x here in ground (arith, none-number_of p o xs apart rest)

abbrev pub got_200 : Reply → Bool
got_200 = has_code (λ c. c == 200)

-- Fewer than 2^63 clients run, and all are done, in whatever order their updates came. Then the
-- process exits with status 0 exactly if every client got a response with status 200, and exactly
-- then the report ends with the clean sweep.
pub simulation_verdict :
    (replies : List Reply)
    → length replies < 2 ^ 63
    → {q : Clients} → Reach (start_clients replies) q
    → AllDone q
    → (exit_status q.metrics (length replies) ≡ 0 ↔ All (λ r. got_200 r ≡ true) replies)
      × (remark_of q.metrics (length replies) ≡ clean_sweep ↔ All (λ r. got_200 r ≡ true) replies)
unfolding exit_status remark_of
simulation_verdict replies few {q} r done =
    let (sent, good, bad, client, late, lost, codes, times) =
      simulation_totals replies few r done in
    let (there, back) = All-number_of got_200 replies in
    (
      (λ e. there (ground arith), λ all. let w = back all in ground arith),
      (
        λ e. there (ground arith),
        λ all.
            let w = back all in
            let b =
              none-number_of got_200 (has_code (λ c. leb 500 c)) replies (λ r e. ground arith)
                all in
            let l = none-number_of got_200 has_timed_out replies (λ r e. ground arith) all in
            let f = none-number_of got_200 has_failed replies (λ r e. ground arith) all in
            ground arith,
      ),
    )

-- ===== src/Kad/Query/Answers.antt =====
-- kad_query.go: what a search has done at any time, and what it returns at its end.
use holochain.Base.{
  Bytes, ℕ, ◌+◌, ◌*◌, ◌≤◌, ◌≡◌, ◌∙◌, refl, ap, subst, List, [], ◌∷◌, Bool, ◌&&◌, ◌==◌, ltb, arith,
  none, if◌then◌else◌, length,
}
use holochain.Base.Result.{ok}
use holochain.Kad.Query.{
  Runner, Worker, QueryEvent, new_query_runner, start_run, run, answer, final_set, first_error,
}
use holochain.Kad.Query.Counts.{count, names, active, failed, ahead}
use holochain.Kad.Query.Sound.{IsSound, start_run-IsSound, run-IsSound}
use holochain.Kad.Query.Pays.{Follows, steps, cost, add_peers-Follows, run-Follows}

module _ (peers : List (Bytes × Bool)) (self : Bytes) (concurrency : ℕ) (es : List QueryEvent)
    (r : Runner) (runs : run es (start_run peers (new_query_runner self concurrency)) ≡ ok r) where
  pub run-sound : IsSound r
  run-sound = run-IsSound es _ r (start_run-IsSound peers self concurrency) runs

  started :
      Follows 0
        (record (new_query_runner self concurrency) { tokens = concurrency })
        (start_run peers (new_query_runner self concurrency))
  unfolding start_run new_query_runner
  started = add_peers-Follows peers _

  pub run-setup : (r.self ≡ self) × (r.concurrency ≡ concurrency)
  unfolding new_query_runner
  run-setup =
      let f = run-Follows es _ r runs in
      (f.self ∙ started.self, f.concurrency ∙ started.concurrency)

  -- Whatever steps a search takes from its start, no peer is more than once among those that wait,
  -- are asked and were asked, and the node itself is never asked.
  pub run-once :
      (q : Bytes)
      → (count q r.queue + count q (names r.workers) + count q (names r.finished) ≤ 1)
        × (count self (names r.workers) + count self (names r.finished) ≡ 0)
  run-once q =
      let v = run-sound in
      let none : count self r.seen ≡ 0 = subst (λ s. count s r.seen ≡ 0) run-setup.0 v.not_self in
      (omega (arith, v.counts q, v.once q), omega (arith, v.counts self, none))

  -- At most as many peers as the search started with tokens are asked at the same time.
  pub run-bounded : active r.workers ≤ concurrency
  run-bounded = omega (arith, run-sound.tokens, run-setup.1)

  -- A search that has seen n peers has taken no more than 6 n + 1 steps, the end of its context
  -- not counted.
  pub run-steps : steps es ≤ 6 * length r.seen + 1
  unfolding new_query_runner ahead
  run-steps =
      let start : cost (record (new_query_runner self concurrency) { tokens = concurrency }) ≡ 1 =
        refl in
      omega (arith, (run-Follows es _ r runs).pays, started.pays, start)

-- Counts that agree are positive together.
all_failed :
    (f n errs seen : ℕ)
    → errs ≡ f
    → seen ≡ n
    → (ltb 0 errs && errs == seen) ≡ (ltb 0 seen && f == n)
all_failed f n errs seen h k = ground arith

-- A list of no length.
count-none : (q : Bytes) (ps : List Bytes) → length ps ≡ 0 → count q ps ≡ 0
unfolding count
count-none q [] h = refl
count-none q (p ∷ ps) h = absurd (omega arith)

workers-none :
    (q : Bytes) (ws : List Worker) → length ws ≡ 0 → (count q (names ws) ≡ 0) × (failed ws ≡ 0)
unfolding count failed
workers-none q [] h = (refl, refl)
workers-none q (w ∷ ws) h = absurd (omega arith)

answer-none :
    (r : Runner)
    → r.found ≡ none
    → answer r
      ≡ final_set r.seen (
          if ltb 0 (length r.errs) && length r.errs == length r.seen
          then first_error r.errs
          else none)
unfolding answer
answer-none r h = rw h refl

module _ (peers : List (Bytes × Bool)) (self : Bytes) (concurrency : ℕ) (es : List QueryEvent)
    (r : Runner) (runs : run es (start_run peers (new_query_runner self concurrency)) ≡ ok r) where
  -- Once the counter of a search is down and it found no result, every peer that it saw was asked,
  -- and it returns the peers that it saw, with the first error exactly if it saw one and all of
  -- them failed.
  pub run-answer :
      r.remaining ≡ 0
      → r.found ≡ none
      → ((q : Bytes) → count q r.seen ≡ count q (names r.finished))
        × (answer r
            ≡ final_set r.seen (
                if ltb 0 (length r.seen) && failed r.finished == length r.finished
                then first_error r.errs
                else none))
  run-answer done unfound =
      let v = run-sound peers self concurrency es r runs in
      let idle = workers-none [] r.workers (omega (arith, v.remaining)) in
      let errors : length r.errs ≡ failed r.finished = omega (arith, v.errors, idle.1) in
      let size : length r.seen ≡ length r.finished = omega (arith, v.size, v.remaining) in
      (
        λ q. omega (
          arith,
          v.counts q,
          count-none q r.queue (omega (arith, v.remaining)),
          (workers-none q r.workers (omega (arith, v.remaining))).0,
          count-none q r.lost (omega (arith, v.remaining)),
        ),
        answer-none r unfound
            ∙ ap (λ b. final_set r.seen (if b then first_error r.errs else none))
                (all_failed (failed r.finished) (length r.finished) _ _ errors size),
      )

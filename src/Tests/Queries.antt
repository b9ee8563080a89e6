-- ===== src/Tests/Queries.antt =====
-- The theorems on searches among peers, on a search that starts with two peers.
use holochain.Base.{
  Bytes, ◌+◌, ◌*◌, ◌≤◌, ◌≡◌, refl, List, [], ◌∷◌, true, false, none, ◌&&◌, ◌==◌, ltb, if◌then◌else◌,
  length, bytes_equal, arith,
}
use holochain.Base.Result.{Result, ok}
use holochain.Kad.Query.{
  Runner, QueryEvent, closer, takes_token, spawns, connected, dials, dial_failed, regains, answered,
  finishes, new_query_runner, start_run, run, answer, final_set, first_error,
}
use holochain.Kad.Query.Counts.{count, names, active, failed}
use holochain.Kad.Query.Pays.{steps}
use holochain.Kad.Query.Answers.{run-once, run-bounded, run-steps, run-answer}
use holochain.Kad.Query.Progress.{CanStep, run-CanStep}

abbrev me : Bytes
me = 0 ∷ []

abbrev ann : Bytes
ann = 1 ∷ []

abbrev bob : Bytes
bob = 2 ∷ []

-- Ann answers with Bob, who cannot be reached, and with the node itself; the last event first.
abbrev first_half : List QueryEvent
first_half =
    dials bob
    ∷ finishes ann false
    ∷ answered ann (closer ((bob, false) ∷ (me, false) ∷ []))
    ∷ spawns bob
    ∷ takes_token
    ∷ connected ann
    ∷ spawns ann
    ∷ takes_token
    ∷ []

abbrev whole : List QueryEvent
whole = finishes bob true ∷ regains bob ∷ dial_failed bob 5 ∷ first_half

abbrev start : Runner
start = start_run ((ann, false) ∷ (bob, false) ∷ (ann, false) ∷ []) (new_query_runner me 3)

abbrev end_of : Result Runner → Runner
end_of (ok r) = r
end_of _ = new_query_runner me 3

abbrev halfway : Runner
halfway = end_of (run first_half start)

abbrev ended : Runner
ended = end_of (run whole start)

first_half-run : run first_half start ≡ ok halfway
unfolding run start_run new_query_runner bytes_equal
first_half-run = refl

whole-run : run whole start ≡ ok ended
unfolding run start_run new_query_runner bytes_equal
whole-run = refl

halfway-left : halfway.remaining ≡ 1
unfolding run start_run new_query_runner bytes_equal
halfway-left = refl

halfway-closing : halfway.closing ≡ false
unfolding run start_run new_query_runner bytes_equal
halfway-closing = refl

ended-left : ended.remaining ≡ 0
unfolding run start_run new_query_runner bytes_equal
ended-left = refl

ended-found : ended.found ≡ none
unfolding run start_run new_query_runner bytes_equal
ended-found = refl

run-once_example :
    (count ann halfway.queue
        + count ann (names halfway.workers)
        + count ann (names halfway.finished)
      ≤ 1)
    × (count me (names halfway.workers) + count me (names halfway.finished) ≡ 0)
run-once_example =
    run-once ((ann, false) ∷ (bob, false) ∷ (ann, false) ∷ []) me 3 first_half halfway
      first_half-run ann

run-bounded_example : active halfway.workers ≤ 3
run-bounded_example =
    run-bounded ((ann, false) ∷ (bob, false) ∷ (ann, false) ∷ []) me 3 first_half halfway
      first_half-run

run-steps_example : steps whole ≤ 6 * length ended.seen + 1
run-steps_example =
    run-steps ((ann, false) ∷ (bob, false) ∷ (ann, false) ∷ []) me 3 whole ended whole-run

run-answer_example :
    ((q : Bytes) → count q ended.seen ≡ count q (names ended.finished))
    × (answer ended
        ≡ final_set ended.seen (
            if ltb 0 (length ended.seen) && failed ended.finished == length ended.finished
            then first_error ended.errs
            else none))
run-answer_example =
    run-answer ((ann, false) ∷ (bob, false) ∷ (ann, false) ∷ []) me 3 whole ended whole-run
      ended-left ended-found

run-CanStep_example : CanStep halfway
run-CanStep_example =
    run-CanStep ((ann, false) ∷ (bob, false) ∷ (ann, false) ∷ []) me 3 first_half halfway
      first_half-run (omega arith) halfway-closing (omega (arith, halfway-left))

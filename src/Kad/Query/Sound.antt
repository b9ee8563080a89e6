-- ===== src/Kad/Query/Sound.antt =====
-- kad_query.go: no peer is asked twice, and the counter and the tokens are right, after any steps.
use holochain.Base.{
  Bytes, ℕ, ◌+◌, ◌-◌, ◌≤◌, ◌≡◌, refl, subst, List, [], ◌∷◌, ◌++◌, Bool, true, false, ◌&&◌, arith,
  length, length-snoc, bytes_equal, inl, inr, Bool-cases,
}
use holochain.Base.Result.{ok, >>=-eq-ok, ok_injective}
use holochain.Kad.Query.{
  Stage, starting, dialing, regaining, asking, finishing, Worker, Runner, Outcome, failure, success,
  closer, QueryEvent, takes_token, closes, spawns, connected, dials, dialed, regains, dial_failed,
  answered, finishes, has_seen, enqueue_or_lose, add_peer_to_query, add_peers, new_query_runner,
  start_run, take_peer, worker_at, with_worker, after_answer, step, run,
}
use holochain.Kad.Query.Keeps.{Keeps, Keeps-ok, Keeps-if, Keeps-bind, Keeps-take, Keeps-give}
use holochain.Kad.Query.Counts.{
  count, names, active, active_of, failed, failed_of, worker_at-TakenOut, take_peer-Removed,
  has_seen-count, once-cons, none-cons,
}

abbrev pub held_by : Bool → ℕ
held_by true = 1
held_by false = 0

pub record IsSound (r : Runner) : Type 0 where
  pub counts :
      (q : Bytes)
      → count q r.queue + count q (names r.workers) + count q (names r.finished) + count q r.lost
        ≡ count q r.seen
  pub once : (q : Bytes) → count q r.seen ≤ 1
  pub not_self : count r.self r.seen ≡ 0
  pub remaining : r.remaining ≡ length r.queue + length r.workers + length r.lost
  pub size : length r.seen ≡ length r.queue + length r.workers + length r.finished + length r.lost
  pub tokens : r.tokens + held_by r.holds_token + active r.workers ≡ r.concurrency
  pub errors : length r.errs ≡ failed r.finished + failed r.workers
  pub none_lost : r.closing ≡ false → length r.lost ≡ 0

add_peer_to_query-IsSound :
    (p : Bytes) (drops : Bool) (r : Runner) → IsSound r → IsSound (add_peer_to_query p drops r)
unfolding add_peer_to_query enqueue_or_lose
add_peer_to_query-IsSound p drops r v = elim (Bool-cases (bytes_equal p r.self)) [
  | inl self ↦ rw self v
  | inr other ↦ elim (Bool-cases (has_seen p r.seen)) [
    | inl known ↦ rw (other, known) v
    | inr fresh ↦
        let unseen = has_seen-count p r.seen fresh in
        elim (Bool-cases (r.closing && drops)) [
          | inl dropped ↦
              rw (other, fresh, dropped)
                (record {
                  counts = λ q. unfold count in omega (arith, v.counts q);
                  once = λ q. once-cons p q r.seen unseen (v.once q);
                  not_self = none-cons p r.self r.seen other v.not_self;
                  remaining = omega (arith, v.remaining);
                  size = omega (arith, v.size);
                  tokens = v.tokens;
                  errors = v.errors;
                  none_lost = λ e. ground arith;
                })
          | inr queued ↦
              rw (other, fresh, queued)
                (record {
                  counts = λ q. unfold count in omega (arith, v.counts q);
                  once = λ q. once-cons p q r.seen unseen (v.once q);
                  not_self = none-cons p r.self r.seen other v.not_self;
                  remaining = omega (arith, v.remaining);
                  size = omega (arith, v.size);
                  tokens = v.tokens;
                  errors = v.errors;
                  none_lost = v.none_lost;
                })
        ]
  ]
]

add_peers-IsSound : (ps : List (Bytes × Bool)) (r : Runner) → IsSound r → IsSound (add_peers ps r)
unfolding add_peers
add_peers-IsSound [] r v = v
add_peers-IsSound ((p, drops) ∷ ps) r v =
    add_peers-IsSound ps (add_peer_to_query p drops r) (add_peer_to_query-IsSound p drops r v)

-- A runner before its first step.
pub start_run-IsSound :
    (peers : List (Bytes × Bool)) (self : Bytes) (concurrency : ℕ)
    → IsSound (start_run peers (new_query_runner self concurrency))
unfolding start_run new_query_runner count active failed
start_run-IsSound peers self concurrency = add_peers-IsSound peers _ (record {
  counts = λ q. refl;
  once = λ q. omega arith;
  not_self = refl;
  remaining = refl;
  size = refl;
  tokens = omega arith;
  errors = refl;
  none_lost = λ e. refl;
})

module _ (r : Runner) (v : IsSound r) where
  -- A worker goes from one stage to another, with the token and the error that this takes.
  moved :
      (p : Bytes) (from to : Stage) (others : List Worker) (tokens : ℕ) (errs : List ℕ)
      → worker_at p from r.workers ≡ ok others
      → tokens + active_of to ≡ r.tokens + active_of from
      → length errs + failed_of from ≡ length r.errs + failed_of to
      → IsSound (with_worker p to others (record r { tokens = tokens; errs = errs }))
  unfolding count active failed
  moved p from to others tokens errs h token error =
      let t = worker_at-TakenOut p from r.workers others h in
      record {
        counts = λ q. omega (arith, v.counts q, t.counts q);
        once = v.once;
        not_self = v.not_self;
        remaining = omega (arith, v.remaining, t.size);
        size = omega (arith, v.size, t.size);
        tokens = omega (arith, v.tokens, t.active, token);
        errors = omega (arith, v.errors, t.failed, error);
        none_lost = v.none_lost;
      }

  after_answer-IsSound :
      (p : Bytes) (outcome : Outcome) (others : List Worker)
      → worker_at p asking r.workers ≡ ok others
      → IsSound (after_answer p outcome others r)
  unfolding after_answer
  after_answer-IsSound p (failure e) others h =
      moved p asking (finishing true) others r.tokens (r.errs ++ e ∷ []) h refl
        (omega (arith, length-snoc r.errs e))
  after_answer-IsSound p (success found) others h =
      let w = moved p asking (finishing false) others r.tokens r.errs h refl refl in
      record {
        counts = w.counts;
        once = w.once;
        not_self = w.not_self;
        remaining = w.remaining;
        size = w.size;
        tokens = w.tokens;
        errors = w.errors;
        none_lost = λ e. cc;
      }
  after_answer-IsSound p (closer ps) others h =
      add_peers-IsSound ps _ (moved p asking (finishing false) others r.tokens r.errs h refl refl)

  step-takes_token : Keeps IsSound (step takes_token r)
  unfolding step
  step-takes_token =
      Keeps-if IsSound r.holds_token _ _ (λ e r' e'. cc)
        λ free. Keeps-take IsSound r _ λ pos. Keeps-ok IsSound _ (record {
          counts = v.counts;
          once = v.once;
          not_self = v.not_self;
          remaining = v.remaining;
          size = v.size;
          tokens = ground (arith, v.tokens);
          errors = v.errors;
          none_lost = v.none_lost;
        })

  step-spawns : (p : Bytes) → Keeps IsSound (step (spawns p) r)
  unfolding step count active failed
  step-spawns p =
      Keeps-if IsSound r.holds_token _ _
        (λ holds. Keeps-bind IsSound (take_peer p r.queue) _ λ queue h.
          let t = take_peer-Removed p r.queue queue h in
          Keeps-ok IsSound _ (record {
            counts = λ q. omega (arith, v.counts q, t.counts q);
            once = v.once;
            not_self = v.not_self;
            remaining = omega (arith, v.remaining, t.size);
            size = omega (arith, v.size, t.size);
            tokens = ground (arith, v.tokens);
            errors = omega (arith, v.errors);
            none_lost = v.none_lost;
          }))
        (λ e r' e'. cc)

  step-finishes : (p : Bytes) (failed_ : Bool) → Keeps IsSound (step (finishes p failed_) r)
  unfolding step count active failed
  step-finishes p failed_ =
      Keeps-bind IsSound (worker_at p (finishing failed_) r.workers) _ λ others h.
        let t = worker_at-TakenOut p (finishing failed_) r.workers others h in
        Keeps-give IsSound r _ λ room. Keeps-ok IsSound _ (record {
          counts = λ q. omega (arith, v.counts q, t.counts q);
          once = v.once;
          not_self = v.not_self;
          remaining = omega (arith, v.remaining, t.size);
          size = omega (arith, v.size, t.size);
          tokens = omega (arith, v.tokens, t.active);
          errors = omega (arith, v.errors, t.failed);
          none_lost = v.none_lost;
        })

  pub step-IsSound : (e : QueryEvent) → Keeps IsSound (step e r)
  unfolding step
  step-IsSound takes_token = step-takes_token
  step-IsSound (spawns p) = step-spawns p
  step-IsSound (connected p) =
      Keeps-bind IsSound (worker_at p starting r.workers) _
        λ others h. Keeps-ok IsSound _ (moved p starting asking others r.tokens r.errs h refl refl)
  step-IsSound (dials p) = Keeps-bind IsSound (worker_at p starting r.workers) _ λ others h.
      Keeps-give IsSound r _ λ room.
        Keeps-ok IsSound _
          (moved p starting dialing others (r.tokens + 1) r.errs h (omega arith) refl)
  step-IsSound (dialed p) = Keeps-bind IsSound (worker_at p dialing r.workers) _ λ others h.
      Keeps-take IsSound r _ λ pos.
        Keeps-ok IsSound _
          (moved p dialing asking others (r.tokens - 1) r.errs h (omega arith) refl)
  step-IsSound (dial_failed p e) = Keeps-bind IsSound (worker_at p dialing r.workers) _ λ others h.
      Keeps-ok IsSound _ (
        moved p dialing regaining others r.tokens (r.errs ++ e ∷ []) h refl
          (omega (arith, length-snoc r.errs e)))
  step-IsSound (regains p) = Keeps-bind IsSound (worker_at p regaining r.workers) _ λ others h.
      Keeps-take IsSound r _ λ pos.
        Keeps-ok IsSound _
          (moved p regaining (finishing true) others (r.tokens - 1) r.errs h (omega arith) refl)
  step-IsSound (answered p outcome) =
      Keeps-bind IsSound (worker_at p asking r.workers) _
        λ others h. Keeps-ok IsSound _ (after_answer-IsSound p outcome others h)
  step-IsSound (finishes p failed_) = step-finishes p failed_
  step-IsSound closes = Keeps-ok IsSound _ (record {
    counts = v.counts;
    once = v.once;
    not_self = v.not_self;
    remaining = v.remaining;
    size = v.size;
    tokens = v.tokens;
    errors = v.errors;
    none_lost = λ e. cc;
  })

-- Any steps from a sound runner on.
pub run-IsSound : (es : List QueryEvent) (r r' : Runner) → IsSound r → run es r ≡ ok r' → IsSound r'
unfolding run
run-IsSound [] r r' v h = subst IsSound (ok_injective h) v
run-IsSound (e ∷ es) r r' v h =
    let (mid, before, now) = >>=-eq-ok (run es r) (λ mid. step e mid) h in
    step-IsSound mid (run-IsSound es r mid v before) e r' now

-- ===== src/Kad/Query/Progress.antt =====
-- kad_query.go: the search cannot get stuck before its counter is down.
use holochain.Base.{
  Bytes, ℕ, ◌+◌, ◌-◌, ◌≤◌, ◌<◌, ◌≡◌, ◌⊎◌, refl, sym, ap, subst, List, [], ◌∷◌, Bool, true, false,
  ◌&&◌, arith, length, bytes_equal, bytes_equal_refl, inl, inr, Bool-cases, lt→ltb, dec_lt,
}
use holochain.Base.Result.{ok}
use holochain.Kad.Query.{
  Stage, starting, dialing, regaining, asking, finishing, Worker, Runner, closer, QueryEvent,
  takes_token, spawns, connected, dialed, regains, answered, finishes, take_peer, worker_at,
  take_token, give_token, with_worker, after_answer, step, run, same_stage, new_query_runner,
  start_run,
}
use holochain.Kad.Query.Counts.{active, active_of, worker_at-TakenOut}
use holochain.Kad.Query.Sound.{IsSound}
use holochain.Kad.Query.Pays.{weight}
use holochain.Kad.Query.Answers.{run-sound, run-setup}

-- A step of the search can be taken.
abbrev pub CanStep : Runner → Type 0
CanStep r = (e : QueryEvent) × (r' : Runner) × (step e r ≡ ok r') × (weight e ≡ 1)

same_stage_refl : (st : Stage) → same_stage st st ≡ true
same_stage_refl st = ground arith

worker_at-head : (w : Worker) (ws : List Worker) → worker_at w.peer w.stage (w ∷ ws) ≡ ok ws
unfolding worker_at
worker_at-head w ws = rw (bytes_equal_refl w.peer, same_stage_refl w.stage) refl

take_token-ok : (r : Runner) → 0 < r.tokens → take_token r ≡ ok (record r { tokens = r.tokens - 1 })
unfolding take_token
take_token-ok r h = rw (lt→ltb 0 r.tokens h) refl

give_token-ok :
    (r : Runner) → r.tokens < r.concurrency → give_token r ≡ ok (record r { tokens = r.tokens + 1 })
unfolding give_token
give_token-ok r h = rw (lt→ltb r.tokens r.concurrency h) refl

active_of-cases : (st : Stage) → (active_of st ≡ 1) ⊎ (active_of st ≡ 0)
active_of-cases st = ground arith

-- Some worker that holds a token, where one does.
active_worker :
    (ws : List Worker)
    → 0 < active ws
    → (p : Bytes) × (st : Stage) × (rest : List Worker) × (worker_at p st ws ≡ ok rest)
      × (active_of st ≡ 1)
unfolding active worker_at
active_worker [] h = absurd (omega arith)
active_worker (w ∷ ws) h = elim (active_of-cases w.stage) [
  | inl e ↦ (w.peer, w.stage, ws, worker_at-head w ws, e)
  | inr e ↦
      let (p, st, rest, at, one) = active_worker ws (omega arith) in
      elim (Bool-cases (bytes_equal w.peer p && same_stage w.stage st)) [
        | inl here ↦ (p, st, ws, rw here refl, one)
        | inr later ↦ (p, st, w ∷ rest, rw (later, at) refl, one)
      ]
]

list-cases : {A : Type 0} (xs : List A) → (xs ≡ []) ⊎ ((x : A) × (rest : List A) × (xs ≡ x ∷ rest))
list-cases [] = inl refl
list-cases (x ∷ xs) = inr (x, xs, refl)

module _ (r : Runner) (v : IsSound r) where
  -- A worker that needs no token, or finds one.
  worker-CanStep :
      (p : Bytes) (st : Stage) (rest : List Worker)
      → worker_at p st r.workers ≡ ok rest
      → (active_of st ≡ 0 → 0 < r.tokens)
      → CanStep r
  unfolding step after_answer
  worker-CanStep p starting rest h token =
      (connected p, with_worker p asking rest r, rw h refl, refl)
  worker-CanStep p dialing rest h token = (
    dialed p,
    with_worker p asking rest (record r { tokens = r.tokens - 1 }),
    rw h (rw (take_token-ok r (token refl)) refl),
    refl,
  )
  worker-CanStep p regaining rest h token = (
    regains p,
    with_worker p (finishing true) rest (record r { tokens = r.tokens - 1 }),
    rw h (rw (take_token-ok r (token refl)) refl),
    refl,
  )
  worker-CanStep p asking rest h token =
      (answered p (closer []), with_worker p (finishing false) rest r, rw h refl, refl)
  worker-CanStep p (finishing b) rest h token =
      let t = worker_at-TakenOut p (finishing b) r.workers rest h in
      (
        finishes p b,
        record r {
          tokens = r.tokens + 1;
          workers = rest;
          remaining = r.remaining - 1;
          finished = record { peer = p; stage = finishing b } ∷ r.finished;
        },
        rw h (rw (give_token-ok r (omega (arith, t.active, v.tokens))) refl),
        refl,
      )

  -- With a free token and no worker, a waiting peer gets one.
  queue-CanStep : 0 < r.tokens → 0 < length r.queue → CanStep r
  unfolding step take_peer
  queue-CanStep token waits = elim (list-cases r.queue) [
    | inl none_ ↦ absurd (omega (arith, ap length none_))
    | inr (p, rest, e) ↦ elim (Bool-cases r.holds_token) [
      | inl holds ↦ (
        spawns p,
        with_worker p starting r.workers (record r { queue = rest; holds_token = false }),
        rw (holds, e, bytes_equal_refl p) refl,
        refl,
      )
      | inr free ↦ (
        takes_token,
        record r { tokens = r.tokens - 1; holds_token = true },
        rw (free, lt→ltb 0 r.tokens token) refl,
        refl,
      )
    ]
  ]

  sound-CanStep : 2 ≤ r.concurrency → r.closing ≡ false → 0 < r.remaining → CanStep r
  sound-CanStep two open_ left = elim (dec_lt 0 (active r.workers)) [
    | yes some_ ↦
        let (p, st, rest, h, one) = active_worker r.workers some_ in
        worker-CanStep p st rest h (λ e. absurd (omega arith))
    | no idle ↦
        let token : 0 < r.tokens = ground (arith, v.tokens) in
        elim (list-cases r.workers) [
          | inl none_ ↦
              queue-CanStep token (omega (arith, v.remaining, v.none_lost open_, ap length none_))
          | inr (w, rest, e) ↦
              worker-CanStep w.peer w.stage rest
                (subst (λ ws. worker_at w.peer w.stage ws ≡ ok rest) (sym e)
                  (worker_at-head w rest))
                (λ e'. token)
        ]
  ]

-- If a search with two tokens or more has not counted down and does not close, then one of its own
-- steps can be taken.
pub run-CanStep :
    (peers : List (Bytes × Bool)) (self : Bytes) (concurrency : ℕ) (es : List QueryEvent)
    (r : Runner)
    → run es (start_run peers (new_query_runner self concurrency)) ≡ ok r
    → 2 ≤ concurrency
    → r.closing ≡ false
    → 0 < r.remaining
    → CanStep r
run-CanStep peers self concurrency es r runs two open_ left =
    let setup = run-setup peers self concurrency es r runs in
    sound-CanStep r (run-sound peers self concurrency es r runs) (omega (arith, setup.1)) open_ left

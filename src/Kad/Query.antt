-- ===== src/Kad/Query.antt =====
-- kad_query.go: the search among peers, as steps of the goroutines that share the runner. Which peer
-- waits longest is up to the queue of PeerQueue/Channel; here any peer that waits may be next. The
-- library's counter, set of peers and network are numbers, lists and events.
pub mod Counts
pub mod Keeps
pub mod Sound
pub mod Pays
pub mod Answers
pub mod Progress
use holochain.Base.{
  Bytes, ℕ, ◌+◌, ◌-◌, List, [], ◌∷◌, ◌++◌, Bool, true, false, not, ◌&&◌, Option, none, some, ltb,
  ◌==◌, if◌then◌else◌, length, bytes_equal,
}
use holochain.Base.Result.{Result, ok, err, ◌>>=◌, or_err, not_enabled}

-- Where `queryPeer` stands: at its start, in `Connect`, before the token that it takes back after a
-- failure, in the query function, at its end. The flag says that it met an error.
pub data Stage : Type 0 where
  starting dialing regaining asking : Stage
  finishing : Bool → Stage

pub record Worker : Type 0 where
  pub peer : Bytes
  pub stage : Stage

-- `tokens` is what the channel `rateLimit` holds, and `holds_token` says that `spawnWorkers` took
-- one. `lost` and `finished` are what came of peers: they were not queued since the process closes,
-- or were asked. Errors are named by numbers.
pub record Runner : Type 0 where
  pub self : Bytes
  pub concurrency : ℕ
  pub seen : List Bytes
  pub queue : List Bytes
  pub remaining : ℕ
  pub tokens : ℕ
  pub holds_token : Bool
  pub workers : List Worker
  pub finished : List Worker
  pub lost : List Bytes
  pub errs : List ℕ
  pub found : Option ℕ
  pub closing : Bool

-- What the query function returns; a peer that is closer comes with the choice of the `select`
-- between the queue and a closing process.
pub data Outcome : Type 0 where
  failure success : ℕ → Outcome
  closer : List (Bytes × Bool) → Outcome

pub data QueryEvent : Type 0 where
  takes_token closes : QueryEvent
  spawns connected dials dialed regains : Bytes → QueryEvent
  dial_failed : Bytes → ℕ → QueryEvent
  answered : Bytes → Outcome → QueryEvent
  finishes : Bytes → Bool → QueryEvent

unfoldable pub has_seen : Bytes → List Bytes → Bool
has_seen p [] = false
has_seen p (q ∷ qs) = let rest = has_seen p qs in if bytes_equal q p then true else rest

unfoldable pub enqueue_or_lose : Bytes → Bool → Runner → Runner
enqueue_or_lose p drops r =
    if r.closing && drops then record r { lost = p ∷ r.lost } else record r { queue = p ∷ r.queue }

unfoldable pub add_peer_to_query : Bytes → Bool → Runner → Runner
unfolding has_seen enqueue_or_lose
add_peer_to_query p drops r =
    let counted = record r { seen = p ∷ r.seen; remaining = r.remaining + 1 } in
    if bytes_equal p r.self
    then r
    else if has_seen p r.seen
    then r
    else enqueue_or_lose p drops counted

unfoldable pub add_peers : List (Bytes × Bool) → Runner → Runner
unfolding add_peer_to_query
add_peers [] r = r
add_peers ((p, drops) ∷ ps) r = add_peers ps (add_peer_to_query p drops r)

unfoldable pub new_query_runner : Bytes → ℕ → Runner
new_query_runner self concurrency = record {
  self = self;
  concurrency = concurrency;
  seen = [];
  queue = [];
  remaining = 0;
  tokens = 0;
  holds_token = false;
  workers = [];
  finished = [];
  lost = [];
  errs = [];
  found = none;
  closing = false;
}

-- `Run` from the tokens up to the start of `spawnWorkers`; it has returned before where there are no
-- peers to start from.
unfoldable pub start_run : List (Bytes × Bool) → Runner → Runner
unfolding add_peers
start_run peers r = add_peers peers (record r { tokens = r.concurrency })

unfoldable pub take_peer : Bytes → List Bytes → Result (List Bytes)
take_peer p [] = err not_enabled
take_peer p (q ∷ qs) =
    let rest = take_peer p qs in if bytes_equal q p then ok qs else rest >>= λ qs'. ok (q ∷ qs')

abbrev pub same_stage : Stage → Stage → Bool
same_stage starting starting = true
same_stage dialing dialing = true
same_stage regaining regaining = true
same_stage asking asking = true
same_stage (finishing true) (finishing b) = b
same_stage (finishing false) (finishing b) = not b
same_stage _ _ = false

-- The other workers, where the one for `p` is at the stage.
unfoldable pub worker_at : Bytes → Stage → List Worker → Result (List Worker)
worker_at p st [] = err not_enabled
worker_at p st (w ∷ ws) =
    let rest = worker_at p st ws in
    if bytes_equal w.peer p && same_stage w.stage st then ok ws else rest >>= λ ws'. ok (w ∷ ws')

-- `<-r.rateLimit` and `r.rateLimit <- struct{}{}`, which block at an empty and at a full channel.
unfoldable pub take_token : Runner → Result Runner
take_token r = if ltb 0 r.tokens then ok (record r { tokens = r.tokens - 1 }) else err not_enabled

unfoldable pub give_token : Runner → Result Runner
give_token r =
    if ltb r.tokens r.concurrency then ok (record r { tokens = r.tokens + 1 }) else err not_enabled

abbrev pub with_worker : Bytes → Stage → List Worker → Runner → Runner
with_worker p st others r = record r { workers = record { peer = p; stage = st } ∷ others }

-- The end of the query function.
unfoldable pub after_answer : Bytes → Outcome → List Worker → Runner → Runner
unfolding add_peers
after_answer p (failure e) others r =
    with_worker p (finishing true) others (record r { errs = r.errs ++ e ∷ [] })
after_answer p (success v) others r =
    with_worker p (finishing false) others (record r { found = some v; closing = true })
after_answer p (closer ps) others r = add_peers ps (with_worker p (finishing false) others r)

unfoldable pub step : QueryEvent → Runner → Result Runner
unfolding take_token give_token take_peer worker_at after_answer
step takes_token r =
    let taken : Result Runner = (do r' ← take_token r; ok (record r' { holds_token = true })) in
    if r.holds_token then err not_enabled else taken
step (spawns p) r =
    let spawned : Result Runner = (do
      queue ← take_peer p r.queue
      ok (with_worker p starting r.workers (record r { queue = queue; holds_token = false }))) in
    if r.holds_token then spawned else err not_enabled
step (connected p) r = do
  others ← worker_at p starting r.workers
  ok (with_worker p asking others r)
step (dials p) r = do
  others ← worker_at p starting r.workers
  r' ← give_token r
  ok (with_worker p dialing others r')
step (dialed p) r = do
  others ← worker_at p dialing r.workers
  r' ← take_token r
  ok (with_worker p asking others r')
step (dial_failed p e) r = do
  others ← worker_at p dialing r.workers
  ok (with_worker p regaining others (record r { errs = r.errs ++ e ∷ [] }))
step (regains p) r = do
  others ← worker_at p regaining r.workers
  r' ← take_token r
  ok (with_worker p (finishing true) others r')
step (answered p outcome) r = do
  others ← worker_at p asking r.workers
  ok (after_answer p outcome others r)
step (finishes p failed) r = do
  others ← worker_at p (finishing failed) r.workers
  r' ← give_token r
  ok (record r' {
    workers = others;
    remaining = r.remaining - 1;
    finished = record { peer = p; stage = finishing failed } ∷ r.finished;
  })
step closes r = ok (record r { closing = true })

-- What happens, the last event first.
unfoldable pub run : List QueryEvent → Runner → Result Runner
unfolding step
run [] r = ok r
run (e ∷ es) r = do r' ← run es r; step e r'

-- What `Run` returns once the counter is down: the result that was found, or the peers that were
-- seen with an error, which is none for `ErrNotFound`.
pub data Answer : Type 0 where
  success_of : ℕ → Answer
  final_set : List Bytes → Option ℕ → Answer

unfoldable pub first_error : List ℕ → Option ℕ
first_error [] = none
first_error (e ∷ es) = some e

unfoldable pub answer : Runner → Answer
unfolding first_error
answer r = elim (r.found) [
  | some v ↦ success_of v
  | none ↦
      final_set r.seen (
        if ltb 0 (length r.errs) && length r.errs == length r.seen
        then first_error r.errs
        else none)
]

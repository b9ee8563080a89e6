-- ===== src/Kad/Query/Pays.antt =====
-- kad_query.go: the steps that are left, which each step and each new peer changes.
use holochain.Base.{
  Bytes, ℕ, ◌+◌, ◌-◌, ◌*◌, ◌≤◌, ◌<◌, ◌≡◌, ◌∙◌, refl, subst, List, [], ◌∷◌, ◌++◌, Bool, true, false,
  ◌&&◌, arith, length, bytes_equal, inl, inr, Bool-cases,
}
use holochain.Base.Result.{ok, >>=-eq-ok, ok_injective}
use holochain.Kad.Query.{
  Stage, starting, dialing, regaining, asking, finishing, Worker, Runner, Outcome, failure, success,
  closer, QueryEvent, takes_token, closes, spawns, connected, dials, dialed, regains, dial_failed,
  answered, finishes, has_seen, enqueue_or_lose, add_peer_to_query, add_peers, take_peer, worker_at,
  with_worker, after_answer, step, run,
}
use holochain.Kad.Query.Keeps.{Keeps, Keeps-ok, Keeps-if, Keeps-bind, Keeps-take, Keeps-give}
use holochain.Kad.Query.Counts.{ahead, ahead_of, worker_at-TakenOut, take_peer-Removed}
use holochain.Kad.Query.Sound.{held_by}

-- The steps that the peers known so far can take, at most.
abbrev pub cost : Runner → ℕ
cost r = 6 * length r.queue + ahead r.workers + (1 - held_by r.holds_token)

-- The end of the context is not a step of the search.
abbrev pub weight : QueryEvent → ℕ
weight closes = 0
weight _ = 1

-- `w` steps lead from `r` to `r'`, and a new peer pays for six.
pub record Follows (w : ℕ) (r r' : Runner) : Type 0 where
  pub self : r'.self ≡ r.self
  pub concurrency : r'.concurrency ≡ r.concurrency
  pub pays : cost r' + w + 6 * length r.seen ≤ cost r + 6 * length r'.seen

Follows-refl : (r : Runner) → Follows 0 r r
Follows-refl r = record { self = refl; concurrency = refl; pays = omega arith }

Follows-trans : (w w' : ℕ) (a b c : Runner) → Follows w a b → Follows w' b c → Follows (w + w') a c
Follows-trans w w' a b c f g = record {
  self = g.self ∙ f.self;
  concurrency = g.concurrency ∙ f.concurrency;
  pays = omega (arith, f.pays, g.pays);
}

add_peer_to_query-Follows :
    (p : Bytes) (drops : Bool) (r : Runner) → Follows 0 r (add_peer_to_query p drops r)
unfolding add_peer_to_query enqueue_or_lose
add_peer_to_query-Follows p drops r = elim (Bool-cases (bytes_equal p r.self)) [
  | inl self ↦ rw self (Follows-refl r)
  | inr other ↦ elim (Bool-cases (has_seen p r.seen)) [
    | inl known ↦ rw (other, known) (Follows-refl r)
    | inr fresh ↦ elim (Bool-cases (r.closing && drops)) [
      | inl dropped ↦
          rw (other, fresh, dropped)
            (record { self = refl; concurrency = refl; pays = omega arith })
      | inr queued ↦
          rw (other, fresh, queued) (record { self = refl; concurrency = refl; pays = omega arith })
    ]
  ]
]

pub add_peers-Follows : (ps : List (Bytes × Bool)) (r : Runner) → Follows 0 r (add_peers ps r)
unfolding add_peers
add_peers-Follows [] r = Follows-refl r
add_peers-Follows ((p, drops) ∷ ps) r =
    let r' = add_peer_to_query p drops r in
    Follows-trans 0 0 r r' (add_peers ps r') (add_peer_to_query-Follows p drops r)
      (add_peers-Follows ps r')

module _ (r : Runner) where
  moved :
      (p : Bytes) (from to : Stage) (others : List Worker) (tokens : ℕ) (errs : List ℕ)
      → worker_at p from r.workers ≡ ok others
      → ahead_of to < ahead_of from
      → Follows 1 r (with_worker p to others (record r { tokens = tokens; errs = errs }))
  unfolding ahead
  moved p from to others tokens errs h less =
      let t = worker_at-TakenOut p from r.workers others h in
      record { self = refl; concurrency = refl; pays = omega (arith, t.ahead, less) }

  after_answer-Follows :
      (p : Bytes) (outcome : Outcome) (others : List Worker)
      → worker_at p asking r.workers ≡ ok others
      → Follows 1 r (after_answer p outcome others r)
  unfolding after_answer
  after_answer-Follows p (failure e) others h =
      moved p asking (finishing true) others r.tokens (r.errs ++ e ∷ []) h (omega arith)
  after_answer-Follows p (success found) others h =
      let w = moved p asking (finishing false) others r.tokens r.errs h (omega arith) in
      record { self = w.self; concurrency = w.concurrency; pays = w.pays }
  after_answer-Follows p (closer ps) others h =
      let r' = with_worker p (finishing false) others r in
      Follows-trans 1 0 r r' (add_peers ps r')
        (moved p asking (finishing false) others r.tokens r.errs h (omega arith))
        (add_peers-Follows ps r')

  pub step-Follows : (e : QueryEvent) → Keeps (Follows (weight e) r) (step e r)
  unfolding step ahead
  step-Follows takes_token =
      Keeps-if _ r.holds_token _ _ (λ e r' e'. cc)
        λ free.
          Keeps-take _ r _
            λ pos. Keeps-ok _ _ (record { self = refl; concurrency = refl; pays = ground arith })
  step-Follows (spawns p) =
      Keeps-if _ r.holds_token _ _
        (λ holds. Keeps-bind _ (take_peer p r.queue) _ λ queue h.
          let t = take_peer-Removed p r.queue queue h in
          Keeps-ok _ _ (record { self = refl; concurrency = refl; pays = ground (arith, t.size) }))
        (λ e r' e'. cc)
  step-Follows (connected p) =
      Keeps-bind _ (worker_at p starting r.workers) _
        λ others h. Keeps-ok _ _ (moved p starting asking others r.tokens r.errs h (omega arith))
  step-Follows (dials p) = Keeps-bind _ (worker_at p starting r.workers) _ λ others h.
      Keeps-give _ r _
        λ room. Keeps-ok _ _ (moved p starting dialing others (r.tokens + 1) r.errs h (omega arith))
  step-Follows (dialed p) = Keeps-bind _ (worker_at p dialing r.workers) _ λ others h.
      Keeps-take _ r _
        λ pos. Keeps-ok _ _ (moved p dialing asking others (r.tokens - 1) r.errs h (omega arith))
  step-Follows (dial_failed p e) = Keeps-bind _ (worker_at p dialing r.workers) _ λ others h.
      Keeps-ok _ _ (moved p dialing regaining others r.tokens (r.errs ++ e ∷ []) h (omega arith))
  step-Follows (regains p) = Keeps-bind _ (worker_at p regaining r.workers) _ λ others h.
      Keeps-take _ r _ λ pos.
        Keeps-ok _ _
          (moved p regaining (finishing true) others (r.tokens - 1) r.errs h (omega arith))
  step-Follows (answered p outcome) =
      Keeps-bind _ (worker_at p asking r.workers) _
        λ others h. Keeps-ok _ _ (after_answer-Follows p outcome others h)
  step-Follows (finishes p failed) =
      Keeps-bind _ (worker_at p (finishing failed) r.workers) _ λ others h.
        let t = worker_at-TakenOut p (finishing failed) r.workers others h in
        Keeps-give _ r _ λ room.
          Keeps-ok _ _ (record { self = refl; concurrency = refl; pays = omega (arith, t.ahead) })
  step-Follows closes =
      Keeps-ok _ _ (record { self = refl; concurrency = refl; pays = omega arith })

-- The steps of a run.
abbrev pub steps : List QueryEvent → ℕ
steps [] = 0
steps (e ∷ es) = steps es + weight e

pub run-Follows :
    (es : List QueryEvent) (r r' : Runner) → run es r ≡ ok r' → Follows (steps es) r r'
unfolding run
run-Follows [] r r' h = subst (Follows 0 r) (ok_injective h) (Follows-refl r)
run-Follows (e ∷ es) r r' h =
    let (mid, before, now) = >>=-eq-ok (run es r) (λ mid. step e mid) h in
    Follows-trans (steps es) (weight e) r mid r' (run-Follows es r mid before)
      (step-Follows mid e r' now)

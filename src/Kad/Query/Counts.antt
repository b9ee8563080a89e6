-- ===== src/Kad/Query/Counts.antt =====
-- kad_query.go: how often a peer is in a list, and what the workers add up to.
use holochain.Base.{
  Bytes, ℕ, suc, ◌+◌, ◌≤◌, ◌≡◌, refl, List, [], ◌∷◌, true, false, ◌&&◌, arith, if◌then◌else◌,
  length, map, bytes_equal, eq_of_bytes_equal, inl, inr, subst, &&_iff, Bool-cases,
}
use holochain.Base.Result.{ok, >>=-eq-ok, ok_injective}
use holochain.Kad.Query.{
  Stage, starting, dialing, regaining, asking, finishing, Worker, has_seen, take_peer, worker_at,
  same_stage,
}

unfoldable pub count : Bytes → List Bytes → ℕ
count q [] = 0
count q (p ∷ ps) = (if bytes_equal p q then 1 else 0) + count q ps

abbrev pub names : List Worker → List Bytes
names ws = map (λ w. w.peer) ws

-- A worker that holds a token.
abbrev pub active_of : Stage → ℕ
active_of dialing = 0
active_of regaining = 0
active_of _ = 1

unfoldable pub active : List Worker → ℕ
active [] = 0
active (w ∷ ws) = active_of w.stage + active ws

abbrev pub failed_of : Stage → ℕ
failed_of regaining = 1
failed_of (finishing true) = 1
failed_of _ = 0

unfoldable pub failed : List Worker → ℕ
failed [] = 0
failed (w ∷ ws) = failed_of w.stage + failed ws

-- The events that a worker still has before it, at most.
abbrev pub ahead_of : Stage → ℕ
ahead_of starting = 4
ahead_of dialing = 3
ahead_of regaining = 2
ahead_of asking = 2
ahead_of (finishing b) = 1

unfoldable pub ahead : List Worker → ℕ
ahead [] = 0
ahead (w ∷ ws) = ahead_of w.stage + ahead ws

-- What `worker_at` leaves.
pub record TakenOut (p : Bytes) (st : Stage) (ws rest : List Worker) : Type 0 where
  pub counts :
      (q : Bytes) → count q (names ws) ≡ (if bytes_equal p q then 1 else 0) + count q (names rest)
  pub size : length ws ≡ suc (length rest)
  pub active : active ws ≡ active_of st + active rest
  pub failed : failed ws ≡ failed_of st + failed rest
  pub ahead : ahead ws ≡ ahead_of st + ahead rest

eq_of_same_stage : (st st' : Stage) → same_stage st st' ≡ true → st ≡ st'
eq_of_same_stage st st' h = ground arith

pub worker_at-TakenOut :
    (p : Bytes) (st : Stage) (ws rest : List Worker)
    → worker_at p st ws ≡ ok rest
    → TakenOut p st ws rest
unfolding worker_at count active failed ahead
worker_at-TakenOut p st [] rest h = cc
worker_at-TakenOut p st (w ∷ ws) rest h =
    elim (Bool-cases (bytes_equal w.peer p && same_stage w.stage st)) [
      | inl e ↦
          let both = (&&_iff (bytes_equal w.peer p) (same_stage w.stage st)).0 e in
          let peer : w.peer ≡ p = eq_of_bytes_equal w.peer p both.0 in
          let stage : w.stage ≡ st = eq_of_same_stage w.stage st both.1 in
          let here : TakenOut w.peer w.stage (w ∷ ws) ws = record {
            counts = λ q. refl;
            size = refl;
            active = refl;
            failed = refl;
            ahead = refl;
          } in
          subst (TakenOut p st (w ∷ ws)) (ok_injective (rw e at h)) (
            subst (λ q. TakenOut q st (w ∷ ws) ws) peer
              (subst (λ t. TakenOut w.peer t (w ∷ ws) ws) stage here))
      | inr e ↦
          let (ws', tail, whole) =
            >>=-eq-ok (worker_at p st ws) (λ others. ok (w ∷ others)) (rw e at h) in
          let v = worker_at-TakenOut p st ws ws' tail in
          let here : TakenOut p st (w ∷ ws) (w ∷ ws') = record {
            counts = λ q. omega (arith, v.counts q);
            size = omega (arith, v.size);
            active = omega (arith, v.active);
            failed = omega (arith, v.failed);
            ahead = omega (arith, v.ahead);
          } in
          subst (TakenOut p st (w ∷ ws)) (ok_injective whole) here
    ]

-- What `take_peer` leaves.
pub record Removed (p : Bytes) (qs rest : List Bytes) : Type 0 where
  pub counts : (q : Bytes) → count q qs ≡ (if bytes_equal p q then 1 else 0) + count q rest
  pub size : length qs ≡ suc (length rest)

pub take_peer-Removed :
    (p : Bytes) (qs rest : List Bytes) → take_peer p qs ≡ ok rest → Removed p qs rest
unfolding take_peer count
take_peer-Removed p [] rest h = cc
take_peer-Removed p (x ∷ qs) rest h = elim (Bool-cases (bytes_equal x p)) [
  | inl e ↦ subst (Removed p (x ∷ qs)) (ok_injective (rw e at h)) (
      subst (λ q. Removed q (x ∷ qs) qs) (eq_of_bytes_equal x p e)
        (record { counts = λ q. refl; size = refl }))
  | inr e ↦
      let (qs', tail, whole) = >>=-eq-ok (take_peer p qs) (λ others. ok (x ∷ others)) (rw e at h) in
      let v = take_peer-Removed p qs qs' tail in
      let here : Removed p (x ∷ qs) (x ∷ qs') = record {
        counts = λ q. omega (arith, v.counts q);
        size = omega (arith, v.size);
      } in
      subst (Removed p (x ∷ qs)) (ok_injective whole) here
]

pub has_seen-count : (p : Bytes) (qs : List Bytes) → has_seen p qs ≡ false → count p qs ≡ 0
unfolding has_seen count
has_seen-count p [] h = refl
has_seen-count p (q ∷ qs) h = ground (arith, has_seen-count p qs)

pub once-cons :
    (p q : Bytes) (seen : List Bytes) → count p seen ≡ 0 → count q seen ≤ 1 → count q (p ∷ seen) ≤ 1
unfolding count
once-cons p q seen unseen one = ground (arith, eq_of_bytes_equal p q)

pub none-cons :
    (p q : Bytes) (seen : List Bytes)
    → bytes_equal p q ≡ false
    → count q seen ≡ 0
    → count q (p ∷ seen) ≡ 0
unfolding count
none-cons p q seen other none = rw other (omega (arith, none))

pub count-cons :
    (p q : Bytes) (ps : List Bytes)
    → count q (p ∷ ps) ≡ (if bytes_equal p q then 1 else 0) + count q ps
unfolding count
count-cons p q ps = refl

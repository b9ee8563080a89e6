-- ===== src/PeerQueue/Channel/Runs.antt =====
-- peerqueue/sync.go: any sequence of events, from a new queue on.
use mathlib.Core.List.Perm
use mathlib.Core.List.{append_assoc, perm_append_comm, not-mem-nil}
use holochain.Base.{
  Bytes, ◌≡◌, ◌≢◌, refl, sym, subst, List, [], ◌∷◌, ◌++◌, Perm, arith, length, false, bytes_equal,
  le→ltb,
}
use holochain.Base.Result.{Result, ok, err, >>=-eq-ok, ok_injective, not_enabled}
use holochain.Hash.{Hash}
use holochain.Hash.Distance.{hash_xor_distance-value}
use holochain.PeerQueue.{new_xor_distance_pq, enqueue, dequeue}
use holochain.PeerQueue.Sorted.{distance, measure}
use holochain.PeerQueue.Channel.{
  looping, returned, ChanQueue, new_chan_queue, ChanEvent, received, delivered, closed, proceeds,
  step, run,
}
use holochain.PeerQueue.Channel.Keeps.{
  peers, empty-distance, held, brought, taken, Suits, IsOrderly,
}
use holochain.PeerQueue.Channel.Steps.{step-Keeps}

abbrev pub all_brought : List ChanEvent → List Bytes
all_brought [] = []
all_brought (e ∷ es) = brought e ++ all_brought es

abbrev pub all_taken : List ChanEvent → List Bytes
all_taken [] = []
all_taken (e ∷ es) = taken e ++ all_taken es

abbrev pub AllSuit : Hash → List ChanEvent → Type 0
AllSuit origin [] = Unit {0}
AllSuit origin (e ∷ es) = Suits origin e × AllSuit origin es

-- Nothing happens after the goroutine returned.
step-returned : (e : ChanEvent) (cq : ChanQueue) → cq.phase ≡ returned → step e cq ≡ err not_enabled
unfolding step
step-returned e cq h = rw h refl

not_ok : {cq : ChanQueue} {r : Result ChanQueue} → r ≡ err not_enabled → r ≢ ok cq
not_ok e h = cc

balance :
    {A : Type 0} (t b ts bs was now : List A)
    → Perm (t ++ now) (b ++ was)
    → Perm (ts ++ was) bs
    → Perm ((t ++ ts) ++ now) (b ++ bs)
balance t b ts bs was now p q = Perm.trans (Perm.append_right now (perm_append_comm t ts)) (
    subst (λ l. Perm l (b ++ bs)) (sym (append_assoc ts t now))
      (Perm.trans (Perm.append_left ts p) (
        subst (λ l. Perm l (b ++ bs)) (append_assoc ts b was)
          (Perm.trans (Perm.append_right was (perm_append_comm ts b))
            (subst (λ l. Perm l (b ++ bs)) (sym (append_assoc b ts was)) (Perm.append_left b q))))))

module _ (origin : Hash) where
  -- After any events from a new queue on, whose peers have the length of the hash, the peer on
  -- offer is the nearest of those that wait, and until the goroutine returns the peers that came
  -- in, with an empty one for the end of the channel, are those that went out and those that wait.
  pub run-balance :
      (es : List ChanEvent) (cq : ChanQueue)
      → AllSuit origin es
      → run es (new_chan_queue (new_xor_distance_pq origin)) ≡ ok cq
      → IsOrderly origin cq
        × (cq.phase ≢ returned → Perm (all_taken es ++ held cq) (all_brought es))
  unfolding run new_chan_queue new_xor_distance_pq
  run-balance [] cq s e =
      subst (λ c. IsOrderly origin c × (c.phase ≢ returned → Perm (held c) [])) (ok_injective e)
        (
          record {
            queue = record {
              same = refl;
              order = λ c p q. absurd (omega arith);
              measured = λ x mem. absurd (not-mem-nil mem);
              fits = λ x mem. absurd (not-mem-nil mem);
            };
            offer = tt;
          },
          λ n. Perm.refl [],
        )
  run-balance (e ∷ es) cq s h =
      let (mid, before, now) =
        >>=-eq-ok (run es (new_chan_queue (new_xor_distance_pq origin))) (λ cq'. step e cq') h in
      let (v, account) = run-balance es mid s.1 before in
      let (w, change) = step-Keeps origin e mid s.0 v cq now in
      (
        w,
        λ n.
            balance (taken e) (brought e) (all_taken es) (all_brought es) (held mid) (held cq)
              (change n) (account (λ r. absurd (not_ok (step-returned e mid r) now))),
      )

  -- At the end of the channel an empty peer comes out first.
  pub run-empty_peer :
      (p : Bytes)
      → length p ≡ length origin
      → (cq : ChanQueue) × (run
            (delivered [] ∷ proceeds ∷ closed ∷ received p ∷ [])
            (new_chan_queue (new_xor_distance_pq origin))
          ≡ ok cq)
        × (peers cq.queue ≡ p ∷ [])
  unfolding run new_chan_queue new_xor_distance_pq enqueue dequeue bytes_equal
  run-empty_peer p size =
      let last : ChanQueue = record {
        queue = record { origin = origin; heap = measure origin p ∷ [] };
        phase = looping;
        is_open = false;
      } in
      (
        last,
        rw
            (
              empty-distance origin [] refl,
              hash_xor_distance-value p origin size,
              le→ltb (distance origin p) 0 (omega arith),
            )
            refl,
        refl,
      )

-- ===== src/PeerQueue/Channel/Steps.antt =====
-- peerqueue/sync.go: what each event does to the peers that wait.
use mathlib.Core.List.Perm
use mathlib.Core.List.{not-mem-nil}
use holochain.Base.{
  Bytes, ℕ, ◌≡◌, ◌≢◌, refl, sym, subst, List, [], ◌∷◌, ◌++◌, Bool, true, false, ◌&&◌, ◌==◌,
  if◌then◌else◌, Perm, arith, length, eq_of_bytes_equal, bytes_equal,
}
use holochain.Base.Result.{Result, ok, err, ok_injective, not_enabled}
use holochain.Hash.{Hash}
use holochain.PeerQueue.{PeerMetric, DistancePq, queue_length}
use holochain.PeerQueue.Order.{IsNearest}
use holochain.PeerQueue.Sorted.{distance}
use holochain.PeerQueue.Channel.{
  Phase, looping, returned, offering, ChanQueue, ChanEvent, received, delivered, closed, cancelled,
  proceeds, at_head, put_back, at_offer, step,
}
use holochain.PeerQueue.Channel.Keeps.{
  Fits, peers, IsOrdered, enqueue-IsOrdered, dequeue-IsOrdered, held, brought, taken, Suits,
  IsOrderly,
}

-- Only what an event brings and takes changes what waits, until the goroutine returns.
abbrev pub Accounts : List Bytes → List Bytes → ChanQueue → ChanQueue → Type 0
Accounts out come cq cq' = cq'.phase ≢ returned → Perm (out ++ held cq') (come ++ held cq)

abbrev pub Keeps : Hash → List Bytes → List Bytes → ChanQueue → Result ChanQueue → Type 0
Keeps origin out come cq r =
    (cq' : ChanQueue) → r ≡ ok cq' → IsOrderly origin cq' × Accounts out come cq cq'

module _ (origin : Hash) (out come : List Bytes) (cq : ChanQueue) where
  Keeps-ok :
      (cq' : ChanQueue)
      → IsOrderly origin cq'
      → Accounts out come cq cq'
      → Keeps origin out come cq (ok cq')
  Keeps-ok cq' v account cq'' e =
      subst (λ c. IsOrderly origin c × Accounts out come cq c) (ok_injective e) (v, account)

  Keeps-if :
      (b : Bool) (r r' : Result ChanQueue)
      → (b ≡ true → Keeps origin out come cq r)
      → (b ≡ false → Keeps origin out come cq r')
      → Keeps origin out come cq (if b then r else r')
  Keeps-if true r r' yes_ no_ = yes_ refl
  Keeps-if false r r' yes_ no_ = no_ refl

  Keeps-not_enabled : Keeps origin out come cq (err not_enabled)
  Keeps-not_enabled cq' e = cc

IsNearest-of_none : (m : ℕ) (h : List PeerMetric) → length h ≡ 0 → IsNearest m h
IsNearest-of_none m [] e = λ y mem. absurd (not-mem-nil mem)
IsNearest-of_none m (x ∷ h) e = absurd (omega arith)

module _ (origin : Hash) where
  -- The goroutine returned: nothing is asked of the account.
  gone :
      (out come : List Bytes) (pq : DistancePq) (b : Bool) (cq : ChanQueue)
      → IsOrdered origin pq
      → Keeps origin out come cq (ok (record { queue = pq; phase = returned; is_open = b }))
  gone out come pq b cq v =
      Keeps-ok origin out come cq (record { queue = pq; phase = returned; is_open = b })
        (record { queue = v; offer = tt }) (λ n. absurd (n refl))

  put_back-Keeps :
      (item next : Bytes) (cq : ChanQueue) (was : ChanQueue)
      → IsOrdered origin cq.queue
      → Fits origin item
      → Fits origin next
      → held was ≡ next ∷ peers cq.queue
      → Keeps origin [] (item ∷ []) was (put_back item next cq)
  unfolding put_back
  put_back-Keeps item next cq was v fit_item fit_next whole =
      let (pq, added, w, perm) = enqueue-IsOrdered origin item cq.queue v fit_item in
      let (pq', added', w', perm') = enqueue-IsOrdered origin next pq w fit_next in
      rw (added, added')
        (Keeps-ok origin [] (item ∷ []) was (record cq { queue = pq'; phase = looping })
          (record { queue = w'; offer = tt })
          (λ n.
            subst (λ l. Perm (peers pq') (item ∷ l)) (sym whole)
              (Perm.trans perm'
                (Perm.trans (Perm.cons next perm) (Perm.swap item next (peers cq.queue))))))

  module _ (pq : DistancePq) (b : Bool) (v : IsOrdered origin pq) where
    at_head-Keeps :
        (e : ChanEvent)
        → Suits origin e
        → let cq : ChanQueue = record { queue = pq; phase = looping; is_open = b } in
          Keeps origin (taken e) (brought e) cq (at_head e cq)
    unfolding at_head queue_length
    at_head-Keeps (received p) s =
        let cq : ChanQueue = record { queue = pq; phase = looping; is_open = b } in
        Keeps-if origin [] (p ∷ []) cq (queue_length pq == 0 && b) _ _
          (λ e.
            Keeps-ok origin [] (p ∷ []) cq (record cq { phase = offering p })
              (record {
                queue = v;
                offer = (
                  λ n. absurd (n s),
                  IsNearest-of_none (distance origin p) pq.heap (ground arith),
                );
              })
              (λ n. Perm.refl (p ∷ peers pq)))
          (λ e. Keeps-not_enabled origin [] (p ∷ []) cq)
    at_head-Keeps closed s =
        let cq : ChanQueue = record { queue = pq; phase = looping; is_open = b } in
        Keeps-if origin [] ([] ∷ []) cq (queue_length pq == 0 && b) _ _
          (λ e. gone [] ([] ∷ []) pq b cq v) (λ e. Keeps-not_enabled origin [] ([] ∷ []) cq)
    at_head-Keeps cancelled s =
        let cq : ChanQueue = record { queue = pq; phase = looping; is_open = b } in
        Keeps-if origin [] [] cq (queue_length pq == 0) _ _ (λ e. gone [] [] pq b cq v)
          (λ e. Keeps-not_enabled origin [] [] cq)
    at_head-Keeps proceeds s =
        let cq : ChanQueue = record { queue = pq; phase = looping; is_open = b } in
        Keeps-if origin [] [] cq (queue_length pq == 0) _ _ (λ e. Keeps-not_enabled origin [] [] cq)
          (λ e.
            let (p, pq', dequeued, w, perm, fit, near) =
              dequeue-IsOrdered origin pq v (ground arith) in
            rw dequeued (
              Keeps-ok origin [] [] cq (record { queue = pq'; phase = offering p; is_open = b })
                (record { queue = w; offer = (fit, near) }) (λ n. perm)))
    at_head-Keeps (delivered p) s =
        Keeps-not_enabled origin (p ∷ []) [] (record { queue = pq; phase = looping; is_open = b })

    at_offer-Keeps :
        (next : Bytes) (e : ChanEvent)
        → Fits origin next
        → Suits origin e
        → let cq : ChanQueue = record { queue = pq; phase = offering next; is_open = b } in
          Keeps origin (taken e) (brought e) cq (at_offer next e cq)
    unfolding at_offer queue_length
    at_offer-Keeps next (received item) fit s =
        let cq : ChanQueue = record { queue = pq; phase = offering next; is_open = b } in
        Keeps-if origin [] (item ∷ []) cq b _ _
          (λ e. put_back-Keeps item next cq cq v (λ n. absurd (n s)) fit refl)
          (λ e. Keeps-not_enabled origin [] (item ∷ []) cq)
    at_offer-Keeps next closed fit s =
        let cq : ChanQueue = record { queue = pq; phase = offering next; is_open = b } in
        Keeps-if origin [] ([] ∷ []) cq b _ _
          (λ e.
            Keeps-if origin [] ([] ∷ []) cq (queue_length pq == 0) _ _
              (λ empty.
                put_back-Keeps [] next (record cq { is_open = false }) cq v (λ n. refl) fit refl)
              (λ full. gone [] ([] ∷ []) pq b cq v))
          (λ e. Keeps-not_enabled origin [] ([] ∷ []) cq)
    at_offer-Keeps next (delivered p) fit s =
        let cq : ChanQueue = record { queue = pq; phase = offering next; is_open = b } in
        Keeps-if origin (p ∷ []) [] cq (bytes_equal p next) _ _
          (λ e.
            Keeps-ok origin (p ∷ []) [] cq (record cq { phase = looping })
              (record { queue = v; offer = tt })
              (λ n.
                subst (λ q. Perm (p ∷ peers pq) (q ∷ peers pq)) (eq_of_bytes_equal p next e)
                  (Perm.refl (p ∷ peers pq))))
          (λ e. Keeps-not_enabled origin (p ∷ []) [] cq)
    at_offer-Keeps next cancelled fit s =
        gone [] [] pq b (record { queue = pq; phase = offering next; is_open = b }) v
    at_offer-Keeps next proceeds fit s =
        Keeps-not_enabled origin [] [] (record { queue = pq; phase = offering next; is_open = b })

  -- Each event, in each phase.
  pub step-Keeps :
      (e : ChanEvent) (cq : ChanQueue)
      → Suits origin e
      → IsOrderly origin cq
      → Keeps origin (taken e) (brought e) cq (step e cq)
  unfolding step
  step-Keeps e cq s v = in_phase cq.phase cq.queue cq.is_open v
    where
      in_phase :
          (ph : Phase) (pq : DistancePq) (b : Bool)
          → let c : ChanQueue = record { queue = pq; phase = ph; is_open = b } in
            IsOrderly origin c → Keeps origin (taken e) (brought e) c (step e c)
      in_phase looping pq b w = at_head-Keeps pq b w.queue e s
      in_phase returned pq b w =
          Keeps-not_enabled origin (taken e) (brought e)
            (record { queue = pq; phase = returned; is_open = b })
      in_phase (offering next) pq b w = at_offer-Keeps pq b w.queue next e w.offer.0 s

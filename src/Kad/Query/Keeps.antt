-- ===== src/Kad/Query/Keeps.antt =====
-- kad_query.go: what holds of the runner after a step, if the step can happen.
use holochain.Base.{
  ◌+◌, ◌-◌, ◌<◌, ◌≡◌, refl, subst, Bool, true, false, ltb, arith, if◌then◌else◌, inl, inr,
  Bool-cases,
}
use holochain.Base.Result.{Result, ok, err, panic, ◌>>=◌, ok_injective}
use holochain.Kad.Query.{Runner, take_token, give_token}

abbrev pub Keeps : (Runner → Type 0) → Result Runner → Type 0
Keeps P out = (r' : Runner) → out ≡ ok r' → P r'

module _ (P : Runner → Type 0) where
  pub Keeps-ok : (r' : Runner) → P r' → Keeps P (ok r')
  Keeps-ok r' v r'' e = subst P (ok_injective e) v

  pub Keeps-if :
      (b : Bool) (out out' : Result Runner)
      → (b ≡ true → Keeps P out)
      → (b ≡ false → Keeps P out')
      → Keeps P (if b then out else out')
  Keeps-if true out out' h h' = h refl
  Keeps-if false out out' h h' = h' refl

  pub Keeps-bind :
      {A : Type 0} (m : Result A) (k : A → Result Runner)
      → ((a : A) → m ≡ ok a → Keeps P (k a))
      → Keeps P (m >>= k)
  Keeps-bind (ok a) k h = h a refl
  Keeps-bind (err e) k h = λ r' e'. cc
  Keeps-bind panic k h = λ r' e'. cc

  pub Keeps-take :
      (r : Runner) (k : Runner → Result Runner)
      → (0 < r.tokens → Keeps P (k (record r { tokens = r.tokens - 1 })))
      → Keeps P (take_token r >>= k)
  unfolding take_token
  Keeps-take r k h = elim (Bool-cases (ltb 0 r.tokens)) [
    | inl some_ ↦ rw some_ (h (ground arith))
    | inr none_ ↦ rw none_ (λ r' e. cc)
  ]

  pub Keeps-give :
      (r : Runner) (k : Runner → Result Runner)
      → (r.tokens < r.concurrency → Keeps P (k (record r { tokens = r.tokens + 1 })))
      → Keeps P (give_token r >>= k)
  unfolding give_token
  Keeps-give r k h = elim (Bool-cases (ltb r.tokens r.concurrency)) [
    | inl some_ ↦ rw some_ (h (ground arith))
    | inr none_ ↦ rw none_ (λ r' e. cc)
  ]

-- ===== src/Action/Commit/Atomic.antt =====
-- action.go: a commit among other commits.
use holochain.Base.{
  ℕ, zero, suc, ◌+◌, ◌≤◌, ◌<◌, ◌≡◌, refl, ◌⊎◌, inl, inr, [], ◌∷◌, true, false, Bool-cases, ◌==◌,
  arith, sym, ap, subst, ◌∙◌, length,
}
use holochain.Base.Result.{Result, ok, err, panic, each_outcome, same_outcome}
use holochain.Hash.{Hash}
use holochain.Header.{Header}
use holochain.Entry.{EntryDef}
use holochain.Chain.{Chain, prepare_header, add_entry_at}
use holochain.Kad.Bucket.{PeerId}
use holochain.Action.{Services}
use holochain.Action.System.{validate_action}
use holochain.Action.Commit.{Committing, Rivals, Committed, added, do_commit}

-- Other commits leave the chain or make it longer.
pub record IsAppending (w : Rivals) : Type 0 where
  pub before :
      (i : ℕ) (c : Chain) → (w.before i c ≡ c) ⊎ (length c.headers < length (w.before i c).headers)
  pub after :
      (i : ℕ) (c : Chain) → (w.after i c ≡ c) ⊎ (length c.headers < length (w.after i c).headers)

module _ (s : Services) (self : PeerId) (w : Rivals) (a : Committing) where
  -- The entry is prepared, validated and added on one and the same chain.
  pub record AtOnce (d : EntryDef) (hd : Header) (link : Hash) (c' : Chain) : Type 0 where
    pub chain : Chain
    pub round : ℕ
    pub at : ℕ
    pub hash : Hash
    pub prepared :
        prepare_header s.platform (w.now round) a.entry_type a.entry a.change chain
        ≡ ok (at, hash, hd)
    pub validated : validate_action s chain (a.with_header hd) a.entry_type (self ∷ []) ≡ ok d
    pub added_at : add_entry_at s.platform at hash hd a.entry chain ≡ (ok tt, c')
    pub linked : hd.entry_link ≡ link

  quiet :
      (i : ℕ) (c : Chain)
      → IsAppending w
      → (length c.headers == length (w.after i (w.before i c)).headers) ≡ true
      → (w.before i c ≡ c) × (w.after i (w.before i c) ≡ c)
  quiet i c app same = elim (app.before i c) [
    | inl b ↦ elim (app.after i (w.before i c)) [
      | inl f ↦ (b, f ∙ b)
      | inr longer ↦ absurd (ground (arith, b, longer, same))
    ]
    | inr longer ↦ elim (app.after i (w.before i c)) [
      | inl f ↦ absurd (ground (arith, f, longer, same))
      | inr more ↦ absurd (ground (arith, more, longer, same))
    ]
  ]

  added-ok :
      (d : EntryDef) (hd : Header) (r : Result (Unit {0}) × Chain) {e : EntryDef} {hd' : Header}
      {link : Hash} {c' : Chain}
      → added s self w a d hd r ≡ (ok (e, hd', link), c')
      → (r ≡ (ok tt, c')) × (d ≡ e) × (hd ≡ hd') × (hd.entry_link ≡ link)
  added-ok d hd (ok tt, c) h = (ap (λ p. (ok tt, p.1)) h, cc, cc, cc)
  added-ok d hd (err e, c) h = cc
  added-ok d hd (panic, c) h = cc

  module _ (d : EntryDef) (hd : Header) (link : Hash) (c' : Chain) where
    -- What a successful outcome shows.
    abbrev Shows : Committed → Type 0
    Shows o = o ≡ (ok (d, hd, link), c') → AtOnce d hd link c'

    added-Shows :
        (i : ℕ) (c : Chain) (l : ℕ) (hash : Hash) (header : Header) (e : EntryDef)
        → IsAppending w
        → prepare_header s.platform (w.now i) a.entry_type a.entry a.change c ≡ ok (l, hash, header)
        → validate_action s (w.before i c) (a.with_header header) a.entry_type (self ∷ []) ≡ ok e
        → (length c.headers == length (w.after i (w.before i c)).headers) ≡ true
        → Shows (
            added s self w a e header
              (add_entry_at s.platform l hash header a.entry (w.after i (w.before i c))))
    added-Shows i c l hash header e app p v same = λ h.
        let (b, f) = quiet i c app same in
        let (r, x, y, z) = added-ok e header _ h in
        record {
          chain = c;
          round = i;
          at = l;
          hash = hash;
          prepared = p ∙ ap (λ header. ok (l, hash, header)) y;
          validated =
              subst
                (λ header.
                  validate_action s c (a.with_header header) a.entry_type (self ∷ []) ≡ ok d)
                y
                (ap (λ c. validate_action s c (a.with_header header) a.entry_type (self ∷ []))
                    (sym b)
                  ∙ v
                  ∙ ap ok x);
          added_at =
              subst (λ header. add_entry_at s.platform l hash header a.entry c ≡ (ok tt, c')) y
                (ap (add_entry_at s.platform l hash header a.entry) (sym f) ∙ r);
          linked = ap (λ header. header.entry_link) (sym y) ∙ z;
        }

    -- If other commits only leave the chain or make it longer, a successful `doCommit` did what it
    -- would have done alone: on one chain the header was prepared, the action validated with it,
    -- and the entry added, which gave the chain that it leaves.
    pub do_commit-AtOnce :
        (fuel i : ℕ) (c : Chain) → IsAppending w → Shows (do_commit s self w a fuel i c)
    unfolding do_commit
    do_commit-AtOnce zero i c app = λ h. cc
    do_commit-AtOnce (suc fuel) i c app =
        each_outcome Shows (prepare_header s.platform (w.now i) a.entry_type a.entry a.change c) _ _
          _
          (λ (l, hash, header) p.
            each_outcome Shows
              (validate_action s (w.before i c) (a.with_header header) a.entry_type (self ∷ [])) _ _
              _
              (λ e v.
                elim (Bool-cases (length c.headers == length (w.after i (w.before i c)).headers)) [
                  | inl t ↦ rw t (added-Shows i c l hash header e app p v t)
                  | inr f ↦ rw f (do_commit-AtOnce fuel (suc i) (w.after i (w.before i c)) app)
                ])
              (λ e h. cc) (λ h. cc))
          (λ e h. cc) (λ h. cc)

  -- Rounds agree if those that start over do.
  round-agrees :
      (f g i : ℕ) (c : Chain)
      → ((length c.headers == length (w.after i (w.before i c)).headers) ≡ false
          → do_commit s self w a f (suc i) (w.after i (w.before i c))
            ≡ do_commit s self w a g (suc i) (w.after i (w.before i c)))
      → do_commit s self w a (suc f) i c ≡ do_commit s self w a (suc g) i c
  unfolding do_commit
  round-agrees f g i c over =
      same_outcome (prepare_header s.platform (w.now i) a.entry_type a.entry a.change c) _ _ _ _
        λ (l, hash, header).
          same_outcome
            (validate_action s (w.before i c) (a.with_header header) a.entry_type (self ∷ [])) _ _ _
            _
            λ d. elim (Bool-cases (length c.headers == length (w.after i (w.before i c)).headers)) [
              | inl t ↦ rw t refl
              | inr f ↦ rw f (over f)
            ]

  -- If no other commit comes in from a round on, further rounds than up to that one do not change
  -- what `doCommit` does.
  pub do_commit-enough :
      (k n i : ℕ) (c : Chain)
      → k ≤ n
      → ((j : ℕ) (c : Chain) → i + k ≤ j → (w.before j c ≡ c) × (w.after j c ≡ c))
      → do_commit s self w a (suc n) i c ≡ do_commit s self w a (suc k) i c
  do_commit-enough zero n i c h calm =
      let (b, f) = calm i c (omega arith) in
      round-agrees n zero i c
        λ other. absurd (ground (arith, b, calm i (w.before i c) (omega arith), other))
  do_commit-enough (suc k) zero i c h calm = absurd (omega arith)
  do_commit-enough (suc k) (suc n) i c h calm = round-agrees (suc n) (suc k) i c λ other.
      do_commit-enough k n (suc i) (w.after i (w.before i c)) (omega arith)
        λ j c later. calm j c (omega arith)

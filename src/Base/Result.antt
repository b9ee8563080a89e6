-- ===== src/Base/Result.antt =====
-- How a Go call ends: with a value, with an error, or with a panic.
use mathlib.Core.Path.{◌≡◌, refl}
use mathlib.Core.Bool.{Bool, true, false}
use mathlib.Core.Option.{Option, none, some}
use Prim.Native.Nat.{ℕ}

-- The error values of the modelled files; `foreign` is an error that a library returned.
pub data Error : Type 0 where
  hash_not_found incomplete_chain index_mismatch eof unexpected_eof nil_hash foreign : Error
  header_mismatch entry_mismatch : ℕ → Error
  hash_deleted hash_modified hash_rejected link_not_found no_links no_such_idx : Error
  capability_invalid wrong_nargs expected_gossip_request : Error
  not_in_protocol : ℕ → Error
  unexpected_body validation_failed nil_entry_invalid entry_type_mismatch blocked_listed : Error
  not_valid_for_dna not_valid_for_agent not_valid_for_key missing_header same_replacement : Error
  invalid_links cannot_modify_links cannot_delete_links only_links no_definition : Error
  no_bridge unbridged bridging unknown_zome function_not_available non_dht_action unknown_warrant :
      Error
  self_revocation_unverified old_key_unmodified wrong_new_key list_add_rejected : Error
  gets_the_dna follow_loop : Error
  execution_failed not_boolean format_not_implemented : Error
  -- `argErr`, with the number of the argument.
  wrong_argument : ℕ → Error
  -- No call of the code returns this: the rounds that the model gives a loop were used up.
  out_of_fuel : Error
  -- Nor this: the event cannot happen in the state of the model.
  not_enabled : Error

pub data Result {ℓ} (A : Type ℓ) : Type ℓ where
  ok : A → Result A
  err : Error → Result A
  panic : Result A

infixl 5 ◌>>=◌ ◌>>◌
abbrev pub ◌>>=◌ {ℓ κ} : {A : Type ℓ} {B : Type κ} → Result A → (A → Result B) → Result B
ok a >>= f = f a
err e >>= f = err e
panic >>= f = panic

-- A library call that may fail.
abbrev pub or_foreign {ℓ} : {A : Type ℓ} → Option A → Result A
or_foreign none = err foreign
or_foreign (some a) = ok a

-- A slice index, which panics out of range.
abbrev pub or_panic {ℓ} : {A : Type ℓ} → Option A → Result A
or_panic none = panic
or_panic (some a) = ok a

abbrev pub or_err {ℓ} : {A : Type ℓ} → Option A → Error → Result A
or_err none e = err e
or_err (some a) e = ok a

abbrev pub ◌>>◌ {κ} : {T : Type κ} → Result (Unit {0}) → Result T → Result T
check >> go = check >>= λ done. go

-- An error unless the condition holds.
abbrev pub guard : Bool → Error → Result (Unit {0})
guard false why = err why
guard true why = ok tt

pub ok_injective {ℓ} : {A : Type ℓ} {a b : A} → ok a ≡ ok b → a ≡ b
ok_injective h = cc

pub guard-eq-ok : (b : Bool) (e : Error) {u : Unit {0}} → guard b e ≡ ok u → b ≡ true
guard-eq-ok true e h = refl
guard-eq-ok false e h = cc

pub >>=-eq-ok {κ ℓ} :
    {S : Type κ} {T : Type ℓ} (first : Result S) (next : S → Result T) {out : T}
    → (first >>= next) ≡ ok out
    → (mid : S) × (first ≡ ok mid) × (next mid ≡ ok out)
>>=-eq-ok (ok mid) next whole = (mid, refl, whole)
>>=-eq-ok (err e) next whole = cc
>>=-eq-ok panic next whole = cc

pub or_foreign-eq-ok {ℓ} : {A : Type ℓ} (o : Option A) {a : A} → or_foreign o ≡ ok a → o ≡ some a
or_foreign-eq-ok none h = cc
or_foreign-eq-ok (some b) h = cc

pub or_err-eq-ok {ℓ} :
    {A : Type ℓ} (o : Option A) (e : Error) {a : A} → or_err o e ≡ ok a → o ≡ some a
or_err-eq-ok none e h = cc
or_err-eq-ok (some b) e h = cc

pub >>=_assoc {ℓ κ μ} :
    {A : Type ℓ} {B : Type κ} {C : Type μ} (m : Result A) (f : A → Result B) (g : B → Result C)
    → ((m >>= f) >>= g) ≡ (m >>= λ a. f a >>= g)
>>=_assoc (ok a) f g = refl
>>=_assoc (err e) f g = refl
>>=_assoc panic f g = refl

pub >>=_cong {ℓ κ} :
    {A : Type ℓ} {B : Type κ} (m : Result A) (f g : A → Result B)
    → ((a : A) → f a ≡ g a)
    → (m >>= f) ≡ (m >>= g)
>>=_cong (ok a) f g h = h a
>>=_cong (err e) f g h = refl
>>=_cong panic f g h = refl

-- What holds in each case of a call holds of what is made of its result.
pub each_result {ℓ κ μ} :
    {A : Type ℓ} {B : Type κ} (P : B → Type μ) (r : Result A) (f : A → B) (g : Error → B) (x : B)
    → ((a : A) → P (f a))
    → ((e : Error) → P (g e))
    → P x
    → P (elim r [ ok a ↦ f a | err e ↦ g e | panic ↦ x ])
each_result P (ok a) f g x on_ok on_err on_panic = on_ok a
each_result P (err e) f g x on_ok on_err on_panic = on_err e
each_result P panic f g x on_ok on_err on_panic = on_panic

-- The same, where the call may be needed to have succeeded.
pub each_outcome {ℓ κ μ} :
    {A : Type ℓ} {B : Type κ} (P : B → Type μ) (r : Result A) (f : A → B) (g : Error → B) (x : B)
    → ((a : A) → r ≡ ok a → P (f a))
    → ((e : Error) → P (g e))
    → P x
    → P (elim r [ ok a ↦ f a | err e ↦ g e | panic ↦ x ])
each_outcome P (ok a) f g x on_ok on_err on_panic = on_ok a refl
each_outcome P (err e) f g x on_ok on_err on_panic = on_err e
each_outcome P panic f g x on_ok on_err on_panic = on_panic

pub same_outcome {ℓ κ} :
    {A : Type ℓ} {B : Type κ} (r : Result A) (f f' : A → B) (g : Error → B) (x : B)
    → ((a : A) → f a ≡ f' a)
    → elim r [ ok a ↦ f a | err e ↦ g e | panic ↦ x ]
      ≡ elim r [ ok a ↦ f' a | err e ↦ g e | panic ↦ x ]
same_outcome (ok a) f f' g x h = h a
same_outcome (err e) f f' g x h = refl
same_outcome panic f f' g x h = refl

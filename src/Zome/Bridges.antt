-- ===== src/Zome/Bridges.antt =====
-- bridge.go: which functions the bridge specification opens.
use holochain.Base.{
  Bytes, List, [], ◌∷◌, Bool, true, false, ◌&&◌, ◌||◌, none, some, ◌≡◌, refl, ◌⊎◌, inl, inr,
  Bool-cases, Option-cases, arith, subst, ◌∙◌, bytes_equal, bytes_equal_iff,
}
use holochain.Base.Map.{Map, lookup, insert, lookup-insert, lookup-insert_same}
use holochain.Zome.{
  Zome, BridgeSpec, check_bridge_spec, add_function, bridge_functions, bridge_zomes,
  make_bridge_spec,
}

unfoldable pub lists : Bytes → List Bytes → Bool
lists g [] = false
lists g (f ∷ fs) = bytes_equal f g || lists g fs

-- Some zome of the name lists the function for bridges.
unfoldable pub is_bridged : Bytes → Bytes → List Zome → Bool
is_bridged zome_type g [] = false
is_bridged zome_type g (z ∷ zs) =
    (bytes_equal z.name zome_type && lists g z.bridge_funcs) || is_bridged zome_type g zs

-- No zome of the list has the name.
unfoldable pub IsOther : Bytes → List Zome → Type 0
IsOther name [] = Unit {0}
IsOther name (y ∷ ys) = (bytes_equal name y.name ≡ false) × IsOther name ys

-- The zomes have names of their own.
unfoldable pub AreDistinct : List Zome → Type 0
unfolding IsOther
AreDistinct [] = Unit {0}
AreDistinct (z ∷ zs) = IsOther z.name zs × AreDistinct zs

lookup-add_function :
    (name f other : Bytes) (spec : BridgeSpec)
    → bytes_equal name other ≡ false
    → lookup other (add_function name f spec) ≡ lookup other spec
unfolding add_function
lookup-add_function name f other spec apart = elim (Option-cases (lookup name spec)) [
  | inl e ↦ rw (e, add_function) refl
  | inr (funcs, e) ↦
      rw (e, add_function) (lookup-insert name other (insert f true funcs) spec ∙ rw apart refl)
]

check-add_function :
    (name f g : Bytes) (funcs : Map Bool) (spec : BridgeSpec)
    → lookup name spec ≡ some funcs
    → check_bridge_spec (add_function name f spec) name g
      ≡ (bytes_equal f g || check_bridge_spec spec name g)
unfolding add_function check_bridge_spec
check-add_function name f g funcs spec e =
    ground
      (arith, e, lookup-insert_same name (insert f true funcs) spec, lookup-insert f g true funcs)

-- A zome without bridged functions yet.
check-fresh :
    (name g : Bytes) (spec : BridgeSpec)
    → lookup name spec ≡ none
    → (check_bridge_spec (insert name [] spec) name g ≡ false)
      × (check_bridge_spec spec name g ≡ false)
unfolding check_bridge_spec lookup
check-fresh name g spec e = (
  rw (lookup-insert_same {V = Map Bool} name [] spec, check_bridge_spec) refl,
  rw (e, check_bridge_spec) refl,
)

lookup-bridge_functions :
    (name : Bytes) (fs : List Bytes) (last other : Bytes) (spec : BridgeSpec)
    → (lookup name spec ≡ none) ⊎ (last ≡ name)
    → bytes_equal name other ≡ false
    → lookup other (bridge_functions name fs last spec).1 ≡ lookup other spec
unfolding bridge_functions
lookup-bridge_functions name [] last other spec h apart = refl
lookup-bridge_functions name (f ∷ fs) last other spec h apart =
    elim (Option-cases (lookup name spec)) [
      | inl e ↦
          rw (e, bridge_functions)
            (lookup-bridge_functions name fs name other (add_function name f (insert name [] spec))
                (inr refl) apart
              ∙ lookup-add_function name f other (insert name [] spec) apart
              ∙ lookup-insert name other [] spec
              ∙ rw apart refl)
      | inr (funcs, e) ↦ elim h [
        | inl fresh ↦ cc
        | inr same ↦
            rw (e, bridge_functions)
              (lookup-bridge_functions name fs last other (add_function last f spec) (inr same)
                  apart
                ∙ lookup-add_function last f other spec (rw same apart))
      ]
    ]

check-bridge_functions :
    (name : Bytes) (fs : List Bytes) (last g : Bytes) (spec : BridgeSpec)
    → (lookup name spec ≡ none) ⊎ (last ≡ name)
    → check_bridge_spec (bridge_functions name fs last spec).1 name g
      ≡ (lists g fs || check_bridge_spec spec name g)
unfolding bridge_functions lists
check-bridge_functions name [] last g spec h = refl
check-bridge_functions name (f ∷ fs) last g spec h = elim (Option-cases (lookup name spec)) [
  | inl e ↦
      rw (e, bridge_functions)
        (check-bridge_functions name fs name g (add_function name f (insert name [] spec))
            (inr refl)
          ∙ ground (
            arith,
            check-add_function name f g [] (insert name [] spec) (lookup-insert_same name [] spec),
            check-fresh name g spec e,
          ))
  | inr (funcs, e) ↦ elim h [
    | inl fresh ↦ cc
    | inr same ↦
        rw (e, bridge_functions)
          (check-bridge_functions name fs last g (add_function last f spec) (inr same)
            ∙ rw same (ground (arith, check-add_function name f g funcs spec e)))
  ]
]

-- No zome of the list has a map yet.
unfoldable pub IsAbsent : List Zome → BridgeSpec → Type 0
IsAbsent [] spec = Unit {0}
IsAbsent (z ∷ zs) spec = (lookup z.name spec ≡ none) × IsAbsent zs spec

IsAbsent-kept :
    (name : Bytes) (fs : List Bytes) (last : Bytes) (spec : BridgeSpec) (zs : List Zome)
    → lookup name spec ≡ none
    → IsOther name zs
    → IsAbsent zs spec
    → IsAbsent zs (bridge_functions name fs last spec).1
unfolding IsAbsent IsOther
IsAbsent-kept name fs last spec [] e o a = tt
IsAbsent-kept name fs last spec (z ∷ zs) e (apart, o) (p, a) = (
  lookup-bridge_functions name fs last z.name spec (inl e) apart ∙ p,
  IsAbsent-kept name fs last spec zs e o a,
)

check-zome :
    (name : Bytes) (fs : List Bytes) (last zome_type g : Bytes) (spec : BridgeSpec)
    → lookup name spec ≡ none
    → check_bridge_spec (bridge_functions name fs last spec).1 zome_type g
      ≡ ((bytes_equal name zome_type && lists g fs) || check_bridge_spec spec zome_type g)
unfolding check_bridge_spec
check-zome name fs last zome_type g spec e = elim (Bool-cases (bytes_equal name zome_type)) [
  | inl t ↦
      let same : name ≡ zome_type = (bytes_equal_iff name zome_type).0 t in
      rw (t, same)
        (check-bridge_functions zome_type fs last g spec
          (inl (subst (λ n. lookup n spec ≡ none) same e)))
  | inr f ↦
      rw (f, check_bridge_spec, lookup-bridge_functions name fs last zome_type spec (inl e) f) refl
]

bridge_zomes-is_bridged :
    (zs : List Zome) (last zome_type g : Bytes) (spec : BridgeSpec)
    → AreDistinct zs
    → IsAbsent zs spec
    → check_bridge_spec (bridge_zomes zs last spec) zome_type g
      ≡ (is_bridged zome_type g zs || check_bridge_spec spec zome_type g)
unfolding AreDistinct IsAbsent bridge_zomes is_bridged
bridge_zomes-is_bridged [] last zome_type g spec d a = refl
bridge_zomes-is_bridged (z ∷ zs) last zome_type g spec (o, d) (e, a) =
    bridge_zomes-is_bridged zs (bridge_functions z.name z.bridge_funcs last spec).0 zome_type g
      (bridge_functions z.name z.bridge_funcs last spec).1 d
      (IsAbsent-kept z.name z.bridge_funcs last spec zs e o a)
    ∙ ground (arith, check-zome z.name z.bridge_funcs last zome_type g spec e)

none-IsAbsent : (zs : List Zome) → IsAbsent zs []
unfolding IsAbsent lookup
none-IsAbsent [] = tt
none-IsAbsent (z ∷ zs) = (refl, none-IsAbsent zs)

-- Where zomes have names of their own, the bridge specification made of them opens a function of a
-- zome exactly if a zome of that name lists it for bridges.
pub check_bridge_spec-make_bridge_spec :
    (zomes : List Zome) (zome_type g : Bytes)
    → AreDistinct zomes
    → check_bridge_spec (make_bridge_spec zomes) zome_type g ≡ is_bridged zome_type g zomes
unfolding make_bridge_spec check_bridge_spec lookup
check_bridge_spec-make_bridge_spec zomes zome_type g d =
    bridge_zomes-is_bridged zomes [] zome_type g [] d (none-IsAbsent zomes) ∙ ground arith

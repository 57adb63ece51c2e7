-- ===== src/Navigation/Stack/Refine.antt =====
-- The stack navigator against its abstract view: a screen in front and the screens below it.
use vais_lang.Prelude.{
  ◌∙◌, ap, sym, arith, ◌≡◌, refl, ◌+◌, String, Option, none, some, List, [], ◌∷◌, ◌++◌, Bool, not,
  true, false, if◌then◌else◌, length, take, length-append, take_all, take-append,
}
use vais_lang.Navigation.Screens.{StackConfig, registered, first_screen}
use vais_lang.Navigation.Stack.{
  RouteEntry, StackState, create_stack_navigator, push, replace, reset, pop, can_go_back,
}

-- The screen in front, and the screens below it, the nearest first.
pub record View (P : Type 0) : Type 0 where
  pub front : RouteEntry P
  pub below : List (RouteEntry P)

-- A call of the navigator.
pub data Call (P : Type 0) : Type 0 where
  pushing replacing resetting : String → Option P → Call P
  popping : Call P

abbrev pub is_empty {ℓ} : {A : Type ℓ} → List A → Bool
is_empty [] = true
is_empty (x ∷ xs) = false

module _ {P : Type 0} where
  abbrev upwards : List (RouteEntry P) → List (RouteEntry P)
  upwards [] = []
  upwards (e ∷ es) = upwards es ++ e ∷ []

  length-upwards : (es : List (RouteEntry P)) → length (upwards es) ≡ length es
  length-upwards [] = refl
  length-upwards (e ∷ es) = length-append (upwards es) (e ∷ []) ∙ (omega (arith, length-upwards es))

  -- The state that has this view.
  abbrev pub state_of : View P → StackState P
  state_of v = record { routes = upwards v.below ++ v.front ∷ []; index = length v.below }

  abbrev pub pop_view : RouteEntry P → List (RouteEntry P) → View P
  pop_view e [] = record { front = e; below = [] }
  pop_view e (d ∷ ds) = record { front = d; below = ds }

  module _ (config : StackConfig) where
    -- What a call does to the view.
    abbrev pub view_call : Call P → View P → Option (View P)
    view_call (pushing name params) v =
        if registered config name
        then some
            (record { front = record { name = name; params = params }; below = v.front ∷ v.below })
        else none
    view_call (replacing name params) v =
        if registered config name
        then some (record { front = record { name = name; params = params }; below = v.below })
        else none
    view_call (resetting name params) v =
        if registered config name
        then some (record { front = record { name = name; params = params }; below = [] })
        else none
    view_call popping v = some (pop_view v.front v.below)

    abbrev pub run_call : Call P → StackState P → Option (StackState P)
    run_call (pushing name params) s = push config name params s
    run_call (replacing name params) s = replace config name params s
    run_call (resetting name params) s = reset config name params s
    run_call popping s = some (pop s)

    abbrev pub state_of? : Option (View P) → Option (StackState P)
    state_of? none = none
    state_of? (some v) = some (state_of v)

    full : (v : View P) → length (state_of v).routes ≡ length v.below + 1
    full v =
        length-append (upwards v.below) (v.front ∷ []) ∙ (omega (arith, length-upwards v.below))

    take_below :
        (es : List (RouteEntry P)) (e : RouteEntry P)
        → take (length es) (upwards es ++ e ∷ []) ≡ upwards es
    take_below es e = rw (sym (length-upwards es)) (take-append (upwards es) (e ∷ []))

    push-state_of :
        (name : String) (params : Option P) (v : View P)
        → push config name params (state_of v) ≡ state_of? (view_call (pushing name params) v)
    unfolding push
    push-state_of name params v = ground (
      arith,
      take_all (length v.below + 1) (upwards v.below ++ v.front ∷ []),
      full v,
      full (record { front = record { name = name; params = params }; below = v.front ∷ v.below }),
    )

    replace-state_of :
        (name : String) (params : Option P) (v : View P)
        → replace config name params (state_of v) ≡ state_of? (view_call (replacing name params) v)
    unfolding replace
    replace-state_of name params v = ground (
      arith,
      take_below v.below v.front,
      full (record { front = record { name = name; params = params }; below = v.below }),
    )

    pop-state_of :
        (e : RouteEntry P) (es : List (RouteEntry P))
        → pop (state_of (record { front = e; below = es })) ≡ state_of (pop_view e es)
    unfolding pop
    pop-state_of e [] = refl
    pop-state_of e (d ∷ ds) = ground (arith, take_below (d ∷ ds) e)

    reset-state_of :
        (name : String) (params : Option P) (v : View P)
        → reset config name params (state_of v) ≡ state_of? (view_call (resetting name params) v)
    unfolding reset
    reset-state_of name params v = ground arith

    call-state_of :
        (call : Call P) (v : View P) → run_call call (state_of v) ≡ state_of? (view_call call v)
    call-state_of (pushing name params) v = push-state_of name params v
    call-state_of (replacing name params) v = replace-state_of name params v
    call-state_of (resetting name params) v = reset-state_of name params v
    call-state_of popping v = ap some (pop-state_of v.front v.below)

  -- The calls from the first on; one that throws changes nothing.
  module _ (config : StackConfig) where
    abbrev pub run : List (Call P) → StackState P → StackState P
    run [] s = s
    run (call ∷ calls) s = run calls (elim (run_call config call s) [ none ↦ s | some t ↦ t ])

    abbrev pub run_view : List (Call P) → View P → View P
    run_view [] v = v
    run_view (call ∷ calls) v =
        run_view calls (elim (view_call config call v) [ none ↦ v | some w ↦ w ])

    after_call :
        (o : Option (View P)) (v : View P)
        → (elim (state_of? config o) [ none ↦ state_of v | some t ↦ t ])
          ≡ state_of (elim o [ none ↦ v | some w ↦ w ])
    after_call none v = refl
    after_call (some w) v = refl

    run-state_of :
        (calls : List (Call P)) (v : View P) → run calls (state_of v) ≡ state_of (run_view calls v)
    run-state_of [] v = refl
    run-state_of (call ∷ calls) v =
        ap (λ o. run calls (elim o [ none ↦ state_of v | some t ↦ t ]))
          (call-state_of config call v)
        ∙ (ap (run calls) (after_call (view_call config call v) v)
            ∙ run-state_of calls (elim (view_call config call v) [ none ↦ v | some w ↦ w ]))

    can_go_back-state_of :
        (e : RouteEntry P) (es : List (RouteEntry P))
        → can_go_back (state_of (record { front = e; below = es })) ≡ not (is_empty es)
    unfolding can_go_back
    can_go_back-state_of e [] = refl
    can_go_back-state_of e (d ∷ ds) = ground arith

    -- A stack navigator that is made holds its first screen. After any calls, those that throw
    -- included, its list of routes is the screens of the abstract view from the bottom up, its index
    -- is that of the last of them, and it can go back just when a screen lies below: there push puts
    -- a screen in front, replace changes the front, reset leaves one screen, pop removes the front
    -- unless it is the only one, and a call with a screen that is not registered changes nothing.
    pub create_stack_navigator-run :
        (first : String) (calls : List (Call P))
        → first_screen config ≡ some first
        → let bottom : View P = record {
          front = record { name = first; params = none };
          below = [];
        } in
          let v = run_view calls bottom in
          (create_stack_navigator config ≡ some (state_of bottom))
          × (run calls (state_of bottom) ≡ state_of v)
          × (can_go_back (run calls (state_of bottom)) ≡ not (is_empty v.below))
    unfolding create_stack_navigator
    create_stack_navigator-run first calls e =
        let bottom : View P = record {
          front = record { name = first; params = none };
          below = [];
        } in
        let v = run_view calls bottom in
        (
          rw (e, create_stack_navigator) refl,
          run-state_of calls bottom,
          ap can_go_back (run-state_of calls bottom) ∙ can_go_back-state_of v.front v.below,
        )

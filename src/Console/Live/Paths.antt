-- ===== src/Console/Live/Paths.antt =====
-- Which states a sequence of events reaches, and which buttons a state enables.
use project008_soundtech_ass.Prelude.{
  ◌≡◌, refl, Bool, true, false, Option, none, some, List, [], ◌∷◌, ◌≢◌, All, contains, arith,
  Option-cases, inl, inr,
}
use project008_soundtech_ass.Console.Live.{
  LiveState, disconnected, connecting, connected, walking, pulling, watching, error, lost, Event,
  Action, action_eq, transition, allowed_actions, fire_all,
}

abbrev pub can_write : LiveState → Bool
can_write s = contains (allowed_actions s) Action.write

-- The states with no session.
abbrev pub is_down : LiveState → Bool
is_down disconnected = true
is_down connecting = true
is_down error = true
is_down lost = true
is_down _ = false

-- The action whose button fires the event. `ok`, `fail` and the loss of the desk are outcomes of a
-- worker, and no button fires a reset.
abbrev pub button : Event → Option Action
button Event.connect = some Action.connect
button Event.disconnect = some Action.disconnect
button Event.stop = some Action.stop
button Event.watch = some Action.watch
button Event.cancel = some Action.cancel
button Event.pull = some Action.pull
button Event.walk = some Action.discover
button _ = none

abbrev pub accepts : LiveState → Event → Bool
accepts s e = elim (transition s e) [ none ↦ false | some t ↦ true ]

step_down :
    (s : LiveState) (e : Event) (t : LiveState)
    → is_down s ≡ true
    → e ≢ Event.ok
    → transition s e ≡ some t
    → is_down t ≡ true
unfolding transition
step_down s Event.ok t d n h = absurd (n refl)
step_down s _ t d n h = ground arith

is_down-not_write : (s : LiveState) → is_down s ≡ true → can_write s ≡ false
unfolding allowed_actions action_eq
is_down-not_write disconnected d = refl
is_down-not_write _ d = ground arith

run_down :
    (s : LiveState) (es : List Event) (t : LiveState)
    → is_down s ≡ true
    → All (λ e. e ≢ Event.ok) es
    → fire_all s es ≡ some t
    → is_down t ≡ true
unfolding fire_all
run_down s [] t d n h = ground arith
run_down s (e ∷ es) t d n h = elim (Option-cases (transition s e)) [
  | inl stuck ↦ ground arith
  | inr (u, p) ↦ run_down u es t (step_down s e u d n.0 p) n.1 (ground arith)
]

-- From a state with no session, a sequence of events without `ok` ends, if the table accepts it, in
-- a state with no session, and there the action `write` is not enabled.
pub fire_all-not_write :
    (s : LiveState) (es : List Event) (t : LiveState)
    → is_down s ≡ true
    → All (λ e. e ≢ Event.ok) es
    → fire_all s es ≡ some t
    → (is_down t ≡ true) × (can_write t ≡ false)
fire_all-not_write s es t d n h =
    let down = run_down s es t d n h in (down, is_down-not_write t down)

-- An event that a button fires is accepted in exactly the states that enable the button.
accepts-allowed_actions :
    (s : LiveState) (e : Event) (a : Action)
    → button e ≡ some a
    → accepts s e ≡ contains (allowed_actions s) a
unfolding transition allowed_actions action_eq
accepts-allowed_actions disconnected e a h = ground arith
accepts-allowed_actions _ e a h = ground arith

-- From every state some sequence of events leads to `disconnected`.
fire_all-disconnected : (s : LiveState) → (es : List Event) × (fire_all s es ≡ some disconnected)
unfolding fire_all transition
fire_all-disconnected disconnected = ([], refl)
fire_all-disconnected connecting = (Event.cancel ∷ [], refl)
fire_all-disconnected connected = (Event.disconnect ∷ [], refl)
fire_all-disconnected walking = (Event.cancel ∷ Event.disconnect ∷ [], refl)
fire_all-disconnected pulling = (Event.cancel ∷ Event.disconnect ∷ [], refl)
fire_all-disconnected watching = (Event.disconnect ∷ [], refl)
fire_all-disconnected error = (Event.disconnect ∷ [], refl)
fire_all-disconnected lost = (Event.disconnect ∷ [], refl)

-- ===== src/Console/Live.antt =====
-- wing_parser/ui/live_state.py: the states of the connection, and what each allows.
pub mod Paths
use project008_soundtech_ass.Prelude.{Bool, true, false, Option, none, some, List, [], ◌∷◌}
use project008_soundtech_ass.Prelude.{Eq, ◌==◌, if◌then◌else◌}
use project008_soundtech_ass.Prelude.Text.{Text}

pub data LiveState : Type 0 where
  disconnected connecting connected walking pulling watching error lost : LiveState

-- The events are strings; the ones that the table names are constructors.
pub data Event : Type 0 where
  connect ok fail cancel walk pull watch disconnect stop desk_lost reset : Event
  unlisted : Text → Event

-- The page actions. `write` and `export` fire no event.
pub data Action : Type 0 where
  connect disconnect cancel discover rerun pull watch stop export write : Action

action_dec : Discrete Action
action_dec = hlevel

instance unfoldable pub action_eq : Eq Action
unfolding action_dec
action_eq = record { dec = action_dec }

-- `_TABLE[(state, event)]`; `none` is the `ValueError` of an illegal event.
unfoldable pub transition : LiveState → Event → Option LiveState
transition LiveState.disconnected Event.connect = some connecting
transition LiveState.connecting Event.ok = some connected
transition LiveState.connecting Event.fail = some error
transition LiveState.connecting Event.cancel = some disconnected
transition LiveState.connected Event.walk = some walking
transition LiveState.connected Event.pull = some pulling
transition LiveState.connected Event.watch = some watching
transition LiveState.connected Event.disconnect = some disconnected
transition LiveState.walking Event.ok = some connected
transition LiveState.walking Event.fail = some error
transition LiveState.walking Event.cancel = some connected
transition LiveState.pulling Event.ok = some connected
transition LiveState.pulling Event.fail = some error
transition LiveState.pulling Event.cancel = some connected
transition LiveState.watching Event.stop = some connected
transition LiveState.watching Event.desk_lost = some lost
transition LiveState.watching Event.disconnect = some disconnected
transition LiveState.error Event.connect = some connecting
transition LiveState.error Event.reset = some disconnected
transition LiveState.error Event.disconnect = some disconnected
transition LiveState.lost Event.connect = some connecting
transition LiveState.lost Event.reset = some disconnected
transition LiveState.lost Event.disconnect = some disconnected
transition _ _ = none

unfoldable pub allowed_actions : LiveState → List Action
allowed_actions disconnected = Action.connect ∷ []
allowed_actions connecting = Action.cancel ∷ []
allowed_actions connected =
    Action.disconnect ∷ Action.discover ∷ Action.pull ∷ Action.watch ∷ Action.export ∷ Action.rerun
    ∷ Action.write ∷ []
allowed_actions walking = Action.cancel ∷ []
allowed_actions pulling = Action.cancel ∷ []
allowed_actions watching = Action.stop ∷ Action.disconnect ∷ Action.export ∷ Action.write ∷ []
allowed_actions error = Action.connect ∷ Action.disconnect ∷ []
allowed_actions lost = Action.connect ∷ Action.disconnect ∷ []

-- A page that fires the events one after another, each through `transition`.
unfoldable pub fire_all : LiveState → List Event → Option LiveState
fire_all s [] = some s
fire_all s (e ∷ es) = elim (transition s e) [ none ↦ none | some t ↦ fire_all t es ]

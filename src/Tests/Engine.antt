-- ===== src/Tests/Engine.antt =====
-- The theorems about the engine, at the sample modules.
use mixlab.Prelude.{◌≡◌, refl, [], ◌∷◌, none, some, arith, length, ℕ_discrete}
use mixlab.Prelude.Map.{get, insert, remove, map_values}
use mixlab.Protocol.{
  ModuleId, InputId, module_key, input_key, InputId-discrete, LineType-discrete, default_geometry,
}
use mixlab.Util.{next}
use mixlab.Session.{from_protocol}
use mixlab.Engine.Timing.{EngineStat, new_stat, remove_module, PerformanceAccount-discrete}
use mixlab.Engine.Workspace.{SavedWorkspace, connect, terminal_type, to_persist, from_persist}
use mixlab.Engine.Update.{
  Engine, run_messages, client_update, apply_op, connect_session, dump_state, create_connection_op,
}
use mixlab.Engine.Invariant.{IsValid}
use mixlab.Engine.Invariant.Ops.{IsSound, run_messages-IsSound}
use mixlab.Engine.Invariant.Load.{from_persist-IsValid}
use mixlab.Engine.Invariant.Restore.{RestoreLaws, made, restores}
use mixlab.Engine.Mirror.{Follows}
use mixlab.Tests.Order.{pair, pair-IsValid}
use mathlib.Core.Option
use mixlab.Engine.Mirror.Connected.{client_keeps_copy}
use mixlab.Tests.Sample.{gain_host, gain_laws, empty_workspace, start, history, engine_or}

abbrev connected : Engine gain_host
connected = record start { session_seq = 1 }

after_history : Engine gain_host × EngineStat
unfolding run_messages client_update apply_op create_connection_op connect terminal_type next get
    insert remove map_values to_persist remove_module ℕ_discrete InputId-discrete LineType-discrete
    PerformanceAccount-discrete
after_history = engine_or (connected, new_stat) (run_messages history (connected, new_stat))

history_runs : run_messages history (connected, new_stat) ≡ some after_history
unfolding after_history
history_runs = refl

-- Five updates and four marks; the module that is left has no connection.
history_result :
    (length after_history.0.log ≡ 9)
    × (after_history.0.workspace.connections ≡ [])
    × (get 2 after_history.0.workspace.modules ≡ some 6)
    × (get 1 after_history.0.workspace.modules ≡ none)
unfolding after_history
history_result = (refl, refl, refl, refl)

empty-IsValid : IsValid empty_workspace
unfolding get
empty-IsValid = record {
  typed = λ i o h. cc h;
  numbered = λ k m h. cc h;
  modules_map = tt;
  geometry_map = tt;
  indications_map = tt;
  connections_map = tt;
}

connected-IsSound : IsSound connected
unfolding to_persist map_values
connected-IsSound = record { valid = empty-IsValid; saved = refl }

start_connects : connect_session start ≡ some (1, dump_state empty_workspace, connected)
unfolding connect_session next
start_connects = refl

client_keeps_copy_example :
    Follows connected after_history.0 (from_protocol (dump_state empty_workspace))
client_keeps_copy_example =
    client_keeps_copy gain_laws start connected 1 (dump_state empty_workspace) history new_stat
      after_history empty-IsValid start_connects history_runs

run_messages-IsSound_example : IsSound after_history.0
run_messages-IsSound_example =
    run_messages-IsSound gain_laws history (connected, new_stat) after_history connected-IsSound
      history_runs

-- A saved module whose input names an output that does not exist.
abbrev dangling : SavedWorkspace gain_host
dangling = record {
  module_seq = 3;
  modules =
      (
        3,
        record {
          params = 5;
          geometry = default_geometry;
          inputs = some (record { module_id = 9; index = 0 }) ∷ [];
        },
      )
      ∷ [];
}

from_persist-IsValid_example : IsValid (from_persist dangling)
from_persist-IsValid_example = from_persist-IsValid dangling (omega arith)

gain_restores : RestoreLaws gain_host
gain_restores = record { same_inputs = λ m. refl; same_outputs = λ m. refl }

restores_example :
    ((k : ModuleId)
      → get k (from_persist (to_persist pair)).modules
        ≡ Option.map (made gain_host) (get k pair.modules))
    × ((i : InputId) → get i (from_persist (to_persist pair)).connections ≡ get i pair.connections)
restores_example = restores gain_restores pair pair-IsValid

-- ===== src/Engine/Mirror.antt =====
-- What src/engine.rs tells its clients, against what frontend/src/session.rs makes of it.
pub mod Updates
pub mod Client
pub mod Messages
pub mod Connected
use mathlib.Core.Option
use mathlib.Core.List.{append_assoc}
use mixlab.Prelude.{
  ℕ, ◌≡◌, refl, ap, ◌∙◌, sym, ◌⊎◌, inl, inr, List, [], ◌∷◌, ◌++◌, map, Option, none, some, arith,
  ite, ℕ_discrete, Option-cases,
}
use mixlab.Prelude.Map.{
  Map, get, insert, remove, modify, get-insert, get-remove, get-modify, IsMap, map_values,
  get-map_values, collect_into, get-collect_into,
}
use mixlab.Protocol.{
  ModuleId, InputId, OutputId, Terminal, WindowGeometry, ServerUpdate, WorkspaceOp, module_key,
  input_key, InputId-discrete, create_module, update_module_params, update_window_geometry,
  delete_module, create_connection, delete_connection,
}
use mixlab.Prelude.Result.{Result, ok, err, panic}
use mixlab.Session.{ClientState, apply_update, from_protocol}
use mixlab.Util.{next}
use mixlab.Engine.Host.{ModuleHost, HostLaws}
use mixlab.Engine.Timing.{EngineStat}
use mixlab.Engine.Workspace.{Workspace, connect}
use mixlab.Engine.Update.{
  Engine, EngineEvent, sync, server_update, WorkspaceMessage, attached, remove_all, replaced,
  log_ops, create_module_op, update_params_op, update_geometry_op, delete_module_op,
  create_connection_op, delete_connection_op, apply_op, client_update, dump_state, connect_session,
}

module _ {host : ModuleHost} where
  open host use {Params, Indication, Module}

  -- What a client makes of a stretch of the log.
  unfoldable pub replay :
      List (EngineEvent host) → ClientState Params Indication → ClientState Params Indication
  replay [] c = c
  replay (sync _ ∷ log) c = replay log c
  replay (server_update op ∷ log) c = replay log (apply_update op c)

  pub replay-append :
      (xs ys : List (EngineEvent host)) (c : ClientState Params Indication)
      → replay (xs ++ ys) c ≡ replay ys (replay xs c)
  unfolding replay
  replay-append [] ys c = refl
  replay-append (sync _ ∷ xs) ys c = replay-append xs ys c
  replay-append (server_update op ∷ xs) ys c = replay-append xs ys (apply_update op c)

-- The client's copy answers every look-up about a module that exists as the workspace does.
pub record Mirrors {host : ModuleHost} (w : Workspace host)
    (c : ClientState host.Params host.Indication) : Type 0 where
  pub modules : (k : ModuleId) → get k c.modules ≡ Option.map host.params (get k w.modules)
  pub inputs : (k : ModuleId) → get k c.inputs ≡ Option.map host.inputs (get k w.modules)
  pub outputs : (k : ModuleId) → get k c.outputs ≡ Option.map host.outputs (get k w.modules)
  pub connections : (i : InputId) → get i c.connections ≡ get i w.connections
  pub geometry :
      (k : ModuleId) (m : host.Module)
      → get k w.modules ≡ some m
      → get k c.geometry ≡ get k w.geometry
  pub indications :
      (k : ModuleId) (m : host.Module)
      → get k w.modules ≡ some m
      → get k c.indications ≡ get k w.indications

module _ {host : ModuleHost} where
  open host use {Params, Indication, Module}

  -- The log of `e'` goes on from that of `e`, and a client that had the workspace of `e` has that of
  -- `e'` when it has replayed the news.
  pub record Follows (e e' : Engine host) (c : ClientState Params Indication) : Type 0 where
    pub news : List (EngineEvent host)
    pub logged : e'.log ≡ e.log ++ news
    pub mirrors : Mirrors e'.workspace (replay news c)

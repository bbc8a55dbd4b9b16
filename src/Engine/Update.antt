-- ===== src/Engine/Update.antt =====
-- src/engine.rs: what the engine does on a message of a client, and what it tells all clients.
use mixlab.Prelude.{ℕ, ◌==◌, ◌||◌, if◌then◌else◌, List, [], ◌∷◌, ◌++◌, map, Option, none, some}
use mixlab.Prelude.Map.{Map, get, insert, remove, map_values}
use mixlab.Prelude.Result.{ok, err, panic}
use mixlab.Util.{next}
use mixlab.Protocol.{
  ModuleId, InputId, OutputId, WindowGeometry, ClientSequence, WorkspaceOp, ServerUpdate,
  WorkspaceState, module_key, input_key, create_module, update_module_params,
  update_window_geometry, delete_module, create_connection, delete_connection,
}
use mixlab.Engine.Host.{ModuleHost}
use mixlab.Engine.Timing.{EngineStat, remove_module}
use mixlab.Engine.Workspace.{Workspace, SavedWorkspace, connect, disconnect, to_persist}

-- Positions in the logs of two sessions have no order.
pub record OpClock : Type 0 where
  pub session : ℕ
  pub sequence : ClientSequence

module _ (host : ModuleHost) where
  open host use {Params, Indication}

  pub data EngineEvent : Type 0 where
    sync : OpClock → EngineEvent
    server_update : ServerUpdate Params Indication → EngineEvent

  -- `log` is what was sent to the broadcast channel, `persisted` the value in the watch channel.
  pub record Engine : Type 0 where
    pub session_seq : ℕ
    pub workspace : Workspace host
    pub persisted : SavedWorkspace host
    pub log : List EngineEvent

  pub record WorkspaceMessage : Type 0 where
    pub sequence : ClientSequence
    pub op : WorkspaceOp Params Indication

-- The connections from or to a module, by their inputs.
unfoldable pub attached : ModuleId → Map InputId OutputId → List InputId
attached id [] = []
attached id ((i, o) ∷ rest) =
    let others = attached id rest in
    if i.module_id == id || o.module_id == id then i ∷ others else others

unfoldable pub remove_all : List InputId → Map InputId OutputId → Map InputId OutputId
remove_all [] connections = connections
remove_all (i ∷ is) connections = remove_all is (remove i connections)

-- The news that a connection is gone, if there was one.
abbrev pub replaced : {P I : Type 0} → InputId → Option OutputId → List (ServerUpdate P I)
replaced i none = []
replaced i (some _) = ServerUpdate.delete_connection i ∷ []

-- The news that a module is gone, if it was there.
abbrev pub deleted_module : {P I M : Type 0} → ModuleId → Option M → List (ServerUpdate P I)
deleted_module id none = []
deleted_module id (some _) = ServerUpdate.delete_module id ∷ []

abbrev pub forget_deleted : {P I : Type 0} → WorkspaceOp P I → EngineStat → EngineStat
forget_deleted (delete_module id) stat = remove_module id stat
forget_deleted _ stat = stat

module _ {host : ModuleHost} where
  open host use {Params, Indication}

  -- The end of a `borrow_mut`: the workspace is saved.
  abbrev pub write_back : Workspace host → Engine host → Engine host
  write_back w e = record e { workspace = w; persisted = to_persist w }

  abbrev pub log_op : ServerUpdate Params Indication → Engine host → Engine host
  log_op op e = record e { log = e.log ++ server_update op ∷ [] }

  abbrev pub log_ops : List (ServerUpdate Params Indication) → Engine host → Engine host
  log_ops [] e = e
  log_ops (op ∷ ops) e = log_ops ops (log_op op e)

  abbrev pub sync_log : OpClock → Engine host → Engine host
  sync_log clock e = record e { log = e.log ++ sync clock ∷ [] }

  -- `none` is a panic.
  unfoldable pub create_module_op : Params → WindowGeometry → Engine host → Option (Engine host)
  create_module_op params geometry e = elim (next e.workspace.module_seq) [
    | none ↦ none
    | some id ↦
        let (m, indication) = host.create params in
        let w = e.workspace in
        some (
          log_op
            (ServerUpdate.create_module (record {
              id = id;
              params = params;
              geometry = geometry;
              indication = indication;
              inputs = host.inputs m;
              outputs = host.outputs m;
            }))
            (write_back
              (record w {
                module_seq = id;
                modules = insert id m w.modules;
                geometry = insert id geometry w.geometry;
                indications = insert id indication w.indications;
              })
              e))
  ]

  -- The indication that the module returns is dropped.
  unfoldable pub update_params_op : ModuleId → Params → Engine host → Option (Engine host)
  update_params_op id params e = elim (get id e.workspace.modules) [
    | none ↦ some (write_back e.workspace e)
    | some m ↦ elim (host.update m params) [
      | none ↦ none
      | some (m', _) ↦ some (
          log_op (ServerUpdate.update_module_params id (host.params m'))
            (write_back (record e.workspace { modules = insert id m' e.workspace.modules }) e))
    ]
  ]

  unfoldable pub update_geometry_op : ModuleId → WindowGeometry → Engine host → Engine host
  update_geometry_op id geometry e = elim (get id e.workspace.geometry) [
    | none ↦ write_back e.workspace e
    | some _ ↦
        log_op (ServerUpdate.update_window_geometry id geometry)
          (write_back (record e.workspace { geometry = insert id geometry e.workspace.geometry }) e)
  ]

  unfoldable pub delete_module_op : ModuleId → Engine host → Engine host
  unfolding attached remove_all
  delete_module_op id e =
      let w = e.workspace in
      let gone = attached id w.connections in
      log_ops (map ServerUpdate.delete_connection gone ++ deleted_module id (get id w.modules)) (
        write_back
          (record w { connections = remove_all gone w.connections; modules = remove id w.modules })
          e)

  unfoldable pub create_connection_op : InputId → OutputId → Engine host → Engine host
  create_connection_op i o e = elim (connect e.workspace i o) [
    | ok (old, w) ↦
        log_op (ServerUpdate.create_connection i o) (log_ops (replaced i old) (write_back w e))
    | err _ ↦ write_back e.workspace e
    | panic ↦ write_back e.workspace e
  ]

  unfoldable pub delete_connection_op : InputId → Engine host → Engine host
  unfolding disconnect
  delete_connection_op i e =
      let (previous, w) = disconnect e.workspace i in log_ops (replaced i previous) (write_back w e)

  unfoldable pub apply_op : WorkspaceOp Params Indication → Engine host → Option (Engine host)
  unfolding create_module_op update_params_op update_geometry_op delete_module_op
  apply_op (create_module params geometry) e = create_module_op params geometry e
  apply_op (update_module_params id params) e = update_params_op id params e
  apply_op (update_window_geometry id geometry) e = some (update_geometry_op id geometry e)
  apply_op (delete_module id) e = some (delete_module_op id e)
  apply_op (create_connection i o) e = some (create_connection_op i o e)
  apply_op (delete_connection i) e = some (delete_connection_op i e)

  -- `client_update`: the engine and its statistics after the message.
  unfoldable pub client_update :
      ℕ → WorkspaceMessage host → Engine host × EngineStat → Option (Engine host × EngineStat)
  client_update session msg (e, stat) = elim (apply_op msg.op e) [
    | none ↦ none
    | some e' ↦ some (
      sync_log (record { session = session; sequence = msg.sequence }) e',
      forget_deleted msg.op stat,
    )
  ]

  -- The vectors that a client is sent when it connects.
  unfoldable pub dump_state : Workspace host → WorkspaceState Params Indication
  dump_state w = record {
    modules = map_values (λ _ m. host.params m) w.modules;
    geometry = w.geometry;
    indications = w.indications;
    connections = w.connections;
    inputs = map_values (λ _ m. host.inputs m) w.modules;
    outputs = map_values (λ _ m. host.outputs m) w.modules;
  }

  -- The new client's session and its state; it reads the log from here on.
  unfoldable pub connect_session :
      Engine host → Option (ℕ × WorkspaceState Params Indication × Engine host)
  connect_session e = elim (next e.session_seq) [
    | none ↦ none
    | some id ↦ some (id, dump_state e.workspace, record e { session_seq = id })
  ]

  -- One message after another.
  unfoldable pub run_messages :
      List (ℕ × WorkspaceMessage host)
      → Engine host × EngineStat
      → Option (Engine host × EngineStat)
  run_messages [] s = some s
  run_messages ((session, msg) ∷ rest) s = elim (client_update session msg s) [
    | none ↦ none
    | some s' ↦ run_messages rest s'
  ]

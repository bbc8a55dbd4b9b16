-- ===== src/Session.antt =====
-- frontend/src/session.rs: the copy of the workspace that a client in the browser keeps.
pub mod Sequence
use mixlab.Prelude.{
  ℕ, ◌+◌, ◌^◌, Bool, true, false, List, [], Option, none, some, ltb, ◌==◌, if◌then◌else◌,
}
use mixlab.Prelude.Map.{Map, insert, remove, modify, collect_into}
use mixlab.Protocol.{
  ModuleId, InputId, OutputId, Terminal, WindowGeometry, ServerUpdate, ClientSequence, module_key,
  input_key, create_module, update_module_params, update_window_geometry, update_module_indication,
  delete_module, create_connection, delete_connection,
}
use mixlab.Protocol

module _ (Params Indication : Type 0) where
  -- `WorkspaceState` of the client: the vectors of the protocol's, as maps.
  pub record ClientState : Type 0 where
    pub modules : Map ModuleId Params
    pub geometry : Map ModuleId WindowGeometry
    pub connections : Map InputId OutputId
    pub indications : Map ModuleId Indication
    pub inputs : Map ModuleId (List Terminal)
    pub outputs : Map ModuleId (List Terminal)

  pub data ServerMessage : Type 0 where
    workspace_state : Protocol.WorkspaceState Params Indication → ServerMessage
    update : ServerUpdate Params Indication → ServerMessage
    sync : ClientSequence → ServerMessage
    performance media_library : ServerMessage

  -- `client` is the last number this client has given out, `server` the last it has had back.
  pub record Session : Type 0 where
    pub state : Option ClientState
    pub client : ℕ
    pub server : Option ClientSequence

-- `None` is below every sequence number.
abbrev pub behind : Option ClientSequence → Option ClientSequence → Bool
behind none none = false
behind none (some b) = true
behind (some a) none = false
behind (some a) (some b) = ltb a b

abbrev pub same : Option ClientSequence → Option ClientSequence → Bool
same none none = true
same (some a) (some b) = a == b
same _ _ = false

abbrev pub last : ℕ → Option ClientSequence
last n = if n == 0 then none else some n

module _ {Params Indication : Type 0} where
  -- `From<mixlab_protocol::WorkspaceState>`.
  unfoldable pub from_protocol :
      Protocol.WorkspaceState Params Indication → ClientState Params Indication
  from_protocol s = record {
    modules = collect_into [] s.modules;
    geometry = collect_into [] s.geometry;
    connections = collect_into [] s.connections;
    indications = collect_into [] s.indications;
    inputs = collect_into [] s.inputs;
    outputs = collect_into [] s.outputs;
  }

  -- The `match` of `ServerMessage::Update`.
  unfoldable pub apply_update :
      ServerUpdate Params Indication → ClientState Params Indication → ClientState Params Indication
  apply_update (create_module m) s = record s {
    modules = insert m.id m.params s.modules;
    geometry = insert m.id m.geometry s.geometry;
    indications = insert m.id m.indication s.indications;
    inputs = insert m.id m.inputs s.inputs;
    outputs = insert m.id m.outputs s.outputs;
  }
  apply_update (update_module_params id params) s = record s {
    modules = modify id (λ _. params) s.modules;
  }
  apply_update (update_window_geometry id geometry) s = record s {
    geometry = modify id (λ _. geometry) s.geometry;
  }
  apply_update (update_module_indication id indication) s = record s {
    indications = modify id (λ _. indication) s.indications;
  }
  apply_update (delete_module id) s = record s {
    modules = remove id s.modules;
    geometry = remove id s.geometry;
    indications = remove id s.indications;
    inputs = remove id s.inputs;
    outputs = remove id s.outputs;
  }
  apply_update (create_connection i o) s = record s { connections = insert i o s.connections }
  apply_update (delete_connection i) s = record s { connections = remove i s.connections }

  -- `none` is the panic of a server that is ahead.
  unfoldable pub workspace_synced : Session Params Indication → Option Bool
  workspace_synced s =
      if same s.server (last s.client)
      then some true
      else if behind s.server (last s.client)
      then some false
      else none

  unfoldable pub sync_seq :
      ClientSequence → Session Params Indication → Option (Session Params Indication)
  sync_seq seq s =
      if behind s.server (some seq) then some (record s { server = some seq }) else none

  -- The session after the message, and whether the views are told to render.
  abbrev pub rendering :
      Session Params Indication → Option Bool → Option (Session Params Indication × Bool)
  rendering s none = none
  rendering s (some b) = some (s, b)

  unfoldable pub on_server_message :
      ServerMessage Params Indication
      → Session Params Indication
      → Option (Session Params Indication × Bool)
  unfolding from_protocol apply_update workspace_synced sync_seq
  on_server_message (workspace_state state) s =
      some (record s { state = some (from_protocol state) }, true)
  on_server_message (sync seq) s = elim (sync_seq seq s) [
    | none ↦ none
    | some s' ↦ rendering s' (workspace_synced s')
  ]
  on_server_message (update op) s = elim s.state [
    | none ↦ none
    | some state ↦
        let s' : Session Params Indication = record s { state = some (apply_update op state) } in
        rendering s' (workspace_synced s')
  ]
  on_server_message performance s = some (s, false)
  on_server_message media_library s = some (s, false)

  -- `update_workspace`: the number of the new message. In the browser a `usize` has 32 bits.
  unfoldable pub next_sequence :
      Session Params Indication → Option (ClientSequence × Session Params Indication)
  next_sequence s =
      if ltb (s.client + 1) (2 ^ 32)
      then some (s.client + 1, record s { client = s.client + 1 })
      else none

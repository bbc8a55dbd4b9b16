-- ===== src/Engine/Mirror/Connected.antt =====
-- A client from its connection on.
use mixlab.Prelude.{ℕ, ◌≡◌, subst, List, some, some_inj, Option-cases, inl, inr}
use mixlab.Protocol.{WorkspaceState, module_key}
use mixlab.Session.{from_protocol}
use mixlab.Util.{next}
use mixlab.Engine.Host.{ModuleHost, HostLaws}
use mixlab.Engine.Timing.{EngineStat}
use mixlab.Engine.Update.{Engine, WorkspaceMessage, connect_session, run_messages}
use mixlab.Engine.Invariant.{IsValid}
use mixlab.Engine.Mirror.{Mirrors, Follows}
use mixlab.Engine.Mirror.Messages.{dump_state-Mirrors, run_messages-Follows}

module _ {host : ModuleHost} where
  open host use {Module, Params, Indication}

  -- A new client is sent a copy of the workspace, and connecting it changes neither that nor the log.
  connect_session-Mirrors :
      (e e' : Engine host) (id : ℕ) (state : WorkspaceState Params Indication)
      → IsValid e.workspace
      → connect_session e ≡ some (id, state, e')
      → Mirrors e'.workspace (from_protocol state)
  unfolding connect_session
  connect_session-Mirrors e e' id state v h = elim (Option-cases (next e.session_seq)) [
    | inl full ↦ cc (h, full)
    | inr (n, room) ↦
        let same = some_inj (rw (room, connect_session) at h) in
        subst (λ x. Mirrors x.2.workspace (from_protocol x.1)) same
          (dump_state-Mirrors e.workspace v.modules_map v.geometry_map v.indications_map
            v.connections_map)
  ]

  -- In a valid workspace, with modules that obey the laws, a client that replays what the engine logs
  -- after its connection has a copy of the workspace, whatever messages all the clients send: each
  -- module with its parameters, its terminals, its window and its indication, and each connection.
  pub client_keeps_copy :
      HostLaws host
      → (e e' : Engine host) (id : ℕ) (state : WorkspaceState Params Indication)
        (msgs : List (ℕ × WorkspaceMessage host)) (stat : EngineStat) (s : Engine host × EngineStat)
      → IsValid e.workspace
      → connect_session e ≡ some (id, state, e')
      → run_messages msgs (e', stat) ≡ some s
      → Follows e' s.0 (from_protocol state)
  client_keeps_copy laws e e' id state msgs stat s v h r =
      run_messages-Follows laws msgs (e', stat) s (from_protocol state)
        (connect_session-Mirrors e e' id state v h) r

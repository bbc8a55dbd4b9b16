-- ===== src/Engine/Workspace/Connect.antt =====
-- What `connect` does on each branch.
use mixlab.Prelude.{◌≡◌, ◌⊎◌, inl, inr, some, arith, Option-cases}
use mixlab.Prelude.Map.{get, insert}
use mixlab.Prelude.Result.{ok, err}
use mixlab.Protocol.{InputId, OutputId, LineType, input, output, LineType-discrete, input_key}
use mixlab.Engine.Host.{ModuleHost}
use mixlab.Engine.Workspace.{
  Workspace, ConnectError, no_input, no_output, type_mismatch, terminal_type, connect,
}

module _ {host : ModuleHost} (w : Workspace host) (i : InputId) (o : OutputId) where
  abbrev pub Accepted : Type 0
  Accepted =
      (t : LineType) × (terminal_type w (input i) ≡ some t)
      × (terminal_type w (output o) ≡ some t)
      × (connect w i o
          ≡ ok (get i w.connections, record w { connections = insert i o w.connections }))

  pub connect-cases : Accepted ⊎ ((x : ConnectError) × (connect w i o ≡ err x))
  unfolding connect
  connect-cases = elim (Option-cases (terminal_type w (input i))) [
    | inl e ↦ inr (no_input, rw (e, connect))
    | inr (t, e) ↦ elim (Option-cases (terminal_type w (output o))) [
      | inl f ↦ inr (no_output, rw (e, f, connect))
      | inr (u, f) ↦ elim (LineType-discrete t u) [
        | yes same ↦ inl (t, e, rw same f, rw (e, f, connect) (ground arith))
        | no other ↦ inr (type_mismatch, rw (e, f, connect) (ground arith))
      ]
    ]
  ]

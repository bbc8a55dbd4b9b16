-- ===== src/Engine/Invariant.antt =====
-- What holds of the workspace between two messages.
pub mod Steps
pub mod Changes
pub mod Ops
pub mod Load
pub mod Reload
pub mod Restore
use mixlab.Prelude.{ℕ, ◌≡◌, ◌≤◌, ◌<◌, some}
use mixlab.Prelude.Map.{get, IsMap}
use mixlab.Protocol.{ModuleId, InputId, OutputId, LineType, input, output, module_key, input_key}
use mixlab.Engine.Host.{ModuleHost}
use mixlab.Engine.Workspace.{Workspace, terminal_type}

-- Both ends exist and carry the same kind of line.
abbrev pub IsTyped : {host : ModuleHost} → Workspace host → InputId → OutputId → Type 0
IsTyped w i o =
    (t : LineType) × (terminal_type w (input i) ≡ some t) × (terminal_type w (output o) ≡ some t)

pub record IsValid {host : ModuleHost} (w : Workspace host) : Type 0 where
  pub typed : (i : InputId) (o : OutputId) → get i w.connections ≡ some o → IsTyped w i o
  -- Numbers that were given out are not given out again.
  pub numbered :
      (id : ModuleId) (m : host.Module) → get id w.modules ≡ some m → (1 ≤ id) × (id ≤ w.module_seq)
  pub modules_map : IsMap w.modules
  pub geometry_map : IsMap w.geometry
  pub indications_map : IsMap w.indications
  pub connections_map : IsMap w.connections

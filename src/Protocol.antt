-- ===== src/Protocol.antt =====
-- protocol/src/lib.rs: what the engine and its clients say to one another. A float is a value of an
-- abstract type, and so are the parameters and the indication of a module: `ModuleHost` of Engine
-- stands for the modules behind them.
use mixlab.Prelude.{ℕ, ℕ_discrete, List, Option}
use mixlab.Prelude.Int.{ℤ, pos}
use mixlab.Prelude.Map.{Key, Map}
use Prim.Native.String.{String}

-- A `NonZeroUsize`.
abbrev pub ModuleId : Type 0
ModuleId = ℕ

pub record InputId : Type 0 where
  pub module_id : ModuleId
  pub index : ℕ

pub record OutputId : Type 0 where
  pub module_id : ModuleId
  pub index : ℕ

pub data TerminalId : Type 0 where
  input : InputId → TerminalId
  output : OutputId → TerminalId

pub data LineType : Type 0 where
  mono stereo video : LineType

pub record Terminal : Type 0 where
  pub label : Option String
  pub line_type : LineType

unfoldable pub LineType-discrete : Discrete LineType
LineType-discrete = hlevel

unfoldable pub InputId-discrete : Discrete InputId
InputId-discrete = hlevel ℕ_discrete

instance abbrev pub module_key : Key ModuleId
module_key = record { eq? = ℕ_discrete }

instance abbrev pub input_key : Key InputId
input_key = record { eq? = InputId-discrete }

unfoldable pub OutputId-discrete : Discrete OutputId
OutputId-discrete = hlevel ℕ_discrete

instance abbrev pub output_key : Key OutputId
output_key = record { eq? = OutputId-discrete }

pub record Coords : Type 0 where
  pub x : ℤ
  pub y : ℤ

pub record WindowGeometry : Type 0 where
  pub position : Coords
  pub z_index : ℕ

-- `WindowGeometry::default()`, which is derived.
abbrev pub default_geometry : WindowGeometry
default_geometry = record { position = record { x = pos 0; y = pos 0 }; z_index = 0 }

abbrev pub ClientSequence : Type 0
ClientSequence = ℕ

module _ (Params Indication : Type 0) where
  pub data WorkspaceOp : Type 0 where
    create_module : Params → WindowGeometry → WorkspaceOp
    update_module_params : ModuleId → Params → WorkspaceOp
    update_window_geometry : ModuleId → WindowGeometry → WorkspaceOp
    delete_module : ModuleId → WorkspaceOp
    create_connection : InputId → OutputId → WorkspaceOp
    delete_connection : InputId → WorkspaceOp

  pub record CreatedModule : Type 0 where
    pub id : ModuleId
    pub params : Params
    pub geometry : WindowGeometry
    pub indication : Indication
    pub inputs : List Terminal
    pub outputs : List Terminal

  pub data ServerUpdate : Type 0 where
    create_module : CreatedModule → ServerUpdate
    update_module_params : ModuleId → Params → ServerUpdate
    update_window_geometry : ModuleId → WindowGeometry → ServerUpdate
    update_module_indication : ModuleId → Indication → ServerUpdate
    delete_module : ModuleId → ServerUpdate
    create_connection : InputId → OutputId → ServerUpdate
    delete_connection : InputId → ServerUpdate

  -- The vectors of `WorkspaceState`.
  pub record WorkspaceState : Type 0 where
    pub modules : Map ModuleId Params
    pub geometry : Map ModuleId WindowGeometry
    pub indications : Map ModuleId Indication
    pub connections : Map InputId OutputId
    pub inputs : Map ModuleId (List Terminal)
    pub outputs : Map ModuleId (List Terminal)

-- ===== src/Engine/Workspace.antt =====
-- src/engine/workspace.rs and src/persist.rs: modules, their windows and their connections, and the
-- form of them that is saved.
pub mod Connect
use mixlab.Prelude.{ℕ, zero, suc, List, [], ◌∷◌, map, Option, none, some, length, get_elem?, ite}
use mixlab.Prelude.Map.{Map, get, insert, remove, map_values}
use mixlab.Prelude.Result.{Result, ok, err, ◌>>=◌}
use mixlab.Protocol.{
  ModuleId, InputId, OutputId, TerminalId, input, output, LineType, Terminal, LineType-discrete,
  WindowGeometry, default_geometry, module_key, input_key,
}
use mixlab.Engine.Host.{ModuleHost}

pub data ConnectError : Type 0 where
  no_input no_output type_mismatch : ConnectError

-- `enumerate`, from an index on.
unfoldable pub enumerate_from {ℓ} : {A : Type ℓ} → ℕ → List A → List (ℕ × A)
enumerate_from i [] = []
enumerate_from i (x ∷ xs) = (i, x) ∷ enumerate_from (suc i) xs

-- `(i..i + n)`.
unfoldable pub range_from : ℕ → ℕ → List ℕ
range_from i zero = []
range_from i (suc n) = i ∷ range_from (suc i) n

-- `TerminalId::module_id`.
abbrev pub terminal_module_id : TerminalId → ModuleId
terminal_module_id (input i) = i.module_id
terminal_module_id (output o) = o.module_id

abbrev pub or_err {ℓ} : {A : Type ℓ} → Option A → ConnectError → Result ConnectError A
or_err none e = err e
or_err (some a) e = ok a

abbrev pub or_default : Option WindowGeometry → WindowGeometry
or_default none = default_geometry
or_default (some g) = g

module _ (host : ModuleHost) where
  open host use {Params, Indication, Module}

  -- `persist::Module` and `persist::Workspace`.
  pub record SavedModule : Type 0 where
    pub params : Params
    pub geometry : WindowGeometry
    pub inputs : List (Option OutputId)

  pub record SavedWorkspace : Type 0 where
    pub module_seq : ℕ
    pub modules : Map ModuleId SavedModule

  pub record Workspace : Type 0 where
    pub module_seq : ℕ
    pub modules : Map ModuleId Module
    pub geometry : Map ModuleId WindowGeometry
    pub connections : Map InputId OutputId
    pub indications : Map ModuleId Indication

  -- The terminal of one module.
  abbrev pub module_terminal : TerminalId → Module → Option Terminal
  module_terminal (input i) m = get_elem? (host.inputs m) i.index
  module_terminal (output o) m = get_elem? (host.outputs m) o.index

  abbrev pub line_type_of : TerminalId → Option Module → Option LineType
  line_type_of t none = none
  line_type_of t (some m) = elim (module_terminal t m) [
    | none ↦ none
    | some terminal ↦ some terminal.line_type
  ]

module _ {host : ModuleHost} where
  open host use {Module}

  unfoldable pub terminal_type : Workspace host → TerminalId → Option LineType
  terminal_type w t = line_type_of host t (get (terminal_module_id t) w.modules)

  -- The output that was connected before, and the workspace after.
  unfoldable pub connect :
      Workspace host → InputId → OutputId → Result ConnectError (Option OutputId × Workspace host)
  connect w input_id output_id = do
    input_type ← or_err (terminal_type w (input input_id)) no_input
    output_type ← or_err (terminal_type w (output output_id)) no_output
    ite (LineType-discrete input_type output_type)
        (ok (
          get input_id w.connections,
          record w { connections = insert input_id output_id w.connections },
        ))
        (err type_mismatch)

  unfoldable pub disconnect : Workspace host → InputId → Option OutputId × Workspace host
  disconnect w input_id =
      (get input_id w.connections, record w { connections = remove input_id w.connections })

  -- The first loop of `from_persist`.
  unfoldable pub load_modules : Map ModuleId (SavedModule host) → Workspace host → Workspace host
  load_modules [] w = w
  load_modules ((id, saved) ∷ rest) w =
      let (m, indication) = host.create saved.params in
      load_modules rest (record w {
        modules = insert id m w.modules;
        geometry = insert id saved.geometry w.geometry;
        indications = insert id indication w.indications;
      })

  -- A connection that is refused is dropped.
  abbrev pub after_connect :
      Workspace host → Result ConnectError (Option OutputId × Workspace host) → Workspace host
  after_connect w (ok (old, w')) = w'
  after_connect w _ = w

  -- The connections of one saved module.
  unfoldable pub load_inputs :
      ModuleId → List (ℕ × Option OutputId) → Workspace host → Workspace host
  load_inputs id [] w = w
  load_inputs id ((index, none) ∷ rest) w = load_inputs id rest w
  load_inputs id ((index, some output_id) ∷ rest) w =
      load_inputs id rest
        (after_connect w (connect w (record { module_id = id; index = index }) output_id))

  -- The second loop of `from_persist`.
  unfoldable pub load_connections :
      Map ModuleId (SavedModule host) → Workspace host → Workspace host
  unfolding load_inputs enumerate_from
  load_connections [] w = w
  load_connections ((id, saved) ∷ rest) w =
      load_connections rest (load_inputs id (enumerate_from 0 saved.inputs) w)

  unfoldable pub from_persist : SavedWorkspace host → Workspace host
  unfolding load_modules load_connections
  from_persist save = load_connections save.modules (
      load_modules save.modules (record {
        module_seq = save.module_seq;
        modules = [];
        geometry = [];
        connections = [];
        indications = [];
      }))

  unfoldable pub saved_inputs : Workspace host → ModuleId → Module → List (Option OutputId)
  unfolding range_from
  saved_inputs w id m =
      map (λ index. get (record { module_id = id; index = index }) w.connections)
        (range_from 0 (length (host.inputs m)))

  unfoldable pub to_persist : Workspace host → SavedWorkspace host
  unfolding saved_inputs
  to_persist w = record {
    module_seq = w.module_seq;
    modules =
        map_values
          (λ id m. record {
            params = host.params m;
            geometry = or_default (get id w.geometry);
            inputs = saved_inputs w id m;
          })
          w.modules;
  }

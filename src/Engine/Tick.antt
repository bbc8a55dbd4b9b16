-- ===== src/Engine/Tick.antt =====
-- The second half of `run_tick` in src/engine.rs: the modules run in order, each with the buffers of
-- the outputs that feed it. The statistics that it keeps are in Engine.Timing.
pub mod Kinds
pub mod Types
use mixlab.Prelude.{ℕ, suc, ◌*◌, ◌%◌, ◌^◌, Option, none, some, List, [], ◌∷◌, ◌++◌, map, length}
use mixlab.Prelude.Map.{Map, get, insert}
use mixlab.Prelude.Result.{Result, ok, err, panic}
use mixlab.Protocol.{ModuleId, OutputId, Terminal, module_key, input_key, output_key}
use mixlab.Engine.Host.{ModuleHost}
use mixlab.Engine.Workspace.{Workspace, range_from}
use mixlab.Engine.Io.{
  Signals, InputRef, Output, disconnected, from_line_type, as_input_ref, samples_per_tick,
}
use mixlab.Engine.Order.{Topsort, OutOfFuel, run_order}

-- `run_tick` of a module: the time, the inputs, and the outputs, which it fills in place.
pub record TickHost (host : ModuleHost) (signals : Signals) : Type 0 where
  pub run :
      host.Module
      → ℕ
      → List (InputRef signals)
      → List (Output signals)
      → host.Module × List (Output signals) × Option host.Indication

-- What has run so far: the modules after their turns, and the buffers.
pub record Tick (host : ModuleHost) (signals : Signals) : Type 0 where
  pub workspace : Workspace host
  pub buffers : Map OutputId (Output signals)
  pub indications : List (ModuleId × host.Indication)

module _ {host : ModuleHost} {signals : Signals} (ticks : TickHost host signals) where
  open host use {Module, Indication}

  abbrev pub buffer_ref : Option (Output signals) → InputRef signals
  buffer_ref none = disconnected
  buffer_ref (some output) = as_input_ref output

  abbrev pub connected_ref : Map OutputId (Output signals) → Option OutputId → InputRef signals
  connected_ref buffers none = disconnected
  connected_ref buffers (some o) = buffer_ref (get o buffers)

  unfoldable pub input_refs : Tick host signals → ModuleId → List ℕ → List (InputRef signals)
  unfolding as_input_ref
  input_refs s id [] = []
  input_refs s id (index ∷ rest) =
      connected_ref s.buffers
        (get (record { module_id = id; index = index }) s.workspace.connections)
      ∷ input_refs s id rest

  unfoldable pub store_outputs :
      ModuleId
      → ℕ
      → List (Output signals)
      → Map OutputId (Output signals)
      → Map OutputId (Output signals)
  store_outputs id i [] buffers = buffers
  store_outputs id i (output ∷ rest) buffers =
      store_outputs id (suc i) rest (insert (record { module_id = id; index = i }) output buffers)

  abbrev pub indicated : ModuleId → Option Indication → List (ModuleId × Indication)
  indicated id none = []
  indicated id (some indic) = (id, indic) ∷ []

  abbrev pub output_buffers : Module → List (Output signals)
  output_buffers m = map (λ (t : Terminal). from_line_type t.line_type) (host.outputs m)

  -- One turn of the loop. The time is a `u64`.
  unfoldable pub run_module : ℕ → ModuleId → Tick host signals → Option (Tick host signals)
  unfolding input_refs store_outputs
  run_module tick id s = elim (get id s.workspace.modules) [
    | none ↦ none
    | some m ↦
        let inputs = input_refs s id (range_from 0 (length (host.inputs m))) in
        let (m', outputs, result) =
          ticks.run m (tick * samples_per_tick % 2 ^ 64) inputs (output_buffers m) in
        some (record {
          workspace = record s.workspace { modules = insert id m' s.workspace.modules };
          buffers = store_outputs id 0 outputs s.buffers;
          indications = s.indications ++ indicated id result;
        })
  ]

  unfoldable pub run_modules : ℕ → List ModuleId → Tick host signals → Option (Tick host signals)
  run_modules tick [] s = some s
  run_modules tick (id ∷ ids) s = elim (run_module tick id s) [
    | none ↦ none
    | some s' ↦ run_modules tick ids s'
  ]

  abbrev pub after_order :
      ℕ → Workspace host → Result OutOfFuel Topsort → Option (Tick host signals)
  after_order tick w (ok order) =
      run_modules tick order.run_order (record { workspace = w; buffers = []; indications = [] })
  after_order tick w (err _) = none
  after_order tick w panic = none

  unfoldable pub run_tick : ℕ → Workspace host → Option (Tick host signals)
  unfolding run_modules
  run_tick tick w = after_order tick w (run_order w)

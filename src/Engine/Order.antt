-- ===== src/Engine/Order.antt =====
-- The first half of `run_tick` in src/engine.rs: the order in which a tick runs the modules, by a
-- depth-first search from the modules that feed no other.
pub mod Sources
pub mod Search
pub mod Run
pub mod Complete
use mixlab.Prelude.{
  ℕ, zero, suc, ◌+◌, ◌≡◌, List, [], ◌∷◌, ◌++◌, map, Option, none, some, length, ◌==◌, ◌||◌, Bool,
  true, false, if◌then◌else◌,
}
use mixlab.Prelude.Map.{Map, get}
use mixlab.Prelude.Result.{Result, ok, err, panic, ◌>>=◌}
use mixlab.Protocol.{ModuleId, InputId, OutputId, module_key, input_key}
use mixlab.Engine.Host.{ModuleHost}
use mixlab.Engine.Workspace.{Workspace, range_from}

-- The search has run out of fuel.
pub data OutOfFuel : Type 0 where
  out_of_fuel : OutOfFuel

-- `HashSet::contains`.
unfoldable pub contains : ModuleId → List ModuleId → Bool
contains id [] = false
contains id (x ∷ xs) = x == id || contains id xs

unfoldable pub keys {ℓ} : {V : Type ℓ} → List (ModuleId × V) → List ModuleId
keys [] = []
keys ((id, _) ∷ rest) = id ∷ keys rest

unfoldable pub without : ModuleId → List ModuleId → List ModuleId
without id [] = []
without id (x ∷ xs) = let rest = without id xs in if x == id then rest else x ∷ rest

unfoldable pub without_feeding : Map InputId OutputId → List ModuleId → List ModuleId
unfolding without
without_feeding [] ids = ids
without_feeding ((_, o) ∷ rest) ids = without_feeding rest (without o.module_id ids)

pub record Topsort : Type 0 where
  pub run_order : List ModuleId
  pub seen : List ModuleId

abbrev pub Search : Type 0
Search = Result OutOfFuel Topsort

module _ {host : ModuleHost} (w : Workspace host) where
  open host use {Module}

  unfoldable pub terminal_modules : List ModuleId
  unfolding keys without_feeding
  terminal_modules = without_feeding w.connections (keys w.modules)

  -- The loop over the inputs of one module, with the recursive call as an argument.
  unfoldable pub visit_inputs : (ModuleId → Topsort → Search) → ModuleId → List ℕ → Topsort → Search
  visit_inputs visit id [] s = ok s
  visit_inputs visit id (index ∷ rest) s =
      elim (get (record { module_id = id; index = index }) w.connections) [
        | none ↦ visit_inputs visit id rest s
        | some o ↦ visit o.module_id s >>= visit_inputs visit id rest
      ]

  abbrev pub push : ModuleId → Topsort → Search
  push id s = ok (record s { run_order = s.run_order ++ id ∷ [] })

  abbrev pub visit_module :
      (ModuleId → Topsort → Search) → ModuleId → Option Module → Topsort → Search
  visit_module visit id none s = panic
  visit_module visit id (some m) s =
      visit_inputs visit id (range_from 0 (length (host.inputs m))) s >>= push id

  -- `panic` is the index into the map of modules.
  unfoldable pub traverse : ℕ → ModuleId → Topsort → Search
  unfolding contains visit_inputs range_from
  traverse zero id s = err out_of_fuel
  traverse (suc fuel) id s =
      if contains id s.seen
      then ok s
      else visit_module (traverse fuel) id (get id w.modules) (record s { seen = id ∷ s.seen })

  unfoldable pub traverse_all : ℕ → List ModuleId → Topsort → Search
  traverse_all fuel [] s = ok s
  traverse_all fuel (id ∷ ids) s = traverse fuel id s >>= traverse_all fuel ids

  -- One more call than there are modules is nested at most.
  unfoldable pub run_order : Search
  unfolding traverse_all terminal_modules
  run_order =
      traverse_all (suc (length w.modules)) terminal_modules (record { run_order = []; seen = [] })

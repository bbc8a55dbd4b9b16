-- ===== src/Engine/Invariant/Restore.antt =====
-- A workspace of src/engine/workspace.rs that is saved and loaded again.
use mixlab.Prelude.{
  ◌≡◌, ◌<◌, inl, inr, refl, ap, ◌∙◌, [], Option, none, some, arith, length, Option-cases,
}
use mathlib.Core.Option
use mixlab.Prelude.Map.{Map, get, or_else, map_values, get-map_values, IsMap-map_values}
use mixlab.Protocol.{
  ModuleId, InputId, OutputId, LineType, TerminalId, input, output, module_key, input_key,
}
use mixlab.Engine.Host.{ModuleHost}
use mixlab.Engine.Workspace.{
  Workspace, SavedModule, terminal_type, load_modules, load_connections, from_persist, to_persist,
  saved_inputs, or_default,
}
use mixlab.Engine.Invariant.{IsValid, IsTyped}
use mixlab.Engine.Order.Complete.{input-Exists}
use mixlab.Engine.Invariant.Reload.{
  load_modules-get, load_modules-connections, none-Restored, load_connections-Step, Step,
}

-- A module that is made anew from the parameters of another has its terminals.
pub record RestoreLaws (host : ModuleHost) : Type 0 where
  pub same_inputs : (m : host.Module) → host.inputs (host.create (host.params m)).0 ≡ host.inputs m
  pub same_outputs :
      (m : host.Module) → host.outputs (host.create (host.params m)).0 ≡ host.outputs m

-- The module that the parameters of another make.
abbrev pub made : (host : ModuleHost) → host.Module → host.Module
made host m = (host.create (host.params m)).0

or_else-map :
    {A B C : Type 0} (f : A → B) (g : B → C) (o : Option A)
    → or_else (Option.map g (Option.map f o)) none ≡ Option.map (λ a. g (f a)) o
or_else-map f g none = refl
or_else-map f g (some a) = refl

module _ {host : ModuleHost} where
  open host use {Module}

  made_type :
      RestoreLaws host
      → (w s : Workspace host)
      → ((k : ModuleId) → get k s.modules ≡ Option.map (made host) (get k w.modules))
      → (t : TerminalId) (l : LineType) → terminal_type w t ≡ some l
      → terminal_type s t ≡ some l
  unfolding terminal_type
  made_type laws w s same (input i) l h = elim (Option-cases (get i.module_id w.modules)) [
    | inl e ↦ absurd (ground (arith, h, e))
    | inr (m, e) ↦ ground (arith, same i.module_id, e, laws.same_inputs m, h)
  ]
  made_type laws w s same (output o) l h = elim (Option-cases (get o.module_id w.modules)) [
    | inl e ↦ absurd (ground (arith, h, e))
    | inr (m, e) ↦ ground (arith, same o.module_id, e, laws.same_outputs m, h)
  ]

  -- A valid workspace that is saved and loaded again has the same connections, and each of its modules
  -- made anew from its parameters, where a module that is so made has the terminals that it had.
  pub restores :
      RestoreLaws host
      → (w : Workspace host) → IsValid w
      → ((k : ModuleId)
          → get k (from_persist (to_persist w)).modules ≡ Option.map (made host) (get k w.modules))
        × ((i : InputId) → get i (from_persist (to_persist w)).connections ≡ get i w.connections)
  unfolding from_persist to_persist get
  restores laws w valid = (
    λ k. ap (get k) (steps (record { module_id = 0; index = 0 })).0 ∙ loaded_modules k,
    connections,
  )
    where
      saved_module : ModuleId → Module → SavedModule host
      saved_module id m = record {
        params = host.params m;
        geometry = or_default (get id w.geometry);
        inputs = saved_inputs w id m;
      }

      saved : Map ModuleId (SavedModule host)
      saved = map_values saved_module w.modules

      start : Workspace host
      start = record {
        module_seq = w.module_seq;
        modules = [];
        geometry = [];
        connections = [];
        indications = [];
      }

      loaded : Workspace host
      loaded = load_modules saved start

      loaded_modules :
          (k : ModuleId) → get k loaded.modules ≡ Option.map (made host) (get k w.modules)
      loaded_modules k =
          load_modules-get saved start k (IsMap-map_values saved_module w.modules valid.modules_map)
          ∙ (ap
                (λ o.
                  or_else (Option.map (λ (x : SavedModule host). (host.create x.params).0) o) none)
                (get-map_values saved_module k w.modules)
              ∙ or_else-map (saved_module k) (λ x. (host.create x.params).0) (get k w.modules))

      typed : (j : InputId) (o : OutputId) → get j w.connections ≡ some o → IsTyped loaded j o
      typed j o g =
          let (t, ti, to) = valid.typed j o g in
          (
            t,
            made_type laws w loaded loaded_modules (input j) t ti,
            made_type laws w loaded loaded_modules (output o) t to,
          )

      steps :
          (i : InputId)
          → Step w.connections i
              ((m : Module) × (get i.module_id w.modules ≡ some m)
                × (i.index < length (host.inputs m)))
              loaded
              (load_connections saved loaded)
      steps i = load_connections-Step w i w.modules loaded typed

      connections :
          (i : InputId) → get i (load_connections saved loaded).connections ≡ get i w.connections
      connections i =
          let (_, p, r, reach) = steps i in
          let bare : get i loaded.connections ≡ none =
            ap (get i) (load_modules-connections saved start) in
          elim (Option-cases (get i w.connections)) [
            | inl n ↦ none-Restored w.connections i (load_connections saved loaded) (p (inl bare)) n
            | inr (o, g) ↦
                let (t, ti, _) = valid.typed i o g in reach (input-Exists w i t ti) (inl bare)
          ]

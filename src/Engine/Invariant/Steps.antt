-- ===== src/Engine/Invariant/Steps.antt =====
-- Each operation of the engine keeps the workspace valid.
use mixlab.Prelude.{◌≡◌, ◌≢◌, inl, inr, List, [], ◌∷◌, some, arith, All, Option-cases}
use mixlab.Prelude.Map.{Map, get, insert, remove, get-insert, get-remove, IsMap, IsMap-remove}
use mixlab.Protocol.{
  ModuleId, InputId, OutputId, LineType, TerminalId, input, output, module_key, input_key,
}
use mixlab.Engine.Host.{ModuleHost}
use mixlab.Engine.Workspace.{Workspace, terminal_type, terminal_module_id}
use mixlab.Engine.Update.{attached, remove_all}

pub get-remove_all :
    (is : List InputId) (m : Map InputId OutputId) (i : InputId) (o : OutputId)
    → get i (remove_all is m) ≡ some o
    → (get i m ≡ some o) × All (λ j. j ≢ i) is
unfolding remove_all
get-remove_all [] m i o h = (h, tt)
get-remove_all (j ∷ is) m i o h =
    let (kept, others) = get-remove_all is (remove j m) i o h in
    ground (arith, others, get-remove j i m)

-- What is not attached touches the module at neither end.
pub attached_complete :
    (id : ModuleId) (m : Map InputId OutputId) (i : InputId) (o : OutputId)
    → All (λ j. j ≢ i) (attached id m)
    → get i m ≡ some o
    → (i.module_id ≢ id) × (o.module_id ≢ id)
unfolding attached get
attached_complete id [] i o a h = cc
attached_complete id ((j, p) ∷ m) i o a h = ground (arith, attached_complete id m i o)

pub IsMap-remove_all :
    (is : List InputId) (m : Map InputId OutputId) → IsMap m → IsMap (remove_all is m)
unfolding remove_all
IsMap-remove_all [] m h = h
IsMap-remove_all (i ∷ is) m h = IsMap-remove_all is (remove i m) (IsMap-remove i m h)

module _ {host : ModuleHost} (w : Workspace host) where
  open host use {Module, Params, Indication}

  -- A terminal that exists belongs to a module that exists.
  terminal_type-module :
      (t : TerminalId) (l : LineType)
      → terminal_type w t ≡ some l
      → (m : Module) × (get (terminal_module_id t) w.modules ≡ some m)
  unfolding terminal_type
  terminal_type-module t l h = elim (Option-cases (get (terminal_module_id t) w.modules)) [
    | inl gone ↦ absurd (cc (h, gone))
    | inr found ↦ found
  ]

  -- A terminal keeps its type when a module is added, or replaced by one with the same terminals.
  pub terminal_type-insert :
      (id : ModuleId) (m : Module)
      → ((m0 : Module)
          → get id w.modules ≡ some m0
          → (host.inputs m ≡ host.inputs m0) × (host.outputs m ≡ host.outputs m0))
      → (w' : Workspace host) → w'.modules ≡ insert id m w.modules
      → (t : TerminalId) (l : LineType) → terminal_type w t ≡ some l
      → terminal_type w' t ≡ some l
  unfolding terminal_type
  terminal_type-insert id m same w' e (input i) l h =
      let (m0, found) = terminal_type-module (input i) l h in
      ground (arith, get-insert id i.module_id m w.modules, same m0, found)
  terminal_type-insert id m same w' e (output o) l h =
      let (m0, found) = terminal_type-module (output o) l h in
      ground (arith, get-insert id o.module_id m w.modules, same m0, found)

  pub terminal_type-remove :
      (id : ModuleId) (w' : Workspace host)
      → w'.modules ≡ remove id w.modules
      → (t : TerminalId) (l : LineType) → terminal_module_id t ≢ id
      → terminal_type w t ≡ some l
      → terminal_type w' t ≡ some l
  unfolding terminal_type
  terminal_type-remove id w' e t l n h =
      ground (arith, get-remove id (terminal_module_id t) w.modules)

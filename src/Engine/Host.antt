-- ===== src/Engine/Host.antt =====
-- src/engine/module.rs: a module behind `DynModuleHostT`, as the engine sees it. The trait is a record
-- of functions; each module under src/module/ is one way to fill it.
use mixlab.Prelude.{List, Option, ◌≡◌, some}
use mixlab.Protocol.{Terminal}

pub record ModuleHost : Type 1 where
  pub Params : Type 0
  pub Indication : Type 0
  pub Module : Type 0
  -- `module::host`: creates the module that the parameters ask for.
  pub create : Params → Module × Indication
  pub params : Module → Params
  -- `none` is a panic: "module params mismatch", or one of the module's own, as when the update of an
  -- output device cannot open its stream.
  pub update : Module → Params → Option (Module × Option Indication)
  pub inputs : Module → List Terminal
  pub outputs : Module → List Terminal

-- What the engine relies on: a module has the parameters that it was created with, and an update does
-- not change its terminals.
pub record HostLaws (host : ModuleHost) : Type 0 where
  pub created : (p : host.Params) → host.params (host.create p).0 ≡ p
  pub kept :
      (m : host.Module) (p : host.Params) (m' : host.Module) (i : Option host.Indication)
      → host.update m p ≡ some (m', i)
      → (host.inputs m' ≡ host.inputs m) × (host.outputs m' ≡ host.outputs m)

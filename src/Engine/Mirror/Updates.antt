-- ===== src/Engine/Mirror/Updates.antt =====
-- One change of the workspace beside one update of a client's copy.

use mixlab.Prelude.{◌≡◌, some, arith}
use mixlab.Prelude.Map.{get, insert, remove, get-insert, get-remove, get-modify}
use mixlab.Protocol.{
  ModuleId, InputId, OutputId, WindowGeometry, ServerUpdate, module_key, input_key,
}
use mixlab.Session.{ClientState, apply_update}
use mixlab.Engine.Host.{ModuleHost}
use mixlab.Engine.Workspace.{Workspace}
use mixlab.Engine.Mirror.{Mirrors}

module _ {host : ModuleHost} (w : Workspace host) (c : ClientState host.Params host.Indication)
    (v : Mirrors w c) where
  open host use {Params, Indication, Module}

  pub Mirrors-create :
      (id : ModuleId) (m : Module) (p : Params) (g : WindowGeometry) (i : Indication)
      → host.params m ≡ p
      → Mirrors
          (record w {
            module_seq = id;
            modules = insert id m w.modules;
            geometry = insert id g w.geometry;
            indications = insert id i w.indications;
          })
          (apply_update
            (ServerUpdate.create_module (record {
              id = id;
              params = p;
              geometry = g;
              indication = i;
              inputs = host.inputs m;
              outputs = host.outputs m;
            }))
            c)
  unfolding apply_update
  Mirrors-create id m p g i e = record {
    modules =
        λ k. ground (arith, get-insert id k p c.modules, get-insert id k m w.modules, v.modules k);
    inputs = λ k.
        ground (
          arith,
          get-insert id k (host.inputs m) c.inputs,
          get-insert id k m w.modules,
          v.inputs k,
        );
    outputs = λ k. ground (
      arith,
      get-insert id k (host.outputs m) c.outputs,
      get-insert id k m w.modules,
      v.outputs k,
    );
    connections = v.connections;
    geometry = λ k m' h. ground (
      arith,
      get-insert id k g c.geometry,
      get-insert id k g w.geometry,
      get-insert id k m w.modules,
      v.geometry k m',
    );
    indications = λ k m' h. ground (
      arith,
      get-insert id k i c.indications,
      get-insert id k i w.indications,
      get-insert id k m w.modules,
      v.indications k m',
    );
  }

  pub Mirrors-params :
      (id : ModuleId) (m m' : Module)
      → get id w.modules ≡ some m
      → host.inputs m' ≡ host.inputs m
      → host.outputs m' ≡ host.outputs m
      → Mirrors
          (record w { modules = insert id m' w.modules })
          (apply_update (ServerUpdate.update_module_params id (host.params m')) c)
  unfolding apply_update
  Mirrors-params id m m' h same_inputs same_outputs = record {
    modules = λ k. ground (
      arith,
      get-modify id k (λ _. host.params m') c.modules,
      get-insert id k m' w.modules,
      v.modules k,
      v.modules id,
    );
    inputs = λ k. ground (arith, get-insert id k m' w.modules, v.inputs k);
    outputs = λ k. ground (arith, get-insert id k m' w.modules, v.outputs k);
    connections = v.connections;
    geometry =
        λ k n e. ground (arith, get-insert id k m' w.modules, v.geometry k n, v.geometry id m);
    indications = λ k n e.
        ground (arith, get-insert id k m' w.modules, v.indications k n, v.indications id m);
  }

  pub Mirrors-geometry :
      (id : ModuleId) (g old : WindowGeometry)
      → get id w.geometry ≡ some old
      → Mirrors
          (record w { geometry = insert id g w.geometry })
          (apply_update (ServerUpdate.update_window_geometry id g) c)
  unfolding apply_update
  Mirrors-geometry id g old h = record {
    modules = v.modules;
    inputs = v.inputs;
    outputs = v.outputs;
    connections = v.connections;
    geometry = λ k m e.
        ground (
          arith,
          get-modify id k (λ _. g) c.geometry,
          get-insert id k g w.geometry,
          v.geometry k m,
        );
    indications = v.indications;
  }

  pub Mirrors-delete :
      (id : ModuleId)
      → Mirrors
          (record w { modules = remove id w.modules })
          (apply_update (ServerUpdate.delete_module id) c)
  unfolding apply_update
  Mirrors-delete id = record {
    modules =
        λ k. ground (arith, get-remove id k c.modules, get-remove id k w.modules, v.modules k);
    inputs = λ k. ground (arith, get-remove id k c.inputs, get-remove id k w.modules, v.inputs k);
    outputs =
        λ k. ground (arith, get-remove id k c.outputs, get-remove id k w.modules, v.outputs k);
    connections = v.connections;
    geometry = λ k m e.
        ground (arith, get-remove id k c.geometry, get-remove id k w.modules, v.geometry k m);
    indications = λ k m e.
        ground (arith, get-remove id k c.indications, get-remove id k w.modules, v.indications k m);
  }

  pub Mirrors-connect :
      (i : InputId) (o : OutputId)
      → Mirrors
          (record w { connections = insert i o w.connections })
          (apply_update (ServerUpdate.create_connection i o) c)
  unfolding apply_update
  Mirrors-connect i o = record {
    modules = v.modules;
    inputs = v.inputs;
    outputs = v.outputs;
    connections = λ j.
        ground
          (arith, get-insert i j o c.connections, get-insert i j o w.connections, v.connections j);
    geometry = v.geometry;
    indications = v.indications;
  }

  pub Mirrors-disconnect :
      (i : InputId)
      → Mirrors
          (record w { connections = remove i w.connections })
          (apply_update (ServerUpdate.delete_connection i) c)
  unfolding apply_update
  Mirrors-disconnect i = record {
    modules = v.modules;
    inputs = v.inputs;
    outputs = v.outputs;
    connections = λ j.
        ground (arith, get-remove i j c.connections, get-remove i j w.connections, v.connections j);
    geometry = v.geometry;
    indications = v.indications;
  }

  -- Where an input has another output already, the client hears of that first.
  pub Mirrors-reconnect :
      (i : InputId) (o : OutputId)
      → Mirrors
          (record w { connections = insert i o w.connections })
          (apply_update
            (ServerUpdate.create_connection i o)
            (apply_update (ServerUpdate.delete_connection i) c))
  unfolding apply_update
  Mirrors-reconnect i o = record {
    modules = v.modules;
    inputs = v.inputs;
    outputs = v.outputs;
    connections = λ j. ground (
      arith,
      get-insert i j o (remove i c.connections),
      get-remove i j c.connections,
      get-insert i j o w.connections,
      v.connections j,
    );
    geometry = v.geometry;
    indications = v.indications;
  }

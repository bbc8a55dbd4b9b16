-- ===== src/Engine/Invariant/Changes.antt =====
-- Each change that a message makes keeps the workspace valid.
use mixlab.Prelude.{◌≡◌, refl, sym, subst, ◌∙◌, some, arith, some_inj}
use mixlab.Prelude.Map.{get, insert, remove, get-insert, get-remove, IsMap-insert, IsMap-remove}
use mixlab.Protocol.{
  ModuleId, InputId, OutputId, LineType, TerminalId, input, output, WindowGeometry, module_key,
  input_key,
}
use mixlab.Util.{next}
use mixlab.Engine.Host.{ModuleHost}
use mixlab.Engine.Workspace.{Workspace, terminal_type}
use mixlab.Engine.Update.{attached, remove_all}
use mixlab.Engine.Invariant.{IsTyped, IsValid}
use mixlab.Engine.Invariant.Steps.{
  get-remove_all, attached_complete, IsMap-remove_all, terminal_type-insert, terminal_type-remove,
}

module _ {host : ModuleHost} where
  open host use {Module, Params, Indication}

  Retyped : (w w' : Workspace host) → Type 0
  Retyped w w' =
      (t : TerminalId) (l : LineType) → terminal_type w t ≡ some l → terminal_type w' t ≡ some l

  IsTyped-Retyped :
      (w w' : Workspace host) (i : InputId) (o : OutputId)
      → Retyped w w'
      → IsTyped w i o
      → IsTyped w' i o
  unfolding Retyped
  IsTyped-Retyped w w' i o r (t, hi, ho) = (t, r (input i) t hi, r (output o) t ho)

  pub IsValid-create :
      (w : Workspace host) (m : Module) (g : WindowGeometry) (x : Indication) (id : ModuleId)
      → IsValid w
      → next w.module_seq ≡ some id
      → IsValid (record w {
        module_seq = id;
        modules = insert id m w.modules;
        geometry = insert id g w.geometry;
        indications = insert id x w.indications;
      })
  unfolding next
  IsValid-create w m g x id v h = record {
    typed = λ i o c.
        IsTyped-Retyped w _ i o
          (unfold Retyped in terminal_type-insert w id m (λ m0 e. absurd (fresh m0 e)) _ refl)
          (v.typed i o c);
    numbered = λ k n e. ground (arith, get-insert id k m w.modules, v.numbered k n);
    modules_map = IsMap-insert id m w.modules v.modules_map;
    geometry_map = IsMap-insert id g w.geometry v.geometry_map;
    indications_map = IsMap-insert id x w.indications v.indications_map;
    connections_map = v.connections_map;
  }
    where
      fresh : (m0 : Module) → get id w.modules ≡ some m0 → ⊥
      fresh m0 e = ground (arith, v.numbered id m0 e)

  pub IsValid-update :
      (w : Workspace host) (m m' : Module) (id : ModuleId)
      → IsValid w
      → get id w.modules ≡ some m
      → (host.inputs m' ≡ host.inputs m) × (host.outputs m' ≡ host.outputs m)
      → IsValid (record w { modules = insert id m' w.modules })
  IsValid-update w m m' id v h same = record {
    typed = λ i o c.
        IsTyped-Retyped w _ i o
          (unfold Retyped in
            terminal_type-insert w id m'
              (λ m0 e.
                subst (λ n. (host.inputs m' ≡ host.inputs n) × (host.outputs m' ≡ host.outputs n))
                  (some_inj (sym h ∙ e)) same)
              _ refl)
          (v.typed i o c);
    numbered =
        λ k n e. ground (arith, get-insert id k m' w.modules, v.numbered k n, v.numbered id m);
    modules_map = IsMap-insert id m' w.modules v.modules_map;
    geometry_map = v.geometry_map;
    indications_map = v.indications_map;
    connections_map = v.connections_map;
  }

  pub IsValid-delete :
      (w : Workspace host) (id : ModuleId)
      → IsValid w
      → IsValid (record w {
        connections = remove_all (attached id w.connections) w.connections;
        modules = remove id w.modules;
      })
  IsValid-delete w id v = record {
    typed = λ i o c.
        let (was, free) = get-remove_all (attached id w.connections) w.connections i o c in
        let (ni, no') = attached_complete id w.connections i o free was in
        let (t, hi, ho) = v.typed i o was in
        (
          t,
          terminal_type-remove w id _ refl (input i) t ni hi,
          terminal_type-remove w id _ refl (output o) t no' ho,
        );
    numbered = λ k n e. ground (arith, get-remove id k w.modules, v.numbered k n);
    modules_map = IsMap-remove id w.modules v.modules_map;
    geometry_map = v.geometry_map;
    indications_map = v.indications_map;
    connections_map = IsMap-remove_all _ w.connections v.connections_map;
  }

  pub IsValid-geometry :
      (w : Workspace host) (id : ModuleId) (g : WindowGeometry)
      → IsValid w
      → IsValid (record w { geometry = insert id g w.geometry })
  unfolding terminal_type
  IsValid-geometry w id g v = record {
    typed = v.typed;
    numbered = v.numbered;
    modules_map = v.modules_map;
    geometry_map = IsMap-insert id g w.geometry v.geometry_map;
    indications_map = v.indications_map;
    connections_map = v.connections_map;
  }

  pub IsValid-connect :
      (w : Workspace host) (i : InputId) (o : OutputId)
      → IsValid w
      → IsTyped w i o
      → IsValid (record w { connections = insert i o w.connections })
  unfolding terminal_type
  IsValid-connect w i o v t = record {
    typed = λ j p c. ground (arith, get-insert i j o w.connections, v.typed j p);
    numbered = v.numbered;
    modules_map = v.modules_map;
    geometry_map = v.geometry_map;
    indications_map = v.indications_map;
    connections_map = IsMap-insert i o w.connections v.connections_map;
  }

  pub IsValid-disconnect :
      (w : Workspace host) (i : InputId)
      → IsValid w
      → IsValid (record w { connections = remove i w.connections })
  unfolding terminal_type
  IsValid-disconnect w i v = record {
    typed = λ j p c. ground (arith, get-remove i j w.connections, v.typed j p);
    numbered = v.numbered;
    modules_map = v.modules_map;
    geometry_map = v.geometry_map;
    indications_map = v.indications_map;
    connections_map = IsMap-remove i w.connections v.connections_map;
  }

-- ===== src/Engine/Invariant/Load.antt =====
-- `from_persist`: a saved workspace is loaded into a valid one, whatever connections it names.
use mixlab.Prelude.{ℕ, ◌≡◌, ◌≤◌, refl, inl, inr, List, [], ◌∷◌, Option, none, some, arith, All}
use mixlab.Prelude.Map.{Map, get, get-insert, IsMap-insert}
use mixlab.Protocol.{ModuleId, InputId, OutputId, module_key, input_key}
use mixlab.Engine.Host.{ModuleHost}
use mixlab.Engine.Workspace.{
  Workspace, SavedModule, SavedWorkspace, connect, after_connect, load_modules, load_inputs,
  load_connections, from_persist, enumerate_from,
}
use mixlab.Engine.Workspace.Connect.{connect-cases}
use mixlab.Engine.Invariant.{IsValid}
use mixlab.Engine.Invariant.Changes.{IsValid-connect}

module _ {host : ModuleHost} where
  open host use {Module}

  -- Identifiers that the counter has given out.
  abbrev pub IsNumbered : ℕ → Map ModuleId (SavedModule host) → Type 0
  IsNumbered seq = All (λ e. (1 ≤ e.0) × (e.0 ≤ seq))

  load_modules-IsValid :
      (saved : Map ModuleId (SavedModule host)) (w : Workspace host)
      → IsNumbered w.module_seq saved
      → w.connections ≡ []
      → IsValid w
      → IsValid (load_modules saved w)
  unfolding load_modules get
  load_modules-IsValid [] w n c v = v
  load_modules-IsValid ((id, s) ∷ saved) w n c v = load_modules-IsValid saved _ n.1 c (record {
    typed = λ i o h. absurd (empty i o h);
    numbered = λ k m h.
        ground (arith, get-insert id k (host.create s.params).0 w.modules, v.numbered k m, n.0);
    modules_map = IsMap-insert id _ w.modules v.modules_map;
    geometry_map = IsMap-insert id s.geometry w.geometry v.geometry_map;
    indications_map = IsMap-insert id _ w.indications v.indications_map;
    connections_map = v.connections_map;
  })
    where
      empty : (i : InputId) (o : OutputId) → get i w.connections ≡ some o → ⊥
      empty i o h = cc (rw c at h)

  after_connect-IsValid :
      (w : Workspace host) (i : InputId) (o : OutputId)
      → IsValid w
      → IsValid (after_connect w (connect w i o))
  after_connect-IsValid w i o v = elim (connect-cases w i o) [
    | inl (t, hi, ho, done) ↦ rw done (IsValid-connect w i o v (t, hi, ho))
    | inr (x, refused) ↦ rw refused v
  ]

  load_inputs-IsValid :
      (id : ModuleId) (inputs : List (ℕ × Option OutputId)) (w : Workspace host)
      → IsValid w
      → IsValid (load_inputs id inputs w)
  unfolding load_inputs
  load_inputs-IsValid id [] w v = v
  load_inputs-IsValid id ((index, none) ∷ rest) w v = load_inputs-IsValid id rest w v
  load_inputs-IsValid id ((index, some o) ∷ rest) w v =
      load_inputs-IsValid id rest _ (after_connect-IsValid w _ o v)

  load_connections-IsValid :
      (saved : Map ModuleId (SavedModule host)) (w : Workspace host)
      → IsValid w
      → IsValid (load_connections saved w)
  unfolding load_connections
  load_connections-IsValid [] w v = v
  load_connections-IsValid ((id, s) ∷ saved) w v =
      load_connections-IsValid saved _ (load_inputs-IsValid id (enumerate_from 0 s.inputs) w v)

  -- A saved workspace whose identifiers were given out by its counter is loaded into a valid one, also
  -- where it names connections to terminals that are not there or of another type.
  pub from_persist-IsValid :
      (save : SavedWorkspace host)
      → IsNumbered save.module_seq save.modules
      → IsValid (from_persist save)
  unfolding from_persist get
  from_persist-IsValid save n = load_connections-IsValid save.modules _ (
      load_modules-IsValid save.modules _ n refl (record {
        typed = λ i o h. cc h;
        numbered = λ k m h. cc h;
        modules_map = tt;
        geometry_map = tt;
        indications_map = tt;
        connections_map = tt;
      }))

-- ===== src/Engine/Invariant/Reload.antt =====
-- The loops of `from_persist` in src/engine/workspace.rs over what `to_persist` saves.
use mixlab.Prelude.{
  some_inj, ap₂, if_neg, ℕ, zero, suc, ◌+◌, ◌≡◌, ◌≤◌, ◌<◌, ◌⊎◌, inl, inr, refl, sym, ap, subst, ◌∙◌,
  [], ◌∷◌, map, none, some, arith, length, Option-cases, ℕ_discrete,
}
use mathlib.Core.Option
use mixlab.Prelude.Map.{
  Map, get, insert, get-insert, get_inserted, IsMap, Absent, Absent-get, or_else, map_values,
}
use mixlab.Prelude.Result.{ok}
use mixlab.Protocol.{ModuleId, InputId, OutputId, module_key, input_key, InputId-discrete}
use mixlab.Engine.Host.{ModuleHost}
use mixlab.Engine.Workspace.{
  Workspace, SavedModule, terminal_type, connect, after_connect, load_modules, load_inputs,
  load_connections, saved_inputs, enumerate_from, range_from, or_default,
}
use mixlab.Engine.Invariant.{IsTyped}

get_made :
    {A B : Type 0} (f : A → B) (j k : ModuleId) (a : A) (l : Map ModuleId A) (m : Map ModuleId B)
    → Absent j l
    → or_else (Option.map f (get k l)) (get k (insert j (f a) m))
      ≡ or_else (Option.map f (get k ((j, a) ∷ l))) (get k m)
unfolding get
get_made f j k a l m h = ground (arith, get-insert j k (f a) m, Absent-get j l h)

at_input :
    (i : InputId) {id start : ℕ}
    → i.module_id ≡ id
    → start ≡ i.index
    → record { module_id = id; index = start } ≡ i
at_input i e x = ap₂ (λ a b. record { module_id = a; index = b }) (sym e) x

module _ {host : ModuleHost} where
  open host use {Module}

  pub load_modules-get :
      (l : Map ModuleId (SavedModule host)) (w : Workspace host) (k : ModuleId)
      → IsMap l
      → get k (load_modules l w).modules
        ≡ or_else (Option.map (λ s. (host.create s.params).0) (get k l)) (get k w.modules)
  unfolding load_modules get
  load_modules-get [] w k h = refl
  load_modules-get ((j, s) ∷ l) w k h =
      let made = host.create s.params in
      load_modules-get l
        (record w {
          modules = insert j made.0 w.modules;
          geometry = insert j s.geometry w.geometry;
          indications = insert j made.1 w.indications;
        })
        k h.1
      ∙ get_made (λ x. (host.create x.params).0) j k s l w.modules h.0

  pub load_modules-connections :
      (l : Map ModuleId (SavedModule host)) (w : Workspace host)
      → (load_modules l w).connections ≡ w.connections
  unfolding load_modules
  load_modules-connections [] w = refl
  load_modules-connections ((j, s) ∷ l) w = load_modules-connections l _

  connect_typed :
      (w : Workspace host) (i : InputId) (o : OutputId)
      → IsTyped w i o
      → connect w i o
        ≡ ok (get i w.connections, record w { connections = insert i o w.connections })
  unfolding connect
  connect_typed w i o (t, ti, to) = rw (ti, to, connect) (ground arith)

  -- For one input: its connection in the loaded workspace `s` is not there so far, or is that of `c`.
  module _ (c : Map InputId OutputId) (i : InputId) where
    abbrev pub Partial : Workspace host → Type 0
    Partial s = (get i s.connections ≡ none) ⊎ (get i s.connections ≡ get i c)

    abbrev pub Restored : Workspace host → Type 0
    Restored s = get i s.connections ≡ get i c

    -- A step that enters a connection of `c`, or nothing where `c` has none.
    abbrev pub Step : (reached : Type 0) (s t : Workspace host) → Type 0
    Step reached s t =
        (t.modules ≡ s.modules)
        × (Partial s → Partial t)
        × (Restored s → Restored t)
        × (reached → Partial s → Restored t)

    abbrev pub AllTyped : Workspace host → Type 0
    AllTyped s = (j : InputId) (o : OutputId) → get j c ≡ some o → IsTyped s j o

    AllTyped-same : (s t : Workspace host) → t.modules ≡ s.modules → AllTyped s → AllTyped t
    unfolding terminal_type
    AllTyped-same s t e h j o g = rw e (h j o g)

    entered :
        (s : Workspace host) (j : InputId) (o : OutputId)
        → get j c ≡ some o
        → j ≡ i
        → get i (insert j o s.connections) ≡ get i c
    entered s j o g e =
        subst (λ x. get x (insert j o s.connections) ≡ get x c) e
          (get_inserted j o s.connections ∙ sym g)

    connect-Step :
        (s : Workspace host) (j : InputId) (o : OutputId)
        → get j c ≡ some o
        → AllTyped s
        → Step (j ≡ i) s (after_connect s (connect s j o))
    connect-Step s j o g typed =
        rw (connect_typed s j o (typed j o g)) (elim (InputId-discrete j i) [
          | yes e ↦
              (refl, λ p. inr (entered s j o g e), λ r. entered s j o g e, λ _ p. entered s j o g e)
          | no n ↦
              let old : get i (insert j o s.connections) ≡ get i s.connections =
                rw (get-insert j i o s.connections, if_neg _ n) in
              (
                refl,
                λ p. subst (λ x. (x ≡ none) ⊎ (x ≡ get i c)) (sym old) p,
                λ r. old ∙ r,
                λ e p. absurd (n e),
              )
        ])

    pub none-Restored : (t : Workspace host) → Partial t → get i c ≡ none → Restored t
    none-Restored t (inl e) n = e ∙ sym n
    none-Restored t (inr e) n = e

    -- The inputs of one module from `start` on.
    load_inputs-Step :
        (s : Workspace host) (id : ModuleId) (start n : ℕ)
        → AllTyped s
        → Step ((i.module_id ≡ id) × (start ≤ i.index) × (i.index < start + n)) s (
            load_inputs id
              (enumerate_from start
                (map (λ x. get (record { module_id = id; index = x }) c) (range_from start n)))
              s)
    unfolding load_inputs enumerate_from range_from
    load_inputs-Step s id start zero typed =
        (refl, λ p. p, λ r. r, λ h p. absurd (omega (arith, h)))
    load_inputs-Step s id start (suc n) typed =
        elim (Option-cases (get (record { module_id = id; index = start }) c)) [
          | inl e ↦ rw e (
              let (m, p, r, reach) = load_inputs-Step s id (suc start) n typed in
              (
                m,
                p,
                r,
                λ h q. elim (ℕ_discrete start i.index) [
                  | yes x ↦
                      none-Restored
                        (load_inputs id
                          (enumerate_from (suc start) (
                            map (λ x. get (record { module_id = id; index = x }) c)
                              (range_from (suc start) n)))
                          s)
                        (p q) (ap (λ j. get j c) (sym (at_input i h.0 x)) ∙ e)
                  | no d ↦ reach (h.0, omega (arith, h, d), omega (arith, h)) q
                ],
              ))
          | inr (o, e) ↦ rw e (
              let j : InputId = record { module_id = id; index = start } in
              let (m1, p1, r1, a1) = connect-Step s j o e typed in
              let t = after_connect s (connect s j o) in
              let (m, p, r, reach) =
                load_inputs-Step t id (suc start) n (AllTyped-same s t m1 typed) in
              (
                m ∙ m1,
                λ q. p (p1 q),
                λ q. r (r1 q),
                λ h q. elim (ℕ_discrete start i.index) [
                  | yes x ↦ r (a1 (at_input i h.0 x) q)
                  | no d ↦ reach (h.0, omega (arith, h, d), omega (arith, h)) (p1 q)
                ],
              ))
        ]

  module _ (w : Workspace host) (i : InputId) where
    -- The inputs of the modules of a map.
    pub load_connections-Step :
        (mods : Map ModuleId Module) (s : Workspace host)
        → AllTyped w.connections i s
        → Step w.connections i
            ((m : Module) × (get i.module_id mods ≡ some m) × (i.index < length (host.inputs m)))
            s
            (load_connections
              (map_values
                (λ id m. record {
                  params = host.params m;
                  geometry = or_default (get id w.geometry);
                  inputs = saved_inputs w id m;
                })
                mods)
              s)
    unfolding load_connections map_values saved_inputs get
    load_connections-Step [] s typed = (refl, λ p. p, λ r. r, λ h p. absurd (ground (arith, h)))
    load_connections-Step ((id, m) ∷ mods) s typed =
        let t = load_inputs id (enumerate_from 0 (saved_inputs w id m)) s in
        let (m1, p1, r1, a1) =
          load_inputs-Step w.connections i s id 0 (length (host.inputs m)) typed in
        let (m2, p, r, reach) =
          load_connections-Step mods t (AllTyped-same w.connections i s t m1 typed) in
        (
          m2 ∙ m1,
          λ q. p (p1 q),
          λ q. r (r1 q),
          λ (m', g, lt) q. elim (ℕ_discrete id i.module_id) [
            | yes x ↦
                let same : some m ≡ some m' = ground (arith, g, x) in
                let shorter : i.index < length (host.inputs m) =
                  subst (λ z. i.index < length (host.inputs z)) (sym (some_inj same)) lt in
                r (a1 (sym x, omega arith, omega (arith, shorter)) q)
            | no d ↦ reach (m', ground (arith, g, d), lt) (p1 q)
          ],
        )

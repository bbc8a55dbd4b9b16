-- ===== src/Engine/Tick/Types.antt =====
-- In a tick every module finds buffers of the kinds that its terminals ask for.
use mixlab.Prelude.{
  ℕ, zero, suc, ◌+◌, ◌*◌, ◌%◌, ◌^◌, ◌≡◌, ◌<◌, ◌⊎◌, inl, inr, refl, sym, ap, subst, ◌∙◌, Option,
  some, List, [], ◌∷◌, ◌++◌, map, length, get_elem?, arith, All, All-imp, Option-cases, some_inj,
  ℕ_discrete,
}
use mixlab.Prelude.Map.{Map, get, insert, get-insert, get_inserted}
use mixlab.Prelude.Result.{ok}
use mixlab.Protocol.{
  ModuleId, InputId, OutputId, LineType, Terminal, input, output, module_key, input_key, output_key,
  OutputId-discrete,
}
use mixlab.Engine.Host.{ModuleHost}
use mixlab.Engine.Workspace.{Workspace, range_from, terminal_type}
use mixlab.Engine.Invariant.{IsValid}
use mixlab.Engine.Invariant.Steps.{terminal_type-insert}
use mixlab.Engine.Invariant.Changes.{IsValid-update}
use mixlab.Engine.Io.{Signals, InputRef, Output, as_input_ref, samples_per_tick}
use mixlab.Engine.Order.{Topsort, run_order}
use mixlab.Engine.Order.Search.{Exists}
use mixlab.Engine.Order.Complete.{input-Exists}
use mixlab.Engine.Order.Run.{run_order_lem}
use mixlab.Engine.Tick.{
  TickHost, Tick, run_module, run_modules, run_tick, input_refs, store_outputs, connected_ref,
  indicated, output_buffers,
}
use mixlab.Engine.Tick.Kinds.{
  kind, Readable, Readable-disconnected, Readable-kind, kind_at, fresh_kinds, own_type,
}

module _ {host : ModuleHost} {signals : Signals} (ticks : TickHost host signals) where
  open host use {Module, Indication}

  -- A module's turn changes neither its terminals nor the kinds of the outputs that it fills.
  pub record TickLaws : Type 0 where
    pub same_terminals :
        (m : Module) (t : ℕ) (is : List (InputRef signals)) (os : List (Output signals))
        → (host.inputs (ticks.run m t is os).0 ≡ host.inputs m)
          × (host.outputs (ticks.run m t is os).0 ≡ host.outputs m)
    pub same_kinds :
        (m : Module) (t : ℕ) (is : List (InputRef signals)) (os : List (Output signals))
        → map kind (ticks.run m t is os).1 ≡ map kind os

  -- Each buffer has the kind of its output.
  abbrev Kinds : Tick host signals → Type 0
  Kinds s =
      (o : OutputId) (b : Output signals)
      → get o s.buffers ≡ some b
      → terminal_type s.workspace (output o) ≡ some (kind b)

  abbrev ref_at : Tick host signals → InputId → InputRef signals
  ref_at s i = connected_ref ticks s.buffers (get i s.workspace.connections)

  -- Each input of a module is among those that its turn is given, and can be read there.
  abbrev pub InputsReadable : Tick host signals → ModuleId → Type 0
  InputsReadable s id =
      (m : Module) (index : ℕ) (t : LineType)
      → get id s.workspace.modules ≡ some m
      → terminal_type s.workspace (input (record { module_id = id; index = index })) ≡ some t
      → (r : InputRef signals) × (get_elem?
            (input_refs ticks s id (range_from 0 (length (host.inputs m)))) index
          ≡ some r)
        × Readable t r

  input_refs-get :
      (s : Tick host signals) (id : ModuleId) (start n k : ℕ)
      → k < n
      → get_elem? (input_refs ticks s id (range_from start n)) k
        ≡ some (ref_at s (record { module_id = id; index = start + k }))
  unfolding input_refs range_from
  input_refs-get s id start zero k lt = absurd (omega arith)
  input_refs-get s id start (suc n) zero lt =
      ap (λ i. some (ref_at s (record { module_id = id; index = i }))) (omega arith)
  input_refs-get s id start (suc n) (suc k) lt =
      input_refs-get s id (suc start) n k (omega arith)
      ∙ ap (λ i. some (ref_at s (record { module_id = id; index = i }))) (omega arith)

  ref-Readable :
      (s : Tick host signals) (i : InputId) (t : LineType)
      → IsValid s.workspace
      → Kinds s
      → terminal_type s.workspace (input i) ≡ some t
      → Readable t (ref_at s i)
  ref-Readable s i t valid kinds e = elim (Option-cases (get i s.workspace.connections)) [
    | inl n ↦ rw n (Readable-disconnected signals t)
    | inr (o, c) ↦ elim (Option-cases (get o s.buffers)) [
      | inl n ↦ rw (c, n) (Readable-disconnected signals t)
      | inr (b, f) ↦
          let (u, ti, to) = valid.typed i o c in
          let same : kind b ≡ t = some_inj (sym (kinds o b f) ∙ to) ∙ some_inj (sym ti ∙ e) in
          rw (c, f) (subst (λ k. Readable k (as_input_ref b)) same (Readable-kind b))
    ]
  ]

  connected-Readable :
      (s : Tick host signals) (id : ModuleId) → IsValid s.workspace → Kinds s → InputsReadable s id
  connected-Readable s id valid kinds m index t here e =
      let (n, there, lt) =
        input-Exists s.workspace (record { module_id = id; index = index }) t e in
      let bound : index < length (host.inputs m) =
        subst (λ x. index < length (host.inputs x)) (some_inj (sym there ∙ here)) lt in
      (
        ref_at s (record { module_id = id; index = index }),
        input_refs-get s id 0 (length (host.inputs m)) index bound
            ∙ ap (λ i. some (ref_at s (record { module_id = id; index = i }))) (omega arith),
        ref-Readable s (record { module_id = id; index = index }) t valid kinds e,
      )

  -- A buffer after a turn is one of the module's, or was there before.
  store_outputs-get :
      (id : ModuleId) (i : ℕ) (os : List (Output signals)) (buffers : Map OutputId (Output signals))
      (o : OutputId) (b : Output signals)
      → get o (store_outputs ticks id i os buffers) ≡ some b
      → ((k : ℕ) × (o ≡ record { module_id = id; index = i + k }) × (get_elem? os k ≡ some b))
        ⊎ (get o buffers ≡ some b)
  unfolding store_outputs
  store_outputs-get id i [] buffers o b h = inr h
  store_outputs-get id i (x ∷ xs) buffers o b h =
      elim (store_outputs-get id (suc i) xs
        (insert (record { module_id = id; index = i }) x buffers) o b h) [
          | inl (k, e, g) ↦
              inl (suc k, e ∙ ap (λ n. record { module_id = id; index = n }) (omega arith), g)
          | inr g ↦ elim (OutputId-discrete (record { module_id = id; index = i }) o) [
            | yes e ↦ inl (
              0,
              sym e ∙ ap (λ n. record { module_id = id; index = n }) (omega arith),
              ground (arith, g, get-insert (record { module_id = id; index = i }) o x buffers),
            )
            | no n ↦
                inr
                  (ground (arith, g, get-insert (record { module_id = id; index = i }) o x buffers))
          ]
        ]

  module _ (laws : TickLaws) (tick : ℕ) (id : ModuleId) (s : Tick host signals) where
    Next : Type 0
    Next =
        (s' : Tick host signals) × (run_module ticks tick id s ≡ some s')
        × IsValid s'.workspace
        × Kinds s'
        × ((j : ModuleId) → Exists s.workspace j → Exists s'.workspace j)

    run_module_lem : Exists s.workspace id → IsValid s.workspace → Kinds s → Next
    unfolding Next run_module
    run_module_lem (m, here) valid kinds = (
      after,
      rw (run_module, here),
      IsValid-update w m m' id valid here same,
      new_kinds,
      λ j (n, e). exists j n e,
    )
      where
        w : Workspace host
        w = s.workspace

        inputs : List (InputRef signals)
        inputs = input_refs ticks s id (range_from 0 (length (host.inputs m)))

        time : ℕ
        time = tick * samples_per_tick % 2 ^ 64

        m' : Module
        m' = (ticks.run m time inputs (output_buffers ticks m)).0

        outs : List (Output signals)
        outs = (ticks.run m time inputs (output_buffers ticks m)).1

        result : Option Indication
        result = (ticks.run m time inputs (output_buffers ticks m)).2

        after : Tick host signals
        after = record {
          workspace = record w { modules = insert id m' w.modules };
          buffers = store_outputs ticks id 0 outs s.buffers;
          indications = s.indications ++ indicated ticks id result;
        }

        same : (host.inputs m' ≡ host.inputs m) × (host.outputs m' ≡ host.outputs m)
        same = laws.same_terminals m time inputs (output_buffers ticks m)

        kinds_now : map kind outs ≡ map (λ (t : Terminal). t.line_type) (host.outputs m)
        kinds_now =
            laws.same_kinds m time inputs (output_buffers ticks m)
            ∙ fresh_kinds signals (host.outputs m)

        exists : (j : ModuleId) (n : Module) → get j w.modules ≡ some n → Exists after.workspace j
        exists j n e = elim (ℕ_discrete id j) [
          | yes p ↦ (
            m',
            subst (λ x. get x (insert id m' w.modules) ≡ some m') p (get_inserted id m' w.modules),
          )
          | no q ↦ (n, ground (arith, e, get-insert id j m' w.modules))
        ]

        own :
            (k : ℕ) (b : Output signals)
            → get_elem? outs k ≡ some b
            → terminal_type after.workspace (output (record { module_id = id; index = k }))
              ≡ some (kind b)
        own k b h =
            let (t, f, e) = kind_at signals outs (host.outputs m) k b kinds_now h in
            own_type after.workspace id m' k t (get_inserted id m' w.modules) (rw same.1 f)
            ∙ ap some e

        new_kinds : Kinds after
        new_kinds o b h = elim (store_outputs-get id 0 outs s.buffers o b h) [
          | inl (k, e, g) ↦
              subst (λ p. terminal_type after.workspace (output p) ≡ some (kind b))
                (sym (e ∙ ap (λ n. record { module_id = id; index = n }) (omega arith))) (own k b g)
          | inr g ↦
              terminal_type-insert w id m'
                (λ m0 e.
                  subst (λ n. (host.inputs m' ≡ host.inputs n) × (host.outputs m' ≡ host.outputs n))
                    (some_inj (sym here ∙ e)) same)
                after.workspace refl (output o) (kind b) (kinds o b g)
        ]

  -- Along a run of modules each finds what it needs.
  abbrev pub AllReadable : ℕ → List ModuleId → Tick host signals → Type 0
  AllReadable tick [] s = Unit {0}
  AllReadable tick (id ∷ ids) s =
      InputsReadable s id
      × (s' : Tick host signals) × (run_module ticks tick id s ≡ some s')
      × AllReadable tick ids s'

  run_modules_lem :
      TickLaws
      → (tick : ℕ) (ids : List ModuleId) (s : Tick host signals) → All (Exists s.workspace) ids
      → IsValid s.workspace
      → Kinds s
      → AllReadable tick ids s × (t : Tick host signals) × (run_modules ticks tick ids s ≡ some t)
  unfolding AllReadable run_modules Next
  run_modules_lem laws tick [] s ex valid kinds = (tt, s, refl)
  run_modules_lem laws tick (id ∷ ids) s ex valid kinds =
      let (s', e, valid', kinds', kept) = run_module_lem laws tick id s ex.0 valid kinds in
      let (safe, t, e') =
        run_modules_lem laws tick ids s' (All-imp _ _ kept ids ex.1) valid' kinds' in
      ((connected-Readable s id valid kinds, s', e, safe), t, rw (run_modules, e) e')

  -- In a valid workspace a tick runs to its end: the search gives an order, every module in it is
  -- there, and at the turn of each one the buffers at its inputs are of the kinds that its terminals
  -- have, so that no `expect_mono`, `expect_stereo` or `expect_video` on its own terminals panics.
  pub run_tick_lem :
      TickLaws
      → (tick : ℕ) (w : Workspace host) → IsValid w
      → (order : Topsort) × (t : Tick host signals) × (run_order w ≡ ok order)
        × AllReadable tick order.run_order
            (record { workspace = w; buffers = []; indications = [] })
        × (run_tick ticks tick w ≡ some t)
  unfolding get run_tick
  run_tick_lem laws tick w valid =
      let (order, e, _, ex, _, _) = run_order_lem w (λ _. 0) valid in
      let s : Tick host signals = record { workspace = w; buffers = []; indications = [] } in
      let (safe, t, e') = run_modules_lem laws tick order.run_order s ex valid (λ o b h. cc h) in
      (order, t, e, safe, rw (run_tick, e) e')

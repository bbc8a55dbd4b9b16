-- ===== src/Engine/Order/Run.antt =====
-- The run order of a tick as a whole: `run_tick` in src/engine.rs up to the loop over `run_order`.
use mathlib.Core.Path.{fun_ext}
use mixlab.Prelude.{
  ℕ_discrete, Option-cases, inl, inr, ℕ, suc, ◌≡◌, refl, ap, ◌∙◌, List, [], ◌∷◌, some, length, true,
  arith, All, All-imp,
}
use mixlab.Prelude.Map.{Map, get}
use mixlab.Prelude.Result.{ok, ◌>>=◌}
use mixlab.Protocol.{ModuleId, InputId, OutputId, LineType, output, module_key, input_key}
use mixlab.Engine.Host.{ModuleHost}
use mixlab.Engine.Workspace.{Workspace, terminal_type, range_from}
use mixlab.Engine.Invariant.{IsValid}
use mixlab.Engine.Order.{
  Topsort, contains, keys, without, without_feeding, terminal_modules, traverse, traverse_all,
  run_order,
}
use mixlab.Engine.Order.Sources.{unseen_le_length, visit_list, sources, sources_at}
use mixlab.Engine.Order.Search.{
  Exists, Closed, Ordered, Acyclic, Unique, Inv, visit_list_lem, traverse_lem,
}

module _ {host : ModuleHost} (w : Workspace host) where
  open host use {Module}

  -- An output with a type belongs to a module.
  pub output-Exists :
      (o : OutputId) (t : LineType) → terminal_type w (output o) ≡ some t → Exists w o.module_id
  unfolding terminal_type
  output-Exists o t h = elim (Option-cases (get o.module_id w.modules)) [
    | inl e ↦ absurd (ground (arith, h, e))
    | inr r ↦ r
  ]

  sources_at-Exists :
      IsValid w → (id : ModuleId) (is : List ℕ) → All (Exists w) (sources_at w id is)
  unfolding sources_at
  sources_at-Exists valid id [] = tt
  sources_at-Exists valid id (i ∷ is) =
      elim (Option-cases (get (record { module_id = id; index = i }) w.connections)) [
        | inl e ↦ rw (sources_at, e) (sources_at-Exists valid id is)
        | inr (o, e) ↦
            let (t, _, to) = valid.typed (record { module_id = id; index = i }) o e in
            rw (sources_at, e) (output-Exists o t to, sources_at-Exists valid id is)
      ]

  valid-Closed : IsValid w → Closed w
  unfolding sources
  valid-Closed valid id = elim (Option-cases (get id w.modules)) [
    | inl e ↦ rw (sources, e) tt
    | inr (m, e) ↦
        rw (sources, e) (sources_at-Exists valid id (range_from 0 (length (host.inputs m))))
  ]

keys-All : {V : Type 0} (m : Map ModuleId V) → All (λ id. (v : V) × (get id m ≡ some v)) (keys m)
unfolding keys get
keys-All [] = tt
keys-All {V} ((k, v) ∷ m) =
    ((v, ground arith), All-imp _ _ (λ id h. later id h.0 h.1) (keys m) (keys-All m))
  where
    later : (id : ModuleId) (u : V) → get id m ≡ some u → (x : V) × (get id ((k, v) ∷ m) ≡ some x)
    later id u e = elim (ℕ_discrete k id) [ yes p ↦ (v, ground arith) | no n ↦ (u, ground arith) ]

without-All :
    (P : ModuleId → Type 0) (id : ModuleId) (xs : List ModuleId) → All P xs → All P (without id xs)
unfolding without
without-All P id [] h = tt
without-All P id (x ∷ xs) h = ground (arith, without-All P id xs h.1)

without_feeding-All :
    (P : ModuleId → Type 0) (c : Map InputId OutputId) (xs : List ModuleId)
    → All P xs
    → All P (without_feeding c xs)
unfolding without_feeding
without_feeding-All P [] xs h = h
without_feeding-All P ((i, o) ∷ c) xs h =
    without_feeding-All P c (without o.module_id xs) (without-All P o.module_id xs h)

module _ {host : ModuleHost} (w : Workspace host) where
  terminal_modules-Exists : All (Exists w) (terminal_modules w)
  unfolding terminal_modules
  terminal_modules-Exists =
      without_feeding-All _ w.connections (keys w.modules) (keys-All w.modules)

  traverse_all-list :
      (fuel : ℕ) (ids : List ModuleId) (s : Topsort)
      → traverse_all w fuel ids s ≡ visit_list (traverse w fuel) ids s
  unfolding traverse_all visit_list
  traverse_all-list fuel [] s = refl
  traverse_all-list fuel (id ∷ ids) s =
      ap (λ k. traverse w fuel id s >>= k) (fun_ext (traverse_all-list fuel ids))

  -- In a valid workspace the search for the run order succeeds: no call meets a module that is not
  -- there, and calls nest no deeper than there are modules. No module runs twice, each one that runs
  -- exists, and each terminal module runs; and where no module feeds itself through others (`rank`
  -- falls along every connection), each module runs after all that feed it.
  pub run_order_lem :
      (rank : ModuleId → ℕ)
      → IsValid w
      → (s : Topsort) × (run_order w ≡ ok s)
        × Unique s.run_order
        × All (Exists w) s.run_order
        × All (λ id. contains id s.run_order ≡ true) (terminal_modules w)
        × (Acyclic w rank → Ordered w [] s.run_order)
  unfolding run_order contains
  run_order_lem rank valid =
      let s0 : Topsort = record { run_order = []; seen = [] } in
      let fuel = suc (length w.modules) in
      let (s, e, post, seen) =
        visit_list_lem w rank (traverse w fuel) fuel
          (traverse_lem w rank (valid-Closed w valid) fuel) (terminal_modules w) s0 []
          terminal_modules-Exists (omega (arith, unseen_le_length [] w.modules)) start
          (λ a. All-imp _ _ (λ p _. tt) (terminal_modules w) terminal_modules-Exists) in
      (
        s,
        traverse_all-list fuel (terminal_modules w) s0 ∙ e,
        post.inv.unique,
        post.inv.exist,
        All-imp _ _ (λ p h. ground (arith, h, post.inv.split p)) (terminal_modules w) seen,
        post.inv.ordered,
      )
    where
      start : Inv w rank [] (record { run_order = []; seen = [] })
      start = record {
        split = λ x. refl;
        apart = λ x h. refl;
        unique = tt;
        exist = tt;
        ordered = λ a. tt;
      }

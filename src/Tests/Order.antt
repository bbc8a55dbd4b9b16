-- ===== src/Tests/Order.antt =====
-- The run order of a workspace of two modules, the second fed by the first.
use mixlab.Prelude.{
  ◌≢◌, some_inj, sym, subst, ◌≤◌, ◌≡◌, ◌<◌, refl, ℕ, [], ◌∷◌, some, none, arith, ℕ_discrete, All,
  true,
}
use mixlab.Prelude.Map.{get}
use mixlab.Prelude.Result.{ok}
use mixlab.Protocol.{
  ModuleId, InputId, OutputId, stereo, input, output, module_key, input_key, InputId-discrete,
}
use mixlab.Engine.Workspace.{Workspace, terminal_type, range_from}
use mixlab.Engine.Invariant.{IsValid, IsTyped}
use mixlab.Engine.Order.{
  Topsort, run_order, traverse_all, terminal_modules, keys, without, without_feeding, visit_inputs,
  traverse, contains,
}
use mixlab.Engine.Order.Sources.{sources, sources_at}
use mixlab.Engine.Order.Search.{Acyclic, Ordered, Unique, Exists}
use mixlab.Engine.Order.Run.{run_order_lem}
use mixlab.Engine.Order.Complete.{every_module_runs}
use mixlab.Tests.Sample.{gain_host, empty_workspace, second_input, first_output}

abbrev pub pair : Workspace gain_host
pair = record empty_workspace {
  module_seq = 2;
  modules = (1, 5) ∷ (2, 6) ∷ [];
  connections = (second_input, first_output) ∷ [];
}

pub pair-IsValid : IsValid pair
unfolding get terminal_type ℕ_discrete InputId-discrete
pair-IsValid = record {
  typed = typed;
  numbered = numbered;
  modules_map = ((λ e. omega arith, tt), (tt, tt));
  geometry_map = tt;
  indications_map = tt;
  connections_map = (tt, tt);
}
  where
    typed : (i : InputId) (o : OutputId) → get i pair.connections ≡ some o → IsTyped pair i o
    typed i o h = elim (InputId-discrete second_input i) [
      | yes e ↦ (
        stereo,
        subst (λ j. terminal_type pair (input j) ≡ some stereo) e refl,
        subst (λ p. terminal_type pair (output p) ≡ some stereo)
            (some_inj (subst (λ j. get j pair.connections ≡ some o) (sym e) h)) refl,
      )
      | no n ↦ absurd (ground arith)
    ]

    numbered : (k : ModuleId) (m : ℕ) → get k pair.modules ≡ some m → (1 ≤ k) × (k ≤ 2)
    numbered k m h = ground arith

absent : (id : ModuleId) → 1 ≢ id → 2 ≢ id → get id pair.modules ≡ none
unfolding get
absent id n m = ground arith

pair-Acyclic : Acyclic pair (λ id. id)
unfolding sources sources_at get range_from ℕ_discrete InputId-discrete
pair-Acyclic id = elim (ℕ_discrete 1 id) [
  | yes e ↦ subst (λ x. All (λ p. p < x) (sources pair x)) e tt
  | no n ↦ elim (ℕ_discrete 2 id) [
    | yes e ↦ subst (λ x. All (λ p. p < x) (sources pair x)) e (omega arith, tt)
    | no m ↦ rw (sources, absent id n m) tt
  ]
]

-- The source comes first.
pair_order : run_order pair ≡ ok (record { run_order = 1 ∷ 2 ∷ []; seen = 1 ∷ 2 ∷ [] })
unfolding run_order traverse_all terminal_modules keys without without_feeding visit_inputs traverse
    contains range_from get ℕ_discrete InputId-discrete
pair_order = refl

run_order_lem_example :
    (s : Topsort) × (run_order pair ≡ ok s)
    × Unique s.run_order
    × All (Exists pair) s.run_order
    × All (λ id. contains id s.run_order ≡ true) (terminal_modules pair)
    × (Acyclic pair (λ id. id) → Ordered pair [] s.run_order)
run_order_lem_example = run_order_lem pair (λ id. id) pair-IsValid

every_module_runs_example :
    (s : Topsort) × (run_order pair ≡ ok s) × (contains 1 s.run_order ≡ true)
unfolding get ℕ_discrete
every_module_runs_example = every_module_runs pair (λ id. id) pair-IsValid pair-Acyclic 1 (5, refl)

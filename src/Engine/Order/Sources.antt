-- ===== src/Engine/Order/Sources.antt =====
-- What feeds a module, and how the search counts what it has not seen.
use mathlib.Core.Path.{fun_ext}
use mixlab.Prelude.{
  ℕ, suc, ◌≡◌, ◌≤◌, ◌<◌, refl, ap, List, [], ◌∷◌, ◌++◌, none, some, length, ◌==◌, ◌||◌, true, false,
  if◌then◌else◌, arith,
}
use mixlab.Prelude.Map.{Map, get}
use mixlab.Prelude.Result.{ok, ◌>>=◌}
use mixlab.Protocol.{ModuleId, module_key, input_key}
use mixlab.Engine.Host.{ModuleHost}
use mixlab.Engine.Workspace.{Workspace, range_from}
use mixlab.Engine.Order.{Topsort, Search, contains, visit_inputs}

pub contains-snoc :
    (x y : ModuleId) (xs : List ModuleId) → contains x (xs ++ y ∷ []) ≡ (contains x xs || y == x)
unfolding contains
contains-snoc x y [] = ground arith
contains-snoc x y (z ∷ xs) = ground (arith, contains-snoc x y xs)

-- The number of modules that are not in a set.
unfoldable pub unseen {ℓ} : {V : Type ℓ} → List ModuleId → List (ModuleId × V) → ℕ
unseen seen [] = 0
unseen seen ((id, _) ∷ rest) =
    let others = unseen seen rest in if contains id seen then others else suc others

pub unseen_le_length {ℓ} :
    {V : Type ℓ} (seen : List ModuleId) (m : List (ModuleId × V)) → unseen seen m ≤ length m
unfolding unseen
unseen_le_length seen [] = omega arith
unseen_le_length seen ((id, _) ∷ rest) = ground (arith, unseen_le_length seen rest)

pub unseen_mono {ℓ} :
    {V : Type ℓ} (s t : List ModuleId) (m : List (ModuleId × V))
    → ((x : ModuleId) → contains x s ≡ true → contains x t ≡ true)
    → unseen t m ≤ unseen s m
unfolding unseen
unseen_mono s t [] h = omega arith
unseen_mono s t ((id, _) ∷ rest) h = ground (arith, unseen_mono s t rest h, h id)

pub unseen_lt :
    {V : Type 0} (s : List ModuleId) (m : Map ModuleId V) (id : ModuleId) (v : V)
    → get id m ≡ some v
    → contains id s ≡ false
    → unseen (id ∷ s) m < unseen s m
unfolding unseen get contains
unseen_lt s [] id v h n = cc
unseen_lt s ((k, u) ∷ m) id v h n =
    ground (arith, unseen_lt s m id v, unseen_mono s (id ∷ s) m (λ x e. ground arith))

-- `visit` over a list of modules.
unfoldable pub visit_list : (ModuleId → Topsort → Search) → List ModuleId → Topsort → Search
visit_list visit [] s = ok s
visit_list visit (id ∷ ids) s = visit id s >>= visit_list visit ids

module _ {host : ModuleHost} (w : Workspace host) where
  open host use {Module}

  -- The modules that feed the given inputs of a module.
  unfoldable pub sources_at : ModuleId → List ℕ → List ModuleId
  sources_at id [] = []
  sources_at id (index ∷ rest) =
      elim (get (record { module_id = id; index = index }) w.connections) [
        | none ↦ sources_at id rest
        | some o ↦ o.module_id ∷ sources_at id rest
      ]

  -- The modules that feed a module.
  unfoldable pub sources : ModuleId → List ModuleId
  unfolding sources_at range_from
  sources id = elim (get id w.modules) [
    | none ↦ []
    | some m ↦ sources_at id (range_from 0 (length (host.inputs m)))
  ]

  pub visit_inputs-list :
      (visit : ModuleId → Topsort → Search) (id : ModuleId) (is : List ℕ) (s : Topsort)
      → visit_inputs w visit id is s ≡ visit_list visit (sources_at id is) s
  unfolding visit_inputs visit_list sources_at
  visit_inputs-list visit id [] s = refl
  visit_inputs-list visit id (i ∷ is) s =
      elim (get (record { module_id = id; index = i }) w.connections)
        as (λ o.
          elim o as (λ _. Search) [
            | none ↦ visit_inputs w visit id is s
            | some o ↦ visit o.module_id s >>= visit_inputs w visit id is
          ]
          ≡ visit_list visit
              (elim o as (λ _. List ModuleId) [
                | none ↦ sources_at id is
                | some o ↦ o.module_id ∷ sources_at id is
              ])
              s) [
                | none ↦ visit_inputs-list visit id is s
                | some o ↦
                    ap (λ k. visit o.module_id s >>= k) (fun_ext (visit_inputs-list visit id is))
              ]

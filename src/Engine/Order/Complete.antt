-- ===== src/Engine/Order/Complete.antt =====
-- Which modules the run order leaves out: none, unless a module feeds itself through others.
use mixlab.Prelude.{
  Bool-cases, Option-cases, inl, inr, ℕ_discrete, ℕ, zero, suc, ◌+◌, ◌≡◌, ◌≤◌, ◌<◌, List, [], ◌∷◌,
  some, length, ◌||◌, true, false, arith, All, All-imp, get_elem?, subst, sym,
}
use mixlab.Prelude.Map.{Map, get, IsMap, Absent-get}
use mixlab.Prelude.Result.{ok}
use mixlab.Protocol.{ModuleId, InputId, OutputId, LineType, input, module_key, input_key}
use mixlab.Engine.Host.{ModuleHost}
use mixlab.Engine.Workspace.{Workspace, terminal_type, range_from}
use mixlab.Engine.Invariant.{IsValid}
use mixlab.Engine.Order.{
  Topsort, contains, keys, without, without_feeding, terminal_modules, run_order,
}
use mixlab.Engine.Order.Sources.{sources, sources_at}
use mixlab.Engine.Order.Search.{Exists, Ordered, Acyclic, sources_lem}
use mixlab.Engine.Order.Run.{run_order_lem}

contains-All :
    (P : ModuleId → Type 0) (x : ModuleId) (xs : List ModuleId)
    → All P xs
    → contains x xs ≡ true
    → P x
unfolding contains
contains-All P x [] h c = cc
contains-All P x (y ∷ ys) h c = elim (ℕ_discrete y x) [
  | yes e ↦ subst P e h.0
  | no n ↦ contains-All P x ys h.1 (ground arith)
]

keys_complete :
    {V : Type 0} (m : Map ModuleId V) (id : ModuleId) (v : V)
    → get id m ≡ some v
    → contains id (keys m) ≡ true
unfolding keys get contains
keys_complete [] id v h = cc
keys_complete ((k, u) ∷ m) id v h = ground (arith, keys_complete m id v)

contains-without :
    (x id : ModuleId) (xs : List ModuleId)
    → contains x xs ≡ true
    → contains x (without id xs) ≡ false
    → x ≡ id
unfolding contains without
contains-without x id [] c n = cc
contains-without x id (y ∷ ys) c n = ground (arith, contains-without x id ys)

-- A module that is not terminal feeds an input.
feeds :
    (c : Map InputId OutputId) (xs : List ModuleId) (id : ModuleId)
    → IsMap c
    → contains id xs ≡ true
    → contains id (without_feeding c xs) ≡ false
    → (i : InputId) × (o : OutputId) × (get i c ≡ some o) × (o.module_id ≡ id)
unfolding without_feeding get
feeds [] xs id u c n = cc
feeds ((j, p) ∷ m) xs id u c n = elim (Bool-cases (contains id (without p.module_id xs))) [
  | inl e ↦
      let (i, o, g, same) = feeds m (without p.module_id xs) id u.1 e n in
      (i, o, ground (arith, Absent-get j m u.0), same)
  | inr e ↦ (j, p, ground arith, sym (contains-without id p.module_id xs c e))
]

total : (ModuleId → ℕ) → List ModuleId → ℕ
total rank [] = 0
total rank (x ∷ xs) = rank x + total rank xs

rank-le-total :
    (rank : ModuleId → ℕ) (x : ModuleId) (xs : List ModuleId)
    → contains x xs ≡ true
    → rank x ≤ total rank xs
unfolding contains total
rank-le-total rank x [] c = cc
rank-le-total rank x (y ∷ ys) c = ground (arith, rank-le-total rank x ys)

get_elem?-lt : {A : Type 0} (xs : List A) (i : ℕ) (x : A) → get_elem? xs i ≡ some x → i < length xs
get_elem?-lt [] i x h = cc
get_elem?-lt (y ∷ ys) zero x h = omega arith
get_elem?-lt (y ∷ ys) (suc i) x h = omega (arith, get_elem?-lt ys i x h)

module _ {host : ModuleHost} (w : Workspace host) where
  open host use {Module}

  -- A connected input among those asked for gives its source.
  sources_at-contains :
      (id : ModuleId) (start n index : ℕ) (o : OutputId)
      → get (record { module_id = id; index = index }) w.connections ≡ some o
      → start ≤ index
      → index < start + n
      → contains o.module_id (sources_at w id (range_from start n)) ≡ true
  unfolding sources_at range_from contains
  sources_at-contains id start zero index o h le lt = absurd (omega arith)
  sources_at-contains id start (suc n) index o h le lt = elim (ℕ_discrete start index) [
    | yes e ↦ rw (e, sources_at, h) (ground arith)
    | no d ↦
        let rest = sources_at-contains id (suc start) n index o h (omega arith) (omega arith) in
        elim (Option-cases (get (record { module_id = id; index = start }) w.connections)) [
          | inl e ↦ rw (sources_at, e) rest
          | inr (p, e) ↦ rw (sources_at, e) (ground (arith, rest))
        ]
  ]

  -- A typed input belongs to a module that has it.
  pub input-Exists :
      (i : InputId) (t : LineType)
      → terminal_type w (input i) ≡ some t
      → (m : Module) × (get i.module_id w.modules ≡ some m) × (i.index < length (host.inputs m))
  unfolding terminal_type
  input-Exists i t h = elim (Option-cases (get i.module_id w.modules)) [
    | inl e ↦ absurd (ground (arith, h, e))
    | inr (m, e) ↦ (
      m,
      e,
      elim (Option-cases (get_elem? (host.inputs m) i.index)) [
        | inl f ↦ absurd (ground (arith, h, e, f))
        | inr (x, f) ↦ get_elem?-lt (host.inputs m) i.index x f
      ],
    )
  ]

  Ordered-sources :
      (before xs : List ModuleId) (x : ModuleId)
      → Ordered w before xs
      → contains x xs ≡ true
      → All (λ p. (contains p before || contains p xs) ≡ true) (sources w x)
  unfolding contains
  Ordered-sources before [] x o c = cc
  Ordered-sources before (y ∷ ys) x o c = elim (ℕ_discrete y x) [
    | yes e ↦
        subst (λ z. All (λ p. (contains p before || contains p (y ∷ ys)) ≡ true) (sources w z)) e
          (All-imp _ _ (λ p h. ground arith) (sources w y) o.0)
    | no n ↦
        All-imp _ _ (λ p h. ground arith) (sources w x)
          (Ordered-sources (y ∷ before) ys x o.1 (ground arith))
  ]

  -- What an existing module feeds.
  feeds_module :
      (id : ModuleId)
      → IsValid w
      → Exists w id
      → contains id (terminal_modules w) ≡ false
      → (next : ModuleId) × Exists w next × (contains id (sources w next) ≡ true)
  unfolding terminal_modules
  feeds_module id valid ex n =
      let (i, o, g, same) =
        feeds w.connections (keys w.modules) id valid.connections_map
          (keys_complete w.modules id ex.0 ex.1) n in
      let (t, ti, _) = valid.typed i o g in
      let (m, e, lt) = input-Exists i t ti in
      (
        i.module_id,
        (m, e),
        subst (λ z. contains z (sources w i.module_id) ≡ true) same
            (rw (sources_lem w (λ _. 0) i.module_id (m, e)) (
              sources_at-contains i.module_id 0 (length (host.inputs m)) i.index o g (omega arith)
                (omega arith))),
      )

  climbs :
      (rank : ModuleId → ℕ) (order : List ModuleId)
      → IsValid w
      → Acyclic w rank
      → Ordered w [] order
      → All (λ id. contains id order ≡ true) (terminal_modules w)
      → (n : ℕ) (id : ModuleId) → Exists w id
      → total rank (keys w.modules) < rank id + n
      → contains id order ≡ true
  unfolding contains
  climbs rank order valid a o ts zero id ex lt =
      absurd (
        omega
          (arith, rank-le-total rank id (keys w.modules) (keys_complete w.modules id ex.0 ex.1)))
  climbs rank order valid a o ts (suc n) id ex lt =
      elim (Bool-cases (contains id (terminal_modules w))) [
        | inl e ↦ contains-All (λ t. contains t order ≡ true) id (terminal_modules w) ts e
        | inr e ↦
            let (next, ex', c) = feeds_module id valid ex e in
            let rises = contains-All (λ p. rank p < rank next) id (sources w next) (a next) c in
            let there = climbs rank order valid a o ts n next ex' (omega arith) in
            contains-All (λ p. contains p order ≡ true) id (sources w next)
              (Ordered-sources [] order next o there) c
      ]

  -- In a valid workspace where no module feeds itself through others, every module is run.
  pub every_module_runs :
      (rank : ModuleId → ℕ)
      → IsValid w
      → Acyclic w rank
      → (id : ModuleId) → Exists w id
      → (s : Topsort) × (run_order w ≡ ok s) × (contains id s.run_order ≡ true)
  every_module_runs rank valid a id ex =
      let (s, e, _, _, ts, o) = run_order_lem w rank valid in
      (
        s,
        e,
        climbs rank s.run_order valid a (o a) ts (suc (total rank (keys w.modules))) id ex
            (omega arith),
      )

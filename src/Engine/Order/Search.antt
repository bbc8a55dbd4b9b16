-- ===== src/Engine/Order/Search.antt =====
-- The search for the run order: what one call of `traverse` does to the modules seen and to the order,
-- with the modules under way (grey) as an argument of the invariant.
use mixlab.Prelude.{
  Bool-cases, ℕ, zero, suc, ◌≡◌, ◌<◌, inl, inr, refl, ap, ◌∙◌, List, [], ◌∷◌, ◌++◌, some, length,
  ◌||◌, true, false, arith, All, All-append, All-imp, All-and,
}
use mixlab.Prelude.Map.{get}
use mixlab.Prelude.Result.{ok, ◌>>=◌}
use mixlab.Protocol.{ModuleId, module_key}
use mixlab.Engine.Host.{ModuleHost}
use mixlab.Engine.Workspace.{Workspace, range_from}
use mixlab.Engine.Order.{Topsort, Search, contains, visit_module, push, traverse}
use mixlab.Engine.Order.Sources.{
  contains-snoc, unseen, unseen_mono, unseen_lt, visit_list, visit_inputs-list, sources, sources_at,
}

-- No module stands in the order twice.
abbrev pub Unique : List ModuleId → Type 0
Unique [] = Unit {0}
Unique (x ∷ xs) = (contains x xs ≡ false) × Unique xs

Unique-snoc :
    (x : ModuleId) (xs : List ModuleId) → contains x xs ≡ false → Unique xs → Unique (xs ++ x ∷ [])
unfolding contains
Unique-snoc x [] n u = (refl, tt)
Unique-snoc x (y ∷ ys) n u =
    (ground (arith, contains-snoc y x ys), Unique-snoc x ys (ground arith) u.1)

-- A module with a rank below each of a list is not in it.
contains-lt :
    (rank : ModuleId → ℕ) (x : ModuleId) (xs : List ModuleId)
    → All (λ g. rank x < rank g) xs
    → contains x xs ≡ false
unfolding contains
contains-lt rank x [] h = refl
contains-lt rank x (y ∷ ys) h = ground (arith, contains-lt rank x ys h.1, h.0)

module _ {host : ModuleHost} (w : Workspace host) where
  open host use {Module}

  abbrev pub Exists : ModuleId → Type 0
  Exists id = (m : Module) × (get id w.modules ≡ some m)

  -- The modules that feed a module exist.
  abbrev pub Closed : Type 0
  Closed = (id : ModuleId) → All Exists (sources w id)

  -- Each module stands after all that feed it, the ones in `before` counted.
  abbrev pub Ordered : List ModuleId → List ModuleId → Type 0
  Ordered before [] = Unit {0}
  Ordered before (x ∷ xs) =
      All (λ p. contains p before ≡ true) (sources w x) × Ordered (x ∷ before) xs

  Ordered-snoc :
      (before xs : List ModuleId) (y : ModuleId)
      → Ordered before xs
      → All (λ p. (contains p before || contains p xs) ≡ true) (sources w y)
      → Ordered before (xs ++ y ∷ [])
  unfolding contains
  Ordered-snoc before [] y o h = (All-imp _ _ (λ p e. ground arith) (sources w y) h, tt)
  Ordered-snoc before (x ∷ xs) y o h =
      (o.0, Ordered-snoc (x ∷ before) xs y o.1 (All-imp _ _ (λ p e. ground arith) (sources w y) h))

  module _ (rank : ModuleId → ℕ) where
    -- No module feeds itself, directly or through others.
    abbrev pub Acyclic : Type 0
    Acyclic = (id : ModuleId) → All (λ p. rank p < rank id) (sources w id)

    pub record Inv (grey : List ModuleId) (s : Topsort) : Type 0 where
      pub split : (x : ModuleId) → contains x s.seen ≡ (contains x s.run_order || contains x grey)
      pub apart : (x : ModuleId) → contains x s.run_order ≡ true → contains x grey ≡ false
      pub unique : Unique s.run_order
      pub exist : All Exists s.run_order
      pub ordered : Acyclic → Ordered [] s.run_order

    pub record Post (grey : List ModuleId) (s t : Topsort) : Type 0 where
      pub inv : Inv grey t
      pub grows : (x : ModuleId) → contains x s.seen ≡ true → contains x t.seen ≡ true

    abbrev Below : ModuleId → List ModuleId → Type 0
    Below id = All (λ g. rank id < rank g)

    -- What a call that may nest `fuel` deep gives.
    abbrev pub Visits : (ModuleId → Topsort → Search) → ℕ → Type 0
    Visits visit fuel =
        (id : ModuleId) (s : Topsort) (grey : List ModuleId)
        → Exists id
        → unseen s.seen w.modules < fuel
        → Inv grey s
        → (Acyclic → Below id grey)
        → (t : Topsort) × (visit id s ≡ ok t) × Post grey s t × (contains id t.seen ≡ true)

    pub visit_list_lem :
        (visit : ModuleId → Topsort → Search) (fuel : ℕ)
        → Visits visit fuel
        → (ids : List ModuleId) (s : Topsort) (grey : List ModuleId) → All Exists ids
        → unseen s.seen w.modules < fuel
        → Inv grey s
        → (Acyclic → All (λ p. Below p grey) ids)
        → (t : Topsort) × (visit_list visit ids s ≡ ok t)
          × Post grey s t
          × All (λ p. contains p t.seen ≡ true) ids
    unfolding visit_list
    visit_list_lem visit fuel v [] s grey ex lt inv below =
        (s, refl, record { inv = inv; grows = λ x h. h }, tt)
    visit_list_lem visit fuel v (id ∷ ids) s grey ex lt inv below =
        let (t, e, post, seen) = v id s grey ex.0 lt inv (λ a. (below a).0) in
        let (r, e', post', seen') =
          visit_list_lem visit fuel v ids t grey ex.1
            (omega (arith, unseen_mono s.seen t.seen w.modules post.grows)) post.inv
            (λ a. (below a).1) in
        (
          r,
          ap (λ k. k >>= visit_list visit ids) e ∙ e',
          record { inv = post'.inv; grows = λ x h. post'.grows x (post.grows x h) },
          (post'.grows id seen, seen'),
        )

    -- A module that was not seen is under way.
    start-Inv :
        (id : ModuleId) (s : Topsort) (grey : List ModuleId)
        → contains id s.seen ≡ false
        → Inv grey s
        → Inv (id ∷ grey) (record s { seen = id ∷ s.seen })
    unfolding contains
    start-Inv id s grey n inv = record {
      split = λ x. ground (arith, inv.split x);
      apart = λ x h. ground (arith, inv.split x, inv.apart x h, n);
      unique = inv.unique;
      exist = inv.exist;
      ordered = inv.ordered;
    }

    -- A module whose sources are seen is put last.
    push-Inv :
        (id : ModuleId) (s : Topsort) (grey : List ModuleId)
        → Exists id
        → contains id grey ≡ false
        → All (λ p. contains p s.seen ≡ true) (sources w id)
        → (Acyclic → Below id grey)
        → Inv (id ∷ grey) s
        → Inv grey (record s { run_order = s.run_order ++ id ∷ [] })
    unfolding contains
    push-Inv id s grey ex n seen below inv = record {
      split = λ x. ground (arith, inv.split x, contains-snoc x id s.run_order);
      apart = λ x h. ground (arith, inv.apart x, contains-snoc x id s.run_order, n);
      unique = Unique-snoc id s.run_order (ground (arith, inv.apart id)) inv.unique;
      exist = All-append Exists s.run_order (id ∷ []) inv.exist (ex, tt);
      ordered = λ a. Ordered-snoc [] s.run_order id (inv.ordered a) (
          All-imp _ _ (λ p e. placed a p e.0 e.1) (sources w id)
            (All-and _ _ (sources w id) (a id) seen));
    }
      where
        under_way : Acyclic → (p : ModuleId) → rank p < rank id → Below p (id ∷ grey)
        under_way a p lt = (lt, All-imp _ _ (λ g e. omega arith) grey (below a))

        placed :
            Acyclic
            → (p : ModuleId) → rank p < rank id
            → contains p s.seen ≡ true
            → (contains p [] || contains p s.run_order) ≡ true
        placed a p lt e =
            ground (arith, inv.split p, contains-lt rank p (id ∷ grey) (under_way a p lt))

    pub sources_lem :
        (id : ModuleId) (ex : Exists id)
        → sources w id ≡ sources_at w id (range_from 0 (length (host.inputs ex.0)))
    unfolding sources
    sources_lem id (m, e) = rw (sources, e)

    visit_module-list :
        (visit : ModuleId → Topsort → Search) (id : ModuleId) (ex : Exists id) (s : Topsort)
        → visit_module w visit id (get id w.modules) s
          ≡ (visit_list visit (sources w id) s >>= push w id)
    visit_module-list visit id (m, e) s = rw (
      e,
      visit_inputs-list w visit id (range_from 0 (length (host.inputs m))) s,
      sources_lem id (m, e),
    )

    -- With more fuel than there are modules unseen, a call succeeds and keeps the invariant.
    pub traverse_lem : Closed → (fuel : ℕ) → Visits (traverse w fuel) fuel
    unfolding traverse
    traverse_lem closed zero id s grey ex lt inv below = absurd (omega arith)
    traverse_lem closed (suc fuel) id s grey ex lt inv below =
        elim (Bool-cases (contains id s.seen)) [
          | inl e ↦ (s, rw e, record { inv = inv; grows = λ x h. h }, e)
          | inr n ↦
              let s' = record s { seen = id ∷ s.seen } in
              let (t, e, post, seen) =
                visit_list_lem (traverse w fuel) fuel (traverse_lem closed fuel) (sources w id) s'
                  (id ∷ grey) (closed id) (omega (arith, unseen_lt s.seen w.modules id ex.0 ex.1 n))
                  (start-Inv id s grey n inv)
                  (λ a.
                    All-imp _ _ (λ p lt. (lt, All-imp _ _ (λ g e. omega arith) grey (below a)))
                      (sources w id) (a id)) in
              (
                record t { run_order = t.run_order ++ id ∷ [] },
                rw (n, visit_module-list (traverse w fuel) id ex s', e),
                record {
                  inv = push-Inv id t grey ex (ground (arith, inv.split id)) seen below post.inv;
                  grows = λ x h. post.grows x (ground arith);
                },
                post.grows id (ground arith),
              )
        ]

-- ===== src/Prelude/Map.antt =====
-- `HashMap` as an association list. Its order stands for the iteration order, which the program
-- cannot rely on: the theorems hold for every list.
use mathlib.Core.Path.{◌≡◌, refl, ap, ◌∙◌}
use mathlib.Core.Logic.{◌≢◌, ite, if_pos, if_neg}
use mathlib.Core.Option
use mathlib.Core.Option.{Option, none, some}
use mathlib.Core.List.{List, [], ◌∷◌}
use native.Mathlib.Omega.{arith}
use mixlab.Prelude.Lists.{All}

-- Keys are compared by `Eq`.
pub record Key {ℓ} (K : Type ℓ) : Type ℓ where
  pub eq? : Discrete K

abbrev pub Map {ℓ} : Type ℓ → Type ℓ → Type ℓ
Map K V = List (K × V)

module _ {ℓ} {K V : Type ℓ} ⦃key : Key K⦄ where
  unfoldable pub get : K → Map K V → Option V
  get j [] = none
  get j ((k, v) ∷ m) = ite (key.eq? k j) (some v) (get j m)

  -- An entry that is there keeps its place.
  unfoldable pub insert : K → V → Map K V → Map K V
  insert k v [] = (k, v) ∷ []
  insert k v ((j, w) ∷ m) = ite (key.eq? j k) ((k, v) ∷ m) ((j, w) ∷ insert k v m)

  unfoldable pub remove : K → Map K V → Map K V
  remove k [] = []
  remove k ((j, w) ∷ m) = let rest = remove k m in ite (key.eq? j k) rest ((j, w) ∷ rest)

  -- `if let Some(x) = m.get_mut(&k) { *x = f(*x) }`
  unfoldable pub modify : K → (V → V) → Map K V → Map K V
  modify k f [] = []
  modify k f ((j, w) ∷ m) = ite (key.eq? j k) ((j, f w) ∷ m) ((j, w) ∷ modify k f m)

  pub get-insert :
      (k j : K) (v : V) (m : Map K V) → get j (insert k v m) ≡ ite (key.eq? k j) (some v) (get j m)
  unfolding get insert
  get-insert k j v [] = refl
  get-insert k j v ((i, w) ∷ m) = ground (arith, get-insert k j v m)

  pub get_inserted : (k : K) (v : V) (m : Map K V) → get k (insert k v m) ≡ some v
  get_inserted k v m = ground (arith, get-insert k k v m)

  pub get-remove : (k j : K) (m : Map K V) → get j (remove k m) ≡ ite (key.eq? k j) none (get j m)
  unfolding get remove
  get-remove k j [] = ground arith
  get-remove k j ((i, w) ∷ m) = ground (arith, get-remove k j m)

  pub get-modify :
      (k j : K) (f : V → V) (m : Map K V)
      → get j (modify k f m) ≡ ite (key.eq? k j) (Option.map f (get j m)) (get j m)
  unfolding get modify
  get-modify k j f [] = ground arith
  get-modify k j f ((i, w) ∷ m) = ground (arith, get-modify k j f m)

  -- No key has two entries.
  abbrev pub Absent : K → Map K V → Type ℓ
  Absent k = All (λ e. e.0 ≢ k)

  abbrev pub IsMap : Map K V → Type ℓ
  IsMap [] = Unit {ℓ}
  IsMap ((k, v) ∷ m) = Absent k m × IsMap m

  pub Absent-get : (k : K) (m : Map K V) → Absent k m → get k m ≡ none
  unfolding get
  Absent-get k [] h = refl
  Absent-get k ((j, v) ∷ m) h = ground (arith, Absent-get k m h.1)

  Absent-insert : (k j : K) (v : V) (m : Map K V) → j ≢ k → Absent k m → Absent k (insert j v m)
  unfolding insert
  Absent-insert k j v [] n h = (n, tt)
  Absent-insert k j v ((i, w) ∷ m) n h = ground (arith, Absent-insert k j v m n h.1)

  pub IsMap-insert : (k : K) (v : V) (m : Map K V) → IsMap m → IsMap (insert k v m)
  unfolding insert
  IsMap-insert k v [] h = (tt, tt)
  IsMap-insert k v ((j, w) ∷ m) h = ground (arith, IsMap-insert k v m h.1, Absent-insert j k v m)

  Absent-remove : (k j : K) (m : Map K V) → Absent k m → Absent k (remove j m)
  unfolding remove
  Absent-remove k j [] h = tt
  Absent-remove k j ((i, w) ∷ m) h = ground (arith, Absent-remove k j m h.1)

  pub IsMap-remove : (k : K) (m : Map K V) → IsMap m → IsMap (remove k m)
  unfolding remove
  IsMap-remove k [] h = tt
  IsMap-remove k ((j, w) ∷ m) h = ground (arith, IsMap-remove k m h.1, Absent-remove j k m h.0)

module _ {ℓ} {K V W : Type ℓ} where
  -- `iter().map(…).collect()`, where each entry keeps its key.
  unfoldable pub map_values : (K → V → W) → Map K V → Map K W
  map_values f [] = []
  map_values f ((k, v) ∷ m) = (k, f k v) ∷ map_values f m

  pub get-map_values :
      ⦃key : Key K⦄ (f : K → V → W) (k : K) (m : Map K V)
      → get k (map_values f m) ≡ Option.map (f k) (get k m)
  unfolding get map_values
  get-map_values f k [] = refl
  get-map_values ⦃key⦄ f k ((j, v) ∷ m) = elim (key.eq? j k) [
    | yes e ↦ rw (if_pos _ e) (rw (if_pos _ e) (ap (λ (i : K). some (f i v)) e))
    | no n ↦ rw (if_neg _ n) (rw (if_neg _ n) (get-map_values f k m))
  ]

abbrev pub or_else {ℓ} : {V : Type ℓ} → Option V → Option V → Option V
or_else none o = o
or_else (some v) o = some v

module _ {ℓ} {K V : Type ℓ} ⦃key : Key K⦄ where
  -- `into_iter().collect()`: of two entries with one key the later stays.
  unfoldable pub collect_into : Map K V → List (K × V) → Map K V
  collect_into acc [] = acc
  collect_into acc ((k, v) ∷ l) = collect_into (insert k v acc) l

  pub get-collect_into :
      (k : K) (l : Map K V) (acc : Map K V)
      → IsMap l
      → get k (collect_into acc l) ≡ or_else (get k l) (get k acc)
  unfolding get collect_into
  get-collect_into k [] acc h = refl
  get-collect_into k ((j, v) ∷ l) acc h =
      ground
        (arith, get-collect_into k l (insert j v acc) h.1, get-insert j k v acc, Absent-get j l h.0)

module _ {ℓ} {K V W : Type ℓ} ⦃key : Key K⦄ where
  Absent-map_values : (f : K → V → W) (k : K) (m : Map K V) → Absent k m → Absent k (map_values f m)
  unfolding map_values
  Absent-map_values f k [] h = tt
  Absent-map_values f k ((j, v) ∷ m) h = (h.0, Absent-map_values f k m h.1)

  pub IsMap-map_values : (f : K → V → W) (m : Map K V) → IsMap m → IsMap (map_values f m)
  unfolding map_values
  IsMap-map_values f [] h = tt
  IsMap-map_values f ((k, v) ∷ m) h = (Absent-map_values f k m h.0, IsMap-map_values f m h.1)

or_else-none {ℓ} : {V : Type ℓ} (o : Option V) → or_else o none ≡ o
or_else-none none = refl
or_else-none (some v) = refl

pub get-collect {ℓ} :
    {K V : Type ℓ} ⦃key : Key K⦄ (k : K) (l : Map K V)
    → IsMap l
    → get k (collect_into [] l) ≡ get k l
unfolding get
get-collect k l h = get-collect_into k l [] h ∙ or_else-none (get k l)

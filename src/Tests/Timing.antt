-- ===== src/Tests/Timing.antt =====
-- A tick of two module runs.
use mixlab.Prelude.{◌≡◌, ◌-◌, [], ◌∷◌, some, arith, All, ltb, List}
use mixlab.Prelude.Map.{get}
use mixlab.Engine.Timing.{EngineStat, Timed, new_stat, record_tick, engine, account_key, as_micros}
use mixlab.Engine.Timing.Accounts.{Accounted, spent, record_tick_lem}

abbrev runs : List Timed
runs =
    record { module_id = 1; start = 1_000_000; finish = 3_000_000 }
    ∷ record { module_id = 2; start = 3_000_000; finish = 4_000_000 }
    ∷ []

record_tick_lem_example :
    (stat : EngineStat) × (record_tick new_stat 17_000_000 500_000 runs 5_000_000 5_100_000
      ≡ some stat)
    × All (Accounted stat) runs
    × (get engine stat.accounts
        ≡ some (record { last = as_micros (5_000_000 - 500_000 - spent runs) }))
    × (stat.is_realtime ≡ ltb 5_000_000 17_000_000)
record_tick_lem_example =
    record_tick_lem new_stat 17_000_000 500_000 5_000_000 5_100_000 runs (omega arith)
      (((λ e. omega (arith, e)), tt), (tt, tt))

-- ===== src/Engine/Timing.antt =====
-- src/engine/timing.rs: what the engine measures. An `Instant` is the number of nanoseconds since
-- some origin; what `Instant::now()` returns is an argument.
pub mod Accounts
use mixlab.Prelude.{
  ℕ, ◌+◌, ◌-◌, ◌*◌, ◌/◌, ◌%◌, ◌^◌, Bool, false, List, [], ◌∷◌, Option, none, some, ℕ_discrete, ltb,
  leb, if◌then◌else◌,
}
use mixlab.Prelude.Map.{Key, Map, insert, remove, map_values}
use mixlab.Protocol.{ModuleId}
use mixlab.Util.{TemporalWarningStatus, temporal_warning}

abbrev pub ticks_per_second : ℕ
ticks_per_second = 60

-- In nanoseconds; the source counts whole microseconds.
abbrev pub tick_budget : ℕ
tick_budget = 1_000_000 / ticks_per_second * 1000

pub data PerformanceAccount : Type 0 where
  engine : PerformanceAccount
  module_account : ModuleId → PerformanceAccount

unfoldable pub PerformanceAccount-discrete : Discrete PerformanceAccount
PerformanceAccount-discrete = hlevel ℕ_discrete

instance abbrev pub account_key : Key PerformanceAccount
account_key = record { eq? = PerformanceAccount-discrete }

-- `Stat`: the last sample, in whole microseconds.
pub record Stat : Type 0 where
  pub last : ℕ

abbrev pub as_micros : ℕ → ℕ
as_micros duration = duration / 1000

pub record EngineStat : Type 0 where
  pub is_realtime : Bool
  pub last_lagged : Option ℕ
  pub accounts : Map PerformanceAccount Stat

abbrev pub new_stat : EngineStat
new_stat = record { is_realtime = false; last_lagged = none; accounts = [] }

-- `entry(account).and_modify(…).or_insert(…)`: both branches keep the last sample alone.
unfoldable pub add_sample : PerformanceAccount → ℕ → EngineStat → EngineStat
add_sample account sample stat = record stat {
  accounts = insert account (record { last = as_micros sample }) stat.accounts;
}

unfoldable pub remove_module : ModuleId → EngineStat → EngineStat
remove_module id stat = record stat { accounts = remove (module_account id) stat.accounts }

pub record TickStat : Type 0 where
  pub stat : EngineStat
  pub modules_accounted_for : ℕ

-- A run of one module, from `start` to `end`.
pub record Timed : Type 0 where
  pub module_id : ModuleId
  pub start : ℕ
  pub finish : ℕ

unfoldable pub record_module : TickStat → Timed → TickStat
record_module tick run = record {
  stat = add_sample (module_account run.module_id) (run.finish - run.start) tick.stat;
  modules_accounted_for = tick.modules_accounted_for + (run.finish - run.start);
}

-- The calls that the tick's closure makes.
unfoldable pub record_modules : TickStat → List Timed → TickStat
unfolding record_module
record_modules tick [] = tick
record_modules tick (run ∷ runs) = record_modules (record_module tick run) runs

unfoldable pub mark_lag : ℕ → ℕ → EngineStat → EngineStat
mark_lag tick_time now stat =
    if ltb tick_budget tick_time then record stat { last_lagged = some now } else stat

-- `none` is the panic of a negative difference of durations.
unfoldable pub record_tick : EngineStat → ℕ → ℕ → List Timed → ℕ → ℕ → Option EngineStat
unfolding record_modules mark_lag add_sample
record_tick stat scheduled_tick_end start runs finish now =
    let tick = record_modules (record { stat = stat; modules_accounted_for = 0 }) runs in
    let timed = record tick.stat { is_realtime = ltb finish scheduled_tick_end } in
    let tick_time = finish - start in
    if leb tick.modules_accounted_for tick_time
    then some
        (add_sample engine (tick_time - tick.modules_accounted_for) (mark_lag tick_time now timed))
    else none

pub record PerformanceInfo : Type 0 where
  pub realtime : Bool
  pub lag : Option TemporalWarningStatus
  pub tick_rate : ℕ
  pub tick_budget_micros : ℕ
  pub accounts : Map PerformanceAccount ℕ

abbrev since : ℕ → Option ℕ → Option ℕ
since now none = none
since now (some time) = some (now - time)

-- A sample is cut to 64 bits when it is read back.
unfoldable pub report : EngineStat → ℕ → PerformanceInfo
report stat now = record {
  realtime = stat.is_realtime;
  lag = temporal_warning (since now stat.last_lagged);
  tick_rate = ticks_per_second;
  tick_budget_micros = as_micros tick_budget;
  accounts = map_values (λ _ s. s.last % 2 ^ 64) stat.accounts;
}

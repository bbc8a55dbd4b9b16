-- ===== src/Engine/Timing/Accounts.antt =====
-- The accounts of a tick in src/engine/timing.rs add up to its time.
use mixlab.Prelude.{
  le→leb, if_neg, ℕ, ◌+◌, ◌-◌, ◌≡◌, ◌≢◌, ◌≤◌, refl, ap, ◌∙◌, List, [], ◌∷◌, some, ltb, arith, All,
  All-imp,
}
use mixlab.Prelude.Map.{Map, get, insert, get-insert, get_inserted}
use mixlab.Protocol.{ModuleId}
use mixlab.Engine.Timing.{
  EngineStat, TickStat, Stat, Timed, PerformanceAccount, engine, module_account, account_key,
  as_micros, add_sample, record_module, record_modules, record_tick, mark_lag,
}

-- The clock does not go back: the runs follow each other between two instants.
abbrev pub InOrder : ℕ → List Timed → ℕ → Type 0
InOrder from [] to = from ≤ to
InOrder from (run ∷ runs) to =
    (from ≤ run.start) × (run.start ≤ run.finish) × InOrder run.finish runs to

-- No module runs twice.
abbrev pub OnceEach : List Timed → Type 0
OnceEach [] = Unit {0}
OnceEach (run ∷ runs) =
    All (λ (other : Timed). other.module_id ≢ run.module_id) runs × OnceEach runs

pub spent : List Timed → ℕ
spent [] = 0
spent (run ∷ runs) = (run.finish - run.start) + spent runs

spent_le : (from to : ℕ) (runs : List Timed) → InOrder from runs to → from + spent runs ≤ to
unfolding spent
spent_le from to [] h = omega arith
spent_le from to (run ∷ runs) (a, b, h) = omega (arith, spent_le run.finish to runs h)

record_modules-spent :
    (tick : TickStat) (runs : List Timed)
    → (record_modules tick runs).modules_accounted_for ≡ tick.modules_accounted_for + spent runs
unfolding record_modules record_module spent
record_modules-spent tick [] = omega arith
record_modules-spent tick (run ∷ runs) =
    record_modules-spent (record_module tick run) runs ∙ omega arith

-- The account of a module holds the time of its run.
abbrev pub Accounted : EngineStat → Timed → Type 0
Accounted stat run =
    get (module_account run.module_id) stat.accounts
    ≡ some (record { last = as_micros (run.finish - run.start) })

account_inj : (i j : ModuleId) → module_account i ≡ module_account j → i ≡ j
account_inj i j e = cc e

other_account :
    (i j : ModuleId) (v : Stat) (m : Map PerformanceAccount Stat)
    → i ≢ j
    → get (module_account j) (insert (module_account i) v m) ≡ get (module_account j) m
other_account i j v m n =
    rw (get-insert (module_account i) (module_account j) v m, if_neg _ (λ e. n (account_inj i j e)))

engine_ne : (j : ModuleId) → engine ≢ module_account j
engine_ne j = λ e. cc e

engine_apart :
    (j : ModuleId) (v : Stat) (m : Map PerformanceAccount Stat)
    → get (module_account j) (insert engine v m) ≡ get (module_account j) m
engine_apart j v m = rw (get-insert engine (module_account j) v m, if_neg _ (engine_ne j))

record_modules-other :
    (tick : TickStat) (runs : List Timed) (id : ModuleId)
    → All (λ (other : Timed). other.module_id ≢ id) runs
    → get (module_account id) (record_modules tick runs).stat.accounts
      ≡ get (module_account id) tick.stat.accounts
unfolding record_modules record_module add_sample
record_modules-other tick [] id h = refl
record_modules-other tick (run ∷ runs) id h =
    record_modules-other (record_module tick run) runs id h.1
    ∙ other_account run.module_id id (record { last = as_micros (run.finish - run.start) })
        tick.stat.accounts h.0

record_modules-Accounted :
    (tick : TickStat) (runs : List Timed)
    → OnceEach runs
    → All (Accounted (record_modules tick runs).stat) runs
unfolding record_modules record_module add_sample
record_modules-Accounted tick [] h = tt
record_modules-Accounted tick (run ∷ runs) h = (
  record_modules-other (record_module tick run) runs run.module_id h.0
      ∙ get_inserted (module_account run.module_id)
          (record { last = as_micros (run.finish - run.start) }) tick.stat.accounts,
  record_modules-Accounted (record_module tick run) runs h.1,
)

mark_lag-accounts : (t now : ℕ) (stat : EngineStat) → (mark_lag t now stat).accounts ≡ stat.accounts
unfolding mark_lag
mark_lag-accounts t now stat = ground arith

mark_lag-is_realtime :
    (t now : ℕ) (stat : EngineStat) → (mark_lag t now stat).is_realtime ≡ stat.is_realtime
unfolding mark_lag
mark_lag-is_realtime t now stat = ground arith

-- When the clock does not go back and no module runs twice, recording a tick does not panic; each
-- module's account holds the time of its run, the engine's account the rest of the tick's time, in
-- whole microseconds; and the tick was in real time exactly when it ended before it was due.
pub record_tick_lem :
    (stat : EngineStat) (scheduled_tick_end start finish now : ℕ) (runs : List Timed)
    → InOrder start runs finish
    → OnceEach runs
    → (stat' : EngineStat) × (record_tick stat scheduled_tick_end start runs finish now
        ≡ some stat')
      × All (Accounted stat') runs
      × (get engine stat'.accounts
          ≡ some (record { last = as_micros (finish - start - spent runs) }))
      × (stat'.is_realtime ≡ ltb finish scheduled_tick_end)
unfolding record_tick add_sample
record_tick_lem stat scheduled_tick_end start finish now runs order once =
    let tick : TickStat = record_modules (record { stat = stat; modules_accounted_for = 0 }) runs in
    let timed : EngineStat = record tick.stat { is_realtime = ltb finish scheduled_tick_end } in
    let marked : EngineStat = mark_lag (finish - start) now timed in
    let total : tick.modules_accounted_for ≡ spent runs =
      record_modules-spent (record { stat = stat; modules_accounted_for = 0 }) runs ∙ omega arith in
    let rest : Stat = record { last = as_micros (finish - start - tick.modules_accounted_for) } in
    (
      add_sample engine (finish - start - tick.modules_accounted_for) marked,
      rw (
        record_tick,
        le→leb tick.modules_accounted_for (finish - start)
            (omega (arith, total, spent_le start finish runs order)),
      ),
      All-imp _ _
          (λ run h.
            engine_apart run.module_id rest marked.accounts
            ∙ (ap (get (module_account run.module_id))
                  (mark_lag-accounts (finish - start) now timed)
                ∙ h))
          runs
          (record_modules-Accounted (record { stat = stat; modules_accounted_for = 0 }) runs once),
      get_inserted engine rest marked.accounts
          ∙ ap (λ t. some (record { last = as_micros (finish - start - t) })) total,
      mark_lag-is_realtime (finish - start) now timed,
    )

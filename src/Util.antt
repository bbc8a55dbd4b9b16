-- ===== src/Util.antt =====
-- src/util.rs: the parts of it that are not input and output.
use mixlab.Prelude.{ℕ, ◌+◌, ◌^◌, Option, none, some, ltb, if◌then◌else◌}

-- `Sequence` is a `usize`, the last number given out. `next` gives out the following one; `none` is
-- the panic when the counter overflows, by the addition in a debug build, and by the `unwrap` of
-- `NonZeroUsize::new(0)` in a release build.
abbrev pub Sequence : Type 0
Sequence = ℕ

unfoldable pub next : Sequence → Option Sequence
next s = if ltb (s + 1) (2 ^ 64) then some (s + 1) else none

pub data TemporalWarningStatus : Type 0 where
  active recent : TemporalWarningStatus

-- Durations are in nanoseconds.
abbrev pub warning_of : ℕ → Option TemporalWarningStatus
warning_of dur =
    if ltb dur 100_000_000 then some active else if ltb dur 5_000_000_000 then some recent else none

unfoldable pub temporal_warning : Option ℕ → Option TemporalWarningStatus
temporal_warning none = none
temporal_warning (some dur) = warning_of dur

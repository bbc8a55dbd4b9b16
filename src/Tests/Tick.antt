-- ===== src/Tests/Tick.antt =====
-- A tick of two modules, the second fed by the first. Samples are numbers, and a module writes its gain
-- to the first sample of its output.
use mixlab.Prelude.{ap₂, ℕ, ◌≡◌, refl, List, [], ◌∷◌, map, none, some}
use mixlab.Prelude.Result.{ok}
use mixlab.Engine.Io.{Signals, Output, mono_output, stereo_output, video_output}
use mixlab.Engine.Order.{Topsort, run_order}
use mixlab.Engine.Tick.{TickHost, Tick, run_tick}
use mixlab.Engine.Tick.Kinds.{kind}
use mixlab.Engine.Tick.Types.{TickLaws, AllReadable, run_tick_lem}
use mixlab.Tests.Sample.{gain_host}
use mixlab.Tests.Order.{pair, pair-IsValid}

abbrev number_signals : Signals
number_signals = record { Sample = ℕ; silence = 0; VideoFrame = ℕ }

abbrev with_gain : ℕ → Output number_signals → Output number_signals
with_gain g (stereo_output (_ ∷ rest)) = stereo_output (g ∷ rest)
with_gain g (stereo_output []) = stereo_output []
with_gain g (mono_output b) = mono_output b
with_gain g (video_output f) = video_output f

abbrev gain_ticks : TickHost gain_host number_signals
gain_ticks = record { run = λ m t is os. (m, map (with_gain m) os, none) }

same_kind : (g : ℕ) (o : Output number_signals) → kind (with_gain g o) ≡ kind o
same_kind g (stereo_output (_ ∷ _)) = refl
same_kind g (stereo_output []) = refl
same_kind g (mono_output _) = refl
same_kind g (video_output _) = refl

all_kinds :
    (g : ℕ) (os : List (Output number_signals)) → map kind (map (with_gain g) os) ≡ map kind os
all_kinds g [] = refl
all_kinds g (o ∷ os) = ap₂ (λ x xs. x ∷ xs) (same_kind g o) (all_kinds g os)

gain_tick_laws : TickLaws gain_ticks
gain_tick_laws = record {
  same_terminals = λ m t is os. (refl, refl);
  same_kinds = λ m t is os. all_kinds m os;
}

run_tick_lem_example :
    (order : Topsort) × (t : Tick gain_host number_signals) × (run_order pair ≡ ok order)
    × AllReadable gain_ticks 3 order.run_order
        (record { workspace = pair; buffers = []; indications = [] })
    × (run_tick gain_ticks 3 pair ≡ some t)
run_tick_lem_example = run_tick_lem gain_ticks gain_tick_laws 3 pair pair-IsValid

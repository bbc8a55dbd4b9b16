-- ===== src/Engine/Tick/Kinds.antt =====
-- The kinds of the buffers of src/engine/io.rs, and the kinds that terminals ask for.
use mixlab.Prelude.{
  ap₂, ℕ, zero, suc, ◌≡◌, ◌≢◌, refl, none, some, List, [], ◌∷◌, map, get_elem?, arith,
}
use mixlab.Prelude.Map.{get}
use mixlab.Protocol.{
  ModuleId, LineType, mono, stereo, video, Terminal, output, module_key, input_key, output_key,
}
use mixlab.Engine.Host.{ModuleHost}
use mixlab.Engine.Workspace.{Workspace, terminal_type}
use mixlab.Engine.Io.{
  Signals, InputRef, Output, disconnected, mono_output, stereo_output, video_output, from_line_type,
  as_input_ref, expect_mono, expect_stereo, expect_video,
}

abbrev pub kind : {signals : Signals} → Output signals → LineType
kind (mono_output _) = mono
kind (stereo_output _) = stereo
kind (video_output _) = video

-- The call that a module makes for an input of this type does not panic.
abbrev pub Readable : {signals : Signals} → LineType → InputRef signals → Type 0
Readable mono r = expect_mono r ≢ none
Readable stereo r = expect_stereo r ≢ none
Readable video r = expect_video r ≢ none

pub Readable-disconnected :
    (signals : Signals) (t : LineType) → Readable {signals = signals} t disconnected
unfolding expect_mono expect_stereo expect_video
Readable-disconnected _ mono = λ e. cc
Readable-disconnected _ stereo = λ e. cc
Readable-disconnected _ video = λ e. cc

pub Readable-kind : {signals : Signals} (b : Output signals) → Readable (kind b) (as_input_ref b)
unfolding expect_mono expect_stereo expect_video as_input_ref
Readable-kind (mono_output _) = λ e. cc
Readable-kind (stereo_output _) = λ e. cc
Readable-kind (video_output _) = λ e. cc

kind-from_line_type :
    (signals : Signals) (l : LineType) → kind (from_line_type {signals = signals} l) ≡ l
unfolding from_line_type
kind-from_line_type _ mono = refl
kind-from_line_type _ stereo = refl
kind-from_line_type _ video = refl

-- An output whose kinds are those of the terminals stands at a terminal of its kind.
pub kind_at :
    (signals : Signals) (os : List (Output signals)) (ts : List Terminal) (k : ℕ)
    (b : Output signals)
    → map kind os ≡ map (λ (t : Terminal). t.line_type) ts
    → get_elem? os k ≡ some b
    → (t : Terminal) × (get_elem? ts k ≡ some t) × (t.line_type ≡ kind b)
kind_at _ [] ts k b e h = cc
kind_at _ (o ∷ os) [] k b e h = cc
kind_at _ (o ∷ os) (t ∷ ts) zero b e h = (t, refl, ground (arith, e, h))
kind_at signals (o ∷ os) (t ∷ ts) (suc k) b e h = kind_at signals os ts k b (cc e) h

pub fresh_kinds :
    (signals : Signals) (ts : List Terminal)
    → map kind (map (λ (t : Terminal). from_line_type {signals = signals} t.line_type) ts)
      ≡ map (λ (t : Terminal). t.line_type) ts
fresh_kinds _ [] = refl
fresh_kinds signals (t ∷ ts) =
    ap₂ (λ x xs. x ∷ xs) (kind-from_line_type signals t.line_type) (fresh_kinds signals ts)

pub own_type :
    {host : ModuleHost} (w : Workspace host) (id : ModuleId) (m : host.Module) (k : ℕ)
    (t : Terminal)
    → get id w.modules ≡ some m
    → get_elem? (host.outputs m) k ≡ some t
    → terminal_type w (output (record { module_id = id; index = k })) ≡ some t.line_type
unfolding terminal_type
own_type w id m k t h g = ground (arith, h, g)

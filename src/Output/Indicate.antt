-- ===== src/Output/Indicate.antt =====
-- What the clients see of the connection of src/module/stream_output.rs.

use mixlab.Prelude.{
  ℕ, ◌≡◌, ◌≢◌, refl, sym, ap, ◌∙◌, leb, ◌==◌, List, Option, some, Bool-cases, inl, inr,
}
use mixlab.Media.{Rational}
use mixlab.Engine.Io.{Signals, InputRef}
use mixlab.Output.{
  Network, StreamOutput, TryRecv, TrySend, status_of, create, update, run_tick, next_connection,
  is_active,
}
use mixlab.Output.Status.{StreamOutputParams, StreamOutputIndication}
use mixlab.Output.Shown.{Watched, show, IsShown, indicate-stored, indicate-IsShown, ticked_lem}

module _ {R : Rational} {N : Network} {signals : Signals} where
  -- A step of the module and of what its clients were sent.
  pub data Step : Watched R N signals → Watched R N signals → Type 0 where
    changed :
        (w : Watched R N signals) (new : StreamOutputParams)
        → Step w (record w { output = (update w.output new).1 })
    ticked :
        (w : Watched R N signals) (t : ℕ) (inputs : List (InputRef signals)) (attempt : TryRecv N)
        (result : TrySend) (out : Option StreamOutputIndication × StreamOutput R N signals)
        → run_tick w.output t inputs attempt result ≡ some out
        → Step w (show w.shown out)

  pub data Reach (w : Watched R N signals) : Watched R N signals → Type 0 where
    here : Reach w w
    more : {u v : Watched R N signals} → Reach w u → Step u v → Reach w v

  -- What the module stores is what was sent.
  abbrev IsStored : Watched R N signals → Type 0
  IsStored w = w.shown ≡ w.output.indication

  update-indication :
      (m : StreamOutput R N signals) (new : StreamOutputParams)
      → (update m new).1.indication ≡ m.indication
  unfolding update
  update-indication m new = elim (Bool-cases (leb new.seq m.params.seq)) [
    | inl old ↦ rw (update, old) refl
    | inr newer ↦ elim (Bool-cases (is_active m.connection)) [
      | inl active ↦ elim (Bool-cases (new.disconnect_seq == new.seq)) [
        | inl stop ↦ rw (update, newer, active, stop) refl
        | inr goes ↦ rw (update, newer, active, goes) refl
      ]
      | inr idle ↦ elim (Bool-cases (new.connect_seq == new.seq)) [
        | inl start ↦ rw (update, newer, idle, start) refl
        | inr quiet ↦ rw (update, newer, idle, quiet) refl
      ]
    ]
  ]

  -- What a tick sends, to clients that were sent what is stored.
  abbrev pub Sends :
      StreamOutputIndication → Option StreamOutputIndication × StreamOutput R N signals → Type 0
  Sends shown out =
      IsShown (show shown out) × ((i : StreamOutputIndication) → out.0 ≡ some i → i ≢ shown)

  tick-Sends :
      (w : Watched R N signals) (t : ℕ) (inputs : List (InputRef signals)) (attempt : TryRecv N)
      (result : TrySend) (out : Option StreamOutputIndication × StreamOutput R N signals)
      → IsStored w
      → run_tick w.output t inputs attempt result ≡ some out
      → Sends w.shown out × IsStored (show w.shown out)
  tick-Sends w t inputs attempt result out stored ran =
      let (msg, e) = ticked_lem w.output t inputs attempt result ran in
      let m : StreamOutput R N signals = record w.output {
        connection = next_connection w.output.connection msg attempt result;
      } in
      let (kept, same) = indicate-stored m in
      let (shown, new) = indicate-IsShown m in
      rw (e, stored) ((shown, new), shown ∙ (ap status_of same ∙ sym kept))

  Reach-IsStored : {u v : Watched R N signals} → IsStored u → Reach u v → IsStored v
  Reach-IsStored h here = h
  Reach-IsStored h (more r (changed w new)) =
      Reach-IsStored h r ∙ sym (update-indication w.output new)
  Reach-IsStored h (more r (ticked w t inputs attempt result out ran)) =
      (tick-Sends w t inputs attempt result out (Reach-IsStored h r) ran).1

  abbrev pub created : StreamOutputParams → Watched R N signals
  created params =
      let (m, indic) = create {R = R} {N = N} {signals = signals} params in
      record { output = m; shown = indic }

  -- From the creation of the module on, after any updates, whose indications the engine drops, and
  -- any ticks, whose indications it sends on: whatever the connection went through, a tick leaves
  -- the clients with the status of the connection as it is, and it sends them an indication only
  -- where that is another one than they were sent last.
  pub Reach-IsShown :
      (params : StreamOutputParams) {w : Watched R N signals} (t : ℕ)
      (inputs : List (InputRef signals)) (attempt : TryRecv N) (result : TrySend)
      (out : Option StreamOutputIndication × StreamOutput R N signals)
      → Reach (created params) w
      → run_tick w.output t inputs attempt result ≡ some out
      → Sends w.shown out
  unfolding create
  Reach-IsShown params {w} t inputs attempt result out r ran =
      (tick-Sends w t inputs attempt result out (Reach-IsStored refl r) ran).0

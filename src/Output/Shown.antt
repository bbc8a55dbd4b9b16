-- ===== src/Output/Shown.antt =====
-- What the clients of src/module/stream_output.rs were shown last, and one change of it.
use mathlib.Core.Option
use mixlab.Prelude.{
  ℕ, ◌≡◌, ◌≢◌, ◌⊎◌, ap, some_inj, refl, sym, ◌∙◌, true, List, Option, none, some, Bool-cases,
  Option-cases, arith, inl, inr,
}
use mixlab.Media.{Rational}
use mixlab.Engine.Io.{Signals, InputRef}
use mixlab.Output.{
  Network, StreamOutput, LiveOutputMsg, TryRecv, TrySend, status_of, indicate, run_tick, tick_msg,
  next_connection,
}
use mixlab.Output.Status.{StreamOutputIndication, same_status, same_error, same_indication}

same_indication_lem : (a b : StreamOutputIndication) → same_indication a b ≡ true → a ≡ b
unfolding same_indication same_status same_error
same_indication_lem a b h = grind arith

same_indication_refl : (a : StreamOutputIndication) → same_indication a a ≡ true
unfolding same_indication same_status same_error
same_indication_refl a = grind arith

abbrev pub displayed :
    Option StreamOutputIndication → StreamOutputIndication → StreamOutputIndication
displayed none shown = shown
displayed (some indic) shown = indic

-- The module, and the indication that the clients were sent last.
pub record Watched (R : Rational) (N : Network) (signals : Signals) : Type 0 where
  pub output : StreamOutput R N signals
  pub shown : StreamOutputIndication

module _ {R : Rational} {N : Network} {signals : Signals} where
  -- A tick's indication is sent on; the engine drops the one that `update` returns.
  abbrev pub show :
      StreamOutputIndication
      → Option StreamOutputIndication × StreamOutput R N signals
      → Watched R N signals
  show shown (indic, m) = record { output = m; shown = displayed indic shown }

  -- The clients see the connection as it is.
  abbrev pub IsShown : Watched R N signals → Type 0
  IsShown w = w.shown ≡ status_of w.output.connection

  indicate_cases :
      (m : StreamOutput R N signals)
      → ((indicate m ≡ (none, m)) × (m.indication ≡ status_of m.connection))
        ⊎ (indicate m
            ≡ (some (status_of m.connection), record m { indication = status_of m.connection }))
  unfolding indicate
  indicate_cases m = elim (Bool-cases (same_indication (status_of m.connection) m.indication)) [
    | inl e ↦
        inl (rw (indicate, e), sym (same_indication_lem (status_of m.connection) m.indication e))
    | inr e ↦ inr (rw (indicate, e))
  ]

  pub indicate-stored :
      (m : StreamOutput R N signals)
      → ((indicate m).1.indication ≡ status_of m.connection)
        × ((indicate m).1.connection ≡ m.connection)
  indicate-stored m = elim (indicate_cases m) [
    | inl (e, same) ↦ rw (e) (same, refl)
    | inr e ↦ rw (e) (refl, refl)
  ]

  -- When what is stored was shown, the status is shown, and sent only where it is another.
  pub indicate-IsShown :
      (m : StreamOutput R N signals)
      → IsShown (show m.indication (indicate m))
        × ((i : StreamOutputIndication) → (indicate m).0 ≡ some i → i ≢ m.indication)
  unfolding indicate
  indicate-IsShown m = elim (Bool-cases (same_indication (status_of m.connection) m.indication)) [
    | inl e ↦
        rw (indicate, e)
          (sym (same_indication_lem (status_of m.connection) m.indication e), λ i q. cc q)
    | inr e ↦
        rw (indicate, e)
          (
            refl,
            λ i q same.
                let equal : status_of m.connection ≡ m.indication = some_inj q ∙ same in
                cc (
                  e,
                  same_indication_refl m.indication,
                  ap (λ a. same_indication a m.indication) equal,
                ),
          )
  ]

  pub ticked_lem :
      (m : StreamOutput R N signals) (t : ℕ) (inputs : List (InputRef signals))
      (attempt : TryRecv N) (result : TrySend)
      {out : Option StreamOutputIndication × StreamOutput R N signals}
      → run_tick m t inputs attempt result ≡ some out
      → (msg : LiveOutputMsg R N signals) × (out
          ≡ indicate (record m { connection = next_connection m.connection msg attempt result }))
  unfolding run_tick
  ticked_lem m t inputs attempt result e = elim (Option-cases (tick_msg {R = R} {N = N} t inputs)) [
    | inl panics ↦ absurd (Option.none-ne-some _ (sym (rw (run_tick, panics) refl) ∙ e))
    | inr (msg, found) ↦ (msg, some_inj (sym e ∙ rw (run_tick, found) refl))
  ]

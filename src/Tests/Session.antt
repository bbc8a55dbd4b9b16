-- ===== src/Tests/Session.antt =====
-- A client that sends two messages, of which one comes back.
use mixlab.Prelude.{ℕ, ◌≡◌, ◌==◌, refl, false, [], ◌∷◌, none, some, arith}
use mixlab.Session.{Session, workspace_synced}
use mixlab.Session.Sequence.{sent, acked, run_events, run_events_lem}

abbrev unused : Session ℕ ℕ
unused = record { state = none; client = 0; server = none }

run_events_lem_example :
    (s' : Session ℕ ℕ) × (run_events (sent ∷ sent ∷ acked ∷ []) 0 unused ≡ some (s', false ∷ []))
    × (workspace_synced s' ≡ some (1 == 2))
run_events_lem_example =
    run_events_lem (sent ∷ sent ∷ acked ∷ []) 0 0 unused refl refl (omega arith)
      (omega arith, (omega arith, (omega arith, tt)))

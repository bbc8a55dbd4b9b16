-- ===== src/Session/Sequence.antt =====
-- The sequence numbers of frontend/src/session.rs: a client's messages and their way back.
use mixlab.Prelude.{
  lt→ltb, ℕ, ◌+◌, ◌^◌, ◌≡◌, ◌≤◌, ◌<◌, refl, Bool, List, [], ◌∷◌, Option, none, some, ◌==◌, arith,
}
use mixlab.Session.{
  Session, sync, last, workspace_synced, sync_seq, on_server_message, next_sequence,
}

-- A message is sent, or the server's mark for the oldest one that is under way comes back.
pub data Event : Type 0 where
  sent acked : Event

-- The numbers of the last message that came back and of the last that was sent.
abbrev pub counts : List Event → ℕ × ℕ → ℕ × ℕ
counts [] (k, n) = (k, n)
counts (sent ∷ es) (k, n) = counts es (k, n + 1)
counts (acked ∷ es) (k, n) = counts es (k + 1, n)

-- The server marks only what was sent, and the numbers are not used up.
abbrev pub InStep : List Event → ℕ × ℕ → Type 0
InStep [] (k, n) = Unit {0}
InStep (sent ∷ es) (k, n) = (n + 1 < 2 ^ 32) × InStep es (k, n + 1)
InStep (acked ∷ es) (k, n) = (k < n) × InStep es (k + 1, n)

-- For each mark, whether it is that of the last message sent.
abbrev pub all_back : List Event → ℕ × ℕ → List Bool
all_back [] (k, n) = []
all_back (sent ∷ es) (k, n) = all_back es (k, n + 1)
all_back (acked ∷ es) (k, n) = (k + 1 == n) ∷ all_back es (k + 1, n)

last_suc : (k : ℕ) → some (k + 1) ≡ last (k + 1)
last_suc k = ground arith

module _ {Params Indication : Type 0} where
  -- The events in turn, with what each mark says of rendering.
  unfoldable pub run_events :
      List Event → ℕ → Session Params Indication → Option (Session Params Indication × List Bool)
  run_events [] k s = some (s, [])
  run_events (sent ∷ es) k s = elim (next_sequence s) [
    | none ↦ none
    | some (_, s') ↦ run_events es k s'
  ]
  run_events (acked ∷ es) k s = elim (on_server_message (sync (k + 1)) s) [
    | none ↦ none
    | some (s', render) ↦ elim (run_events es (k + 1) s') [
      | none ↦ none
      | some (end, renders) ↦ some (end, render ∷ renders)
    ]
  ]

  synced_lem :
      (k n : ℕ) (s : Session Params Indication)
      → k ≤ n
      → s.server ≡ last k
      → s.client ≡ n
      → workspace_synced s ≡ some (k == n)
  unfolding workspace_synced
  synced_lem k n s h e c = rw (workspace_synced, e, c) (ground arith)

  sync_lem :
      (k : ℕ) (s : Session Params Indication)
      → s.server ≡ last k
      → sync_seq (k + 1) s ≡ some (record s { server = some (k + 1) })
  unfolding sync_seq
  sync_lem k s e = rw (sync_seq, e) (ground arith)

  next_lem :
      (n : ℕ) (s : Session Params Indication)
      → s.client ≡ n
      → n + 1 < 2 ^ 32
      → next_sequence s ≡ some (s.client + 1, record s { client = s.client + 1 })
  unfolding next_sequence
  next_lem n s c h = rw (next_sequence, lt→ltb (s.client + 1) (2 ^ 32) (omega arith))

  acked_lem :
      (k n : ℕ) (s : Session Params Indication)
      → s.server ≡ last k
      → s.client ≡ n
      → k < n
      → on_server_message (sync (k + 1)) s ≡ some (record s { server = some (k + 1) }, k + 1 == n)
  unfolding on_server_message
  acked_lem k n s e c h = rw (
    on_server_message,
    sync_lem k s e,
    synced_lem (k + 1) n (record s { server = some (k + 1) }) (omega arith) (last_suc k) c,
  )

  -- A client that sends messages while the server's marks for them come back one by one, in order,
  -- never panics over a desync. Its views are told to render at exactly those marks at which all the
  -- messages sent so far have come back, and at the end it takes itself for synchronized exactly when
  -- all have.
  pub run_events_lem :
      (es : List Event) (k n : ℕ) (s : Session Params Indication)
      → s.server ≡ last k
      → s.client ≡ n
      → k ≤ n
      → InStep es (k, n)
      → (s' : Session Params Indication) × (run_events es k s ≡ some (s', all_back es (k, n)))
        × (workspace_synced s' ≡ some ((counts es (k, n)).0 == (counts es (k, n)).1))
  unfolding run_events
  run_events_lem [] k n s e c h steps = (s, refl, synced_lem k n s h e c)
  run_events_lem (sent ∷ es) k n s e c h steps =
      let next : Session Params Indication = record s { client = s.client + 1 } in
      let (s', run, done) =
        run_events_lem es k (n + 1) next e (omega arith) (omega arith) steps.1 in
      (s', rw (run_events, next_lem n s c steps.0) run, done)
  run_events_lem (acked ∷ es) k n s e c h steps =
      let after : Session Params Indication = record s { server = some (k + 1) } in
      let (s', run, done) =
        run_events_lem es (k + 1) n after (last_suc k) c (omega arith) steps.1 in
      (s', rw (run_events, acked_lem k n s e c steps.0, run) refl, done)

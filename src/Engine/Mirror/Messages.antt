-- ===== src/Engine/Mirror/Messages.antt =====
-- The copy that a client gets when it connects, and what any sequence of messages does to it.
use mathlib.Core.List.{append_assoc, append-nil}
use mixlab.Prelude.{
  ℕ, ◌≡◌, ap, subst, ◌∙◌, sym, inl, inr, List, [], ◌∷◌, ◌++◌, some, Option-cases, some_inj,
}
use mixlab.Prelude.Map.{IsMap, get-map_values, get-collect, IsMap-map_values}
use mixlab.Protocol.{module_key, input_key}
use mixlab.Session.{ClientState, from_protocol}
use mixlab.Engine.Host.{ModuleHost, HostLaws}
use mixlab.Engine.Timing.{EngineStat}
use mixlab.Engine.Workspace.{Workspace}
use mixlab.Engine.Update.{
  Engine, OpClock, sync_log, sync, WorkspaceMessage, apply_op, client_update, dump_state,
  run_messages,
}
use mixlab.Engine.Mirror.{Mirrors, Follows, replay, replay-append}
use mixlab.Engine.Mirror.Client.{apply_op-Follows}

module _ {host : ModuleHost} where
  open host use {Params, Indication, Module}

  -- The state that a client is sent when it connects is a copy of the workspace.
  pub dump_state-Mirrors :
      (w : Workspace host)
      → IsMap w.modules
      → IsMap w.geometry
      → IsMap w.indications
      → IsMap w.connections
      → Mirrors w (from_protocol (dump_state w))
  unfolding dump_state from_protocol
  dump_state-Mirrors w m g i n = record {
    modules = λ k. get-collect k _ (IsMap-map_values _ w.modules m) ∙ get-map_values _ k w.modules;
    inputs = λ k. get-collect k _ (IsMap-map_values _ w.modules m) ∙ get-map_values _ k w.modules;
    outputs = λ k. get-collect k _ (IsMap-map_values _ w.modules m) ∙ get-map_values _ k w.modules;
    connections = λ k. get-collect k w.connections n;
    geometry = λ k _ _. get-collect k w.geometry g;
    indications = λ k _ _. get-collect k w.indications i;
  }

  Follows-sync :
      (clock : OpClock) (e e' : Engine host) (c : ClientState Params Indication)
      → Follows e e' c
      → Follows e (sync_log clock e') c
  unfolding replay
  Follows-sync clock e e' c f = record {
    news = f.news ++ sync clock ∷ [];
    logged = ap (λ l. l ++ sync clock ∷ []) f.logged ∙ append_assoc e.log f.news (sync clock ∷ []);
    mirrors = rw (replay-append f.news (sync clock ∷ []) c) f.mirrors;
  }

  Follows-trans :
      (e t u : Engine host) (c : ClientState Params Indication) (f : Follows e t c)
      → Follows t u (replay f.news c)
      → Follows e u c
  Follows-trans e t u c f g = record {
    news = f.news ++ g.news;
    logged = g.logged ∙ ap (λ l. l ++ g.news) f.logged ∙ append_assoc e.log f.news g.news;
    mirrors = rw (replay-append f.news g.news c) g.mirrors;
  }

  client_update-Follows :
      HostLaws host
      → (session : ℕ) (msg : WorkspaceMessage host) (s s' : Engine host × EngineStat)
        (c : ClientState Params Indication)
      → Mirrors s.0.workspace c
      → client_update session msg s ≡ some s'
      → Follows s.0 s'.0 c
  unfolding client_update
  client_update-Follows laws session msg s s' c v h = elim (Option-cases (apply_op msg.op s.0)) [
    | inl fault ↦ cc (h, fault)
    | inr (e', done) ↦
        subst (λ x. Follows s.0 x.0 c) (some_inj (rw (done, client_update) at h))
          (Follows-sync _ s.0 e' c (apply_op-Follows laws s.0 c v msg.op e' done))
  ]

  pub run_messages-Follows :
      HostLaws host
      → (msgs : List (ℕ × WorkspaceMessage host)) (s s' : Engine host × EngineStat)
        (c : ClientState Params Indication)
      → Mirrors s.0.workspace c
      → run_messages msgs s ≡ some s'
      → Follows s.0 s'.0 c
  unfolding run_messages replay
  run_messages-Follows laws [] s s' c v h =
      subst (λ x. Follows s.0 x.0 c) (some_inj h)
        (record { news = []; logged = sym (append-nil s.0.log); mirrors = v })
  run_messages-Follows laws ((session, msg) ∷ rest) s s' c v h =
      elim (Option-cases (client_update session msg s)) [
        | inl fault ↦ cc (h, fault)
        | inr (t, done) ↦
            let first = client_update-Follows laws session msg s t c v done in
            Follows-trans s.0 t.0 s'.0 c first (
              run_messages-Follows laws rest t s' (replay first.news c) first.mirrors
                (rw (done, run_messages) at h))
      ]

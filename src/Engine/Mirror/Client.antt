-- ===== src/Engine/Mirror/Client.antt =====
-- Each operation tells the clients what keeps their copies of the workspace.

use mathlib.Core.List.{append_assoc, append-nil, map-append}
use mixlab.Prelude.{
  ◌≡◌, refl, subst, ◌∙◌, sym, inl, inr, List, [], ◌∷◌, ◌++◌, map, Option, none, some, arith,
  Option-cases, some_inj,
}
use mixlab.Prelude.Map.{get, insert, remove, get-remove}
use mixlab.Protocol.{
  ModuleId, InputId, OutputId, WindowGeometry, ServerUpdate, WorkspaceOp, module_key, input_key,
  create_module, update_module_params, update_window_geometry, delete_module, create_connection,
  delete_connection,
}
use mixlab.Session.{ClientState}
use mixlab.Util.{next}
use mixlab.Engine.Host.{ModuleHost, HostLaws}
use mixlab.Engine.Workspace.{Workspace}
use mixlab.Engine.Workspace.Connect.{connect-cases}
use mixlab.Engine.Update.{
  Engine, EngineEvent, server_update, attached, remove_all, replaced, log_ops, log_op, write_back,
  deleted_module, create_module_op, update_params_op, update_geometry_op, delete_module_op,
  create_connection_op, delete_connection_op, apply_op,
}
use mixlab.Engine.Mirror.{Mirrors, Follows, replay, replay-append}
use mixlab.Engine.Mirror.Updates.{
  Mirrors-create, Mirrors-params, Mirrors-geometry, Mirrors-delete, Mirrors-connect,
  Mirrors-disconnect, Mirrors-reconnect,
}

module _ {host : ModuleHost} where
  open host use {Params, Indication, Module}

  abbrev news_of : List (ServerUpdate Params Indication) → List (EngineEvent host)
  news_of = map server_update

  log_ops_lem :
      (ops : List (ServerUpdate Params Indication)) (e : Engine host)
      → ((log_ops ops e).log ≡ e.log ++ news_of ops) × ((log_ops ops e).workspace ≡ e.workspace)
  log_ops_lem [] e = (sym (append-nil e.log), refl)
  log_ops_lem (op ∷ ops) e =
      let (l, w) = log_ops_lem ops (log_op op e) in
      (l ∙ append_assoc e.log (server_update op ∷ []) (news_of ops), w)

  -- After a write and its news.
  Follows-news :
      (ops : List (ServerUpdate Params Indication)) (w : Workspace host) (e : Engine host)
      (c : ClientState Params Indication)
      → Mirrors w (replay (news_of ops) c)
      → Follows e (log_ops ops (write_back w e)) c
  Follows-news ops w e c v = record {
    news = news_of ops;
    logged = (log_ops_lem ops (write_back w e)).0;
    mirrors =
        subst (λ x. Mirrors x (replay (news_of ops) c)) (sym (log_ops_lem ops (write_back w e)).1)
          v;
  }

  Mirrors-disconnects :
      (is : List InputId) (w : Workspace host) (c : ClientState Params Indication)
      → Mirrors w c
      → Mirrors
          (record w { connections = remove_all is w.connections })
          (replay (news_of (map ServerUpdate.delete_connection is)) c)
  unfolding replay remove_all
  Mirrors-disconnects [] w c v = v
  Mirrors-disconnects (i ∷ is) w c v = Mirrors-disconnects is _ _ (Mirrors-disconnect w c v i)

  -- Deleting a module that is not there changes nothing.
  Mirrors-absent :
      (id : ModuleId) (w : Workspace host) (c : ClientState Params Indication)
      → Mirrors w c
      → get id w.modules ≡ none
      → Mirrors (record w { modules = remove id w.modules }) c
  Mirrors-absent id w c v h = record {
    modules = λ k. ground (arith, get-remove id k w.modules, v.modules k);
    inputs = λ k. ground (arith, get-remove id k w.modules, v.inputs k);
    outputs = λ k. ground (arith, get-remove id k w.modules, v.outputs k);
    connections = v.connections;
    geometry = λ k m e. ground (arith, get-remove id k w.modules, v.geometry k m);
    indications = λ k m e. ground (arith, get-remove id k w.modules, v.indications k m);
  }

  -- So does freeing an input that is free.
  Mirrors-free :
      (i : InputId) (w : Workspace host) (c : ClientState Params Indication)
      → Mirrors w c
      → get i w.connections ≡ none
      → Mirrors (record w { connections = remove i w.connections }) c
  Mirrors-free i w c v h = record {
    modules = v.modules;
    inputs = v.inputs;
    outputs = v.outputs;
    connections = λ j. ground (arith, get-remove i j w.connections, v.connections j);
    geometry = v.geometry;
    indications = v.indications;
  }

  Mirrors-deleted :
      (id : ModuleId) (w : Workspace host) (c : ClientState Params Indication) (o : Option Module)
      → Mirrors w c
      → get id w.modules ≡ o
      → Mirrors
          (record w { modules = remove id w.modules })
          (replay (news_of (deleted_module id o)) c)
  unfolding replay
  Mirrors-deleted id w c none v gone = Mirrors-absent id w c v gone
  Mirrors-deleted id w c (some m) v found = Mirrors-delete w c v id

  module _ (laws : HostLaws host) (e : Engine host) (c : ClientState Params Indication)
      (v : Mirrors e.workspace c) where
    create-Follows :
        (p : Params) (g : WindowGeometry) (e' : Engine host)
        → create_module_op p g e ≡ some e'
        → Follows e e' c
    unfolding create_module_op replay
    create-Follows p g e' h = elim (Option-cases (next e.workspace.module_seq)) [
      | inl full ↦ cc (h, full)
      | inr (id, room) ↦
          subst (λ x. Follows e x c) (some_inj (rw (room, create_module_op) at h))
            (Follows-news (_ ∷ []) _ e c (
              Mirrors-create e.workspace c v id (host.create p).0 p g (host.create p).1
                (laws.created p)))
    ]

    update-Follows :
        (id : ModuleId) (p : Params) (e' : Engine host)
        → update_params_op id p e ≡ some e'
        → Follows e e' c
    unfolding update_params_op replay
    update-Follows id p e' h = elim (Option-cases (get id e.workspace.modules)) [
      | inl gone ↦
          subst (λ x. Follows e x c) (some_inj (rw (gone, update_params_op) at h))
            (Follows-news [] e.workspace e c v)
      | inr (m, found) ↦ elim (Option-cases (host.update m p)) [
        | inl fault ↦ cc (h, found, fault)
        | inr ((m', i), done) ↦
            subst (λ x. Follows e x c) (some_inj (rw (found, done, update_params_op) at h))
              (Follows-news (_ ∷ []) _ e c (
                Mirrors-params e.workspace c v id m m' found (laws.kept m p m' i done).0
                  (laws.kept m p m' i done).1))
      ]
    ]

    geometry-Follows :
        (id : ModuleId) (g : WindowGeometry) → Follows e (update_geometry_op id g e) c
    unfolding update_geometry_op replay
    geometry-Follows id g = elim (Option-cases (get id e.workspace.geometry)) [
      | inl gone ↦ rw (gone, update_geometry_op) (Follows-news [] e.workspace e c v)
      | inr (old, found) ↦
          rw (found, update_geometry_op)
            (Follows-news (_ ∷ []) _ e c (Mirrors-geometry e.workspace c v id g old found))
    ]

    delete-Follows : (id : ModuleId) → Follows e (delete_module_op id e) c
    unfolding delete_module_op
    delete-Follows id =
        Follows-news
          (map ServerUpdate.delete_connection gone
            ++ deleted_module id (get id e.workspace.modules))
          _ e c
          (rw (map-append, replay-append)
            (Mirrors-deleted id _ _ _ (Mirrors-disconnects gone e.workspace c v) refl))
      where
        gone : List InputId
        gone = attached id e.workspace.connections

    linked :
        (i : InputId) (o : OutputId)
        → Follows e
            (log_op (ServerUpdate.create_connection i o) (
              log_ops (replaced i (get i e.workspace.connections)) (
                write_back
                  (record e.workspace { connections = insert i o e.workspace.connections })
                  e)))
            c
    unfolding replay
    linked i o = elim (Option-cases (get i e.workspace.connections)) [
      | inl free ↦ rw free (Follows-news (_ ∷ []) _ e c (Mirrors-connect e.workspace c v i o))
      | inr (old, used) ↦
          rw used (Follows-news (_ ∷ _ ∷ []) _ e c (Mirrors-reconnect e.workspace c v i o))
    ]

    connect-Follows : (i : InputId) (o : OutputId) → Follows e (create_connection_op i o e) c
    unfolding create_connection_op replay
    connect-Follows i o = elim (connect-cases e.workspace i o) [
      | inl (t, _, _, done) ↦ rw (done, create_connection_op) (linked i o)
      | inr (x, refused) ↦ rw (refused, create_connection_op) (Follows-news [] e.workspace e c v)
    ]

    disconnect-Follows : (i : InputId) → Follows e (delete_connection_op i e) c
    unfolding delete_connection_op replay
    disconnect-Follows i = elim (Option-cases (get i e.workspace.connections)) [
      | inl free ↦
          rw (free, delete_connection_op)
            (Follows-news [] _ e c (Mirrors-free i e.workspace c v free))
      | inr (o, used) ↦
          rw (used, delete_connection_op)
            (Follows-news (_ ∷ []) _ e c (Mirrors-disconnect e.workspace c v i))
    ]

    pub apply_op-Follows :
        (op : WorkspaceOp Params Indication) (e' : Engine host)
        → apply_op op e ≡ some e'
        → Follows e e' c
    unfolding apply_op
    apply_op-Follows (create_module p g) e' h = create-Follows p g e' h
    apply_op-Follows (update_module_params id p) e' h = update-Follows id p e' h
    apply_op-Follows (update_window_geometry id g) e' h =
        subst (λ x. Follows e x c) (some_inj h) (geometry-Follows id g)
    apply_op-Follows (delete_module id) e' h =
        subst (λ x. Follows e x c) (some_inj h) (delete-Follows id)
    apply_op-Follows (create_connection i o) e' h =
        subst (λ x. Follows e x c) (some_inj h) (connect-Follows i o)
    apply_op-Follows (delete_connection i) e' h =
        subst (λ x. Follows e x c) (some_inj h) (disconnect-Follows i)

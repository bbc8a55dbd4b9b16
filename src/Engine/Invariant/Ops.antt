-- ===== src/Engine/Invariant/Ops.antt =====
-- The messages of the clients keep the workspace valid, and the saved form of it current.
use mixlab.Prelude.{
  ℕ, ◌≡◌, refl, subst, inl, inr, List, [], ◌∷◌, ◌++◌, map, Option, none, some, Option-cases,
  some_inj,
}
use mixlab.Prelude.Map.{get, insert}
use mixlab.Protocol.{
  ModuleId, InputId, OutputId, WindowGeometry, ServerUpdate, WorkspaceOp, module_key, input_key,
  create_module, update_module_params, update_window_geometry, delete_module, create_connection,
  delete_connection,
}
use mixlab.Util.{next}
use mixlab.Engine.Host.{ModuleHost, HostLaws}
use mixlab.Engine.Timing.{EngineStat}
use mixlab.Engine.Workspace.{Workspace, disconnect, to_persist}
use mixlab.Engine.Workspace.Connect.{connect-cases}
use mixlab.Engine.Update.{
  Engine, WorkspaceMessage, attached, replaced, log_ops, log_op, write_back, deleted_module,
  create_module_op, update_params_op, update_geometry_op, delete_module_op, create_connection_op,
  delete_connection_op, apply_op, client_update, run_messages,
}
use mixlab.Engine.Invariant.{IsTyped, IsValid}
use mixlab.Engine.Invariant.Changes.{
  IsValid-create, IsValid-update, IsValid-delete, IsValid-geometry, IsValid-connect,
  IsValid-disconnect,
}

-- The engine between two messages: the workspace is valid, and what was saved last is its present state.
pub record IsSound {host : ModuleHost} (e : Engine host) : Type 0 where
  pub valid : IsValid e.workspace
  pub saved : e.persisted ≡ to_persist e.workspace

module _ {host : ModuleHost} where
  open host use {Module, Params, Indication}

  -- A write with its news.
  IsSound-write :
      (ops : List (ServerUpdate Params Indication)) (w : Workspace host) (e : Engine host)
      → IsValid w
      → IsSound (log_ops ops (write_back w e))
  IsSound-write ops w e v = logged ops (write_back w e) (record { valid = v; saved = refl })
    where
      logged :
          (ops : List (ServerUpdate Params Indication)) (e : Engine host)
          → IsSound e
          → IsSound (log_ops ops e)
      logged [] e s = s
      logged (op ∷ ops) e s = logged ops (log_op op e) (record { valid = s.valid; saved = s.saved })

  module _ (laws : HostLaws host) (e : Engine host) (s : IsSound e) where
    create-IsSound :
        (p : Params) (g : WindowGeometry) (e' : Engine host)
        → create_module_op p g e ≡ some e'
        → IsSound e'
    unfolding create_module_op
    create-IsSound p g e' h = elim (Option-cases (next e.workspace.module_seq)) [
      | inl full ↦ cc (h, full)
      | inr (id, room) ↦ subst IsSound (some_inj (rw (room, create_module_op) at h)) (
          IsSound-write (_ ∷ []) _ e
            (IsValid-create e.workspace (host.create p).0 g (host.create p).1 id s.valid room))
    ]

    update-IsSound :
        (id : ModuleId) (p : Params) (e' : Engine host)
        → update_params_op id p e ≡ some e'
        → IsSound e'
    unfolding update_params_op
    update-IsSound id p e' h = elim (Option-cases (get id e.workspace.modules)) [
      | inl gone ↦
          subst IsSound (some_inj (rw (gone, update_params_op) at h))
            (IsSound-write [] e.workspace e s.valid)
      | inr (m, found) ↦ elim (Option-cases (host.update m p)) [
        | inl fault ↦ cc (h, found, fault)
        | inr ((m', i), done) ↦ subst IsSound (some_inj (rw (found, done, update_params_op) at h)) (
            IsSound-write (_ ∷ []) _ e
              (IsValid-update e.workspace m m' id s.valid found (laws.kept m p m' i done)))
      ]
    ]

    geometry-IsSound : (id : ModuleId) (g : WindowGeometry) → IsSound (update_geometry_op id g e)
    unfolding update_geometry_op
    geometry-IsSound id g = elim (Option-cases (get id e.workspace.geometry)) [
      | inl gone ↦ rw (gone, update_geometry_op) (IsSound-write [] e.workspace e s.valid)
      | inr (old, found) ↦
          rw (found, update_geometry_op)
            (IsSound-write (_ ∷ []) _ e (IsValid-geometry e.workspace id g s.valid))
    ]

    linked :
        (i : InputId) (o : OutputId) (old : Option OutputId)
        → IsTyped e.workspace i o
        → IsSound (
            log_op (ServerUpdate.create_connection i o) (
              log_ops (replaced i old) (
                write_back
                  (record e.workspace { connections = insert i o e.workspace.connections })
                  e)))
    linked i o none t = IsSound-write (_ ∷ []) _ e (IsValid-connect e.workspace i o s.valid t)
    linked i o (some _) t =
        IsSound-write (_ ∷ _ ∷ []) _ e (IsValid-connect e.workspace i o s.valid t)

    connect-IsSound : (i : InputId) (o : OutputId) → IsSound (create_connection_op i o e)
    unfolding create_connection_op
    connect-IsSound i o = elim (connect-cases e.workspace i o) [
      | inl (t, hi, ho, done) ↦ rw (done, create_connection_op) (linked i o _ (t, hi, ho))
      | inr (x, refused) ↦
          rw (refused, create_connection_op) (IsSound-write [] e.workspace e s.valid)
    ]

    pub apply_op-IsSound :
        (op : WorkspaceOp Params Indication) (e' : Engine host)
        → apply_op op e ≡ some e'
        → IsSound e'
    unfolding apply_op delete_connection_op delete_module_op disconnect
    apply_op-IsSound (create_module p g) e' h = create-IsSound p g e' h
    apply_op-IsSound (update_module_params id p) e' h = update-IsSound id p e' h
    apply_op-IsSound (update_window_geometry id g) e' h =
        subst IsSound (some_inj h) (geometry-IsSound id g)
    apply_op-IsSound (delete_module id) e' h = subst IsSound (some_inj h) (
        IsSound-write
          (map ServerUpdate.delete_connection (attached id e.workspace.connections)
            ++ deleted_module id (get id e.workspace.modules))
          _ e (IsValid-delete e.workspace id s.valid))
    apply_op-IsSound (create_connection i o) e' h = subst IsSound (some_inj h) (connect-IsSound i o)
    apply_op-IsSound (delete_connection i) e' h = subst IsSound (some_inj h) (
        IsSound-write (replaced i (get i e.workspace.connections)) _ e
          (IsValid-disconnect e.workspace i s.valid))

  -- With modules that obey the laws, a sound engine is sound after any sequence of messages that it
  -- survives: each connection joins terminals that exist and carry one kind of line, each module has
  -- an identifier that the counter has given out, no key of a map has two entries, and the saved
  -- workspace is that of the present state.
  pub run_messages-IsSound :
      HostLaws host
      → (msgs : List (ℕ × WorkspaceMessage host)) (s s' : Engine host × EngineStat) → IsSound s.0
      → run_messages msgs s ≡ some s'
      → IsSound s'.0
  unfolding run_messages client_update
  run_messages-IsSound laws [] s s' v h = subst (λ x. IsSound x.0) (some_inj h) v
  run_messages-IsSound laws ((session, msg) ∷ rest) s s' v h =
      elim (Option-cases (apply_op msg.op s.0)) [
        | inl fault ↦ cc (h, fault)
        | inr (e', done) ↦
            let sound = apply_op-IsSound laws s.0 v msg.op e' done in
            run_messages-IsSound laws rest _ s'
              (record { valid = sound.valid; saved = sound.saved })
              (rw (done, client_update, run_messages) at h)
      ]

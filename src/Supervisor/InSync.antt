-- ===== src/Supervisor/InSync.antt =====
-- server/supervisor.rs: after a reload that reports success, the pool of connections and the listener
-- are those of the configuration, and connections are accepted.
use muscl.Prelude.{
  ◌≡◌, refl, ap, sym, ◌∙◌, Bool-cases, Option, List, [], ◌∷◌, ◌++◌, Result, ok, Result-cases, inl,
  inr,
}
use mathlib.Core.Path.{subst}
use muscl.Prelude.Text.{Text}
use muscl.Server.Connection.{◌>>=◌, lift}
use muscl.Server.Config.{MysqlConfig, ServerConfig, option_eq, mysql_eq}
use muscl.Supervisor.{
  accepting, System, Supervisor, reload_config, restart_db_connection_pool, reload_listener,
  replace_listener, send, take_message, pool_step, listener_step, apply_changes, reload,
  reload_from, finish, report, new_listener,
}
use muscl.Supervisor.Sync.{
  option_eq_iff, mysql_eq_sound, bind-ok, reload_config-keeps, reload_config-config,
}

module _ {P L : Type 0} (made_for : P → MysqlConfig) (bound_to : L → Option Text) where
  -- The pool is connected as the configuration says, the listener is bound where it says, and the
  -- listener's task accepts connections.
  abbrev pub InSync : Supervisor P L → Type 0
  InSync s =
      (made_for s.db_connection_pool ≡ s.config.mysql)
      × (bound_to s.listener ≡ s.config.socket_path)
      × (s.listener_task ≡ accepting)

  -- A pool that is made is one for the configuration that it is made with, and a listener is bound
  -- to the path that it is made for.
  pub record Follows (system : System P L) : Type 0 where
    pub connects : (c : MysqlConfig) (p : P) → system.connect c ≡ ok p → made_for p ≡ c
    pub binds : (path : Option Text) (l : L) → new_listener system path ≡ ok l → bound_to l ≡ path

module _ {P L : Type 0} (made_for : P → MysqlConfig) (bound_to : L → Option Text)
    (system : System P L) (follows : Follows made_for bound_to system) where
  pool_step-keeps :
      (previous : ServerConfig) (s : Supervisor P L)
      → let t = (pool_step system previous s).1 in
        (t.config ≡ s.config) × (t.listener ≡ s.listener) × (t.listener_task ≡ s.listener_task)
  unfolding pool_step restart_db_connection_pool
  pool_step-keeps previous s = elim (Bool-cases (mysql_eq s.config.mysql previous.mysql)) [
    | inl same ↦ rw (same, pool_step) (refl, refl, refl)
    | inr changed ↦ elim (Result-cases (system.connect s.config.mysql)) [
      | inr (x, e) ↦ rw (changed, pool_step) (rw e (refl, refl, refl))
      | inl (p, e) ↦ elim (Result-cases (system.version p)) [
        | inr (x, v) ↦ rw (changed, pool_step) (rw (e, v) (refl, refl, refl))
        | inl (version, v) ↦ rw (changed, pool_step) (rw (e, v) (refl, refl, refl))
      ]
    ]
  ]

  pool_step-ok :
      (previous : ServerConfig) (s : Supervisor P L)
      → made_for s.db_connection_pool ≡ previous.mysql
      → (pool_step system previous s).0 ≡ ok []
      → made_for (Supervisor.db_connection_pool (pool_step system previous s).1) ≡ s.config.mysql
  unfolding pool_step restart_db_connection_pool
  pool_step-ok previous s h k = elim (Bool-cases (mysql_eq s.config.mysql previous.mysql)) [
    | inl same ↦ rw (same, pool_step) (h ∙ sym (mysql_eq_sound s.config.mysql previous.mysql same))
    | inr changed ↦ elim (Result-cases (system.connect s.config.mysql)) [
      | inr (x, e) ↦ absurd (let k1 = rw changed at k in let k2 = rw e at k1 in cc)
      | inl (p, e) ↦ elim (Result-cases (system.version p)) [
        | inr (x, v) ↦ absurd (let k1 = rw changed at k in let k2 = rw (e, v) at k1 in cc)
        | inl (version, v) ↦
            rw (changed, pool_step) (rw (e, v) (follows.connects s.config.mysql p e))
      ]
    ]
  ]

  listener_step-ok :
      (previous : ServerConfig) (errors : List Text) (s : Supervisor P L)
      → bound_to s.listener ≡ previous.socket_path
      → s.listener_task ≡ accepting
      → (listener_step system previous errors s).0 ≡ ok []
      → let t = (listener_step system previous errors s).1 in
        (bound_to t.listener ≡ s.config.socket_path)
        × (t.listener_task ≡ accepting)
        × (t.config ≡ s.config)
        × (t.db_connection_pool ≡ s.db_connection_pool)
        × (errors ≡ [])
  unfolding listener_step replace_listener send take_message reload_listener
  listener_step-ok previous errors s h task k =
      elim (Bool-cases (option_eq s.config.socket_path previous.socket_path)) [
        | inl same ↦
            rw (same, listener_step)
              (
                h ∙ sym ((option_eq_iff s.config.socket_path previous.socket_path).0 same),
                task,
                refl,
                refl,
                no_errors errors (rw same at k),
              )
        | inr changed ↦ elim (Result-cases (new_listener system s.config.socket_path)) [
          | inr (x, e) ↦ absurd (
              let k1 = rw (task, send) at rw changed at k in
              let k2 = rw e at k1 in pushed errors _ k2)
          | inl (l, e) ↦
              let k1 = rw (task, send) at rw changed at k in
              let k2 = rw e at k1 in
              rw (changed, listener_step)
                (rw (task, send)
                  (rw e (
                    follows.binds s.config.socket_path l e,
                    refl,
                    refl,
                    refl,
                    no_errors errors k2,
                  )))
        ]
      ]
    where
      no_errors :
          (errors : List Text) → ◌≡◌ {A = Result Text (List Text)} (ok errors) (ok []) → errors ≡ []
      no_errors [] e = refl
      no_errors (x ∷ errors) e = absurd (cc)

      pushed :
          (errors : List Text) (x : Text)
          → ◌≡◌ {A = Result Text (List Text)} (ok (errors ++ x ∷ [])) (ok [])
          → ⊥
      pushed [] x e = cc
      pushed (y ∷ errors) x e = cc

  apply_changes-ok :
      (previous : ServerConfig) (s : Supervisor P L)
      → made_for s.db_connection_pool ≡ previous.mysql
      → bound_to s.listener ≡ previous.socket_path
      → s.listener_task ≡ accepting
      → (apply_changes system previous s).0 ≡ ok []
      → InSync made_for bound_to (apply_changes system previous s).1
        × (Supervisor.config (apply_changes system previous s).1 ≡ s.config)
  unfolding apply_changes
  apply_changes-ok previous s pool bound task k =
      let (errors, (e, r)) =
        bind-ok (pool_step system previous) (listener_step system previous) s [] k in
      let t = (pool_step system previous s).1 in
      let (config, listener, task_kept) = pool_step-keeps previous s in
      let last : (listener_step system previous errors t).0 ≡ ok [] = sym (ap (λ x. x.0) r) ∙ k in
      let (new_bound, new_task, new_config, new_pool, no_errors) =
        listener_step-ok previous errors t (ap bound_to listener ∙ bound) (task_kept ∙ task) last in
      let pooled = pool_step-ok previous s pool (e ∙ ap (λ v. ok v) no_errors) in
      let f = (listener_step system previous errors t).1 in
      let sync : InSync made_for bound_to f × (Supervisor.config f ≡ s.config) = (
        (
          ap made_for new_pool
              ∙ pooled
              ∙ sym (ap (λ c. ServerConfig.mysql c) (new_config ∙ config)),
          new_bound ∙ sym (ap (λ c. ServerConfig.socket_path c) new_config),
          new_task,
        ),
        new_config ∙ config,
      ) in
      subst (λ v. InSync made_for bound_to v × (Supervisor.config v ≡ s.config))
        (sym (ap (λ x. x.1) r)) sync

  report-ok :
      (errors : List Text) (s : Supervisor P L) → (report system errors s).0 ≡ ok tt → errors ≡ []
  report-ok [] s h = refl
  report-ok (e ∷ errors) s h = absurd (cc)

  report-keeps : (errors : List Text) (s : Supervisor P L) → (report system errors s).1 ≡ s
  report-keeps [] s = refl
  report-keeps (e ∷ errors) s = refl

  config_of_reload :
      (s : Supervisor P L)
      → (reload_config system s).0 ≡ ok tt
      → system.read_config ≡ ok (Supervisor.config (reload_config system s).1)
  unfolding reload_config
  config_of_reload s h = elim (Result-cases system.read_config) [
    | inl (new_config, e) ↦ e ∙ ap (λ c. ok c) (sym (reload_config-config system s new_config e))
    | inr (x, e) ↦ absurd (let failed = rw e at h in cc)
  ]

  reload_from-InSync :
      (s : Supervisor P L)
      → InSync made_for bound_to s
      → (reload_from system s.config s).0 ≡ ok tt
      → InSync made_for bound_to (reload_from system s.config s).1
        × (system.read_config ≡ ok (Supervisor.config (reload_from system s.config s).1))
  reload_from-InSync s (pool, bound, task) h =
      let changes = apply_changes system s.config >>= λ errors. finish system errors in
      let (u, (configured, r)) = bind-ok (reload_config system) (λ _. changes) s tt h in
      let t = (reload_config system s).1 in
      let h1 : (changes t).0 ≡ ok tt = sym (ap (λ x. x.0) r) ∙ h in
      let (errors, (applied, r1)) =
        bind-ok (apply_changes system s.config) (λ errors. finish system errors) t tt h1 in
      let v = (apply_changes system s.config t).1 in
      let h2 : (finish system errors v).0 ≡ ok tt = sym (ap (λ x. x.0) r1) ∙ h1 in
      let (u2, (ready, r2)) =
        bind-ok (lift system.notify_ready) (λ _. report system errors) v tt h2 in
      let h3 : (report system errors v).0 ≡ ok tt = sym (ap (λ x. x.0) r2) ∙ h2 in
      let kept = reload_config-keeps system s in
      let (sync, config) =
        apply_changes-ok s.config t (ap made_for (ap (λ x. x.0) kept) ∙ pool)
          (ap bound_to (ap (λ x. x.1.0) kept) ∙ bound) (ap (λ x. x.1.1) kept ∙ task)
          (applied ∙ ap (λ x. ok x) (report-ok errors v h3)) in
      let same = ap (λ x. x.1) r ∙ ap (λ x. x.1) r1 ∙ ap (λ x. x.1) r2 ∙ report-keeps errors v in
      subst (λ w. InSync made_for bound_to w × (system.read_config ≡ ok (Supervisor.config w)))
        (sym same) (sync, config_of_reload s configured ∙ ap (λ c. ok c) (sym config))

  -- A reload that reports success, from a state in sync, leaves one in sync with the configuration
  -- that it has read.
  pub reload-InSync :
      (s : Supervisor P L)
      → InSync made_for bound_to s
      → (reload system s).0 ≡ ok tt
      → InSync made_for bound_to (reload system s).1
        × (system.read_config ≡ ok (Supervisor.config (reload system s).1))
  unfolding reload
  reload-InSync s sync h =
      let (u, (ready, r)) =
        bind-ok (lift system.notify_reloading)
          (λ _. λ v. reload_from system (Supervisor.config v) v) s tt h in
      subst
        (λ (x : Result Text (Unit {0}) × Supervisor P L).
          InSync made_for bound_to x.1 × (system.read_config ≡ ok (Supervisor.config x.1)))
        (sym r) (reload_from-InSync s sync (sym (ap (λ x. x.0) r) ∙ h))

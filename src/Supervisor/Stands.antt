-- ===== src/Supervisor/Stands.antt =====
-- server/supervisor.rs: a reload that reads the socket path of the configuration leaves the
-- listener's task where it is.
use muscl.Prelude.{
  ◌≡◌, refl, ap, sym, ◌∙◌, Bool-cases, All, Option, List, [], ◌∷◌, ok, Result-cases, inl, inr,
}
use muscl.Prelude.Text.{Text}
use muscl.Server.Connection.{Action, ◌>>=◌, lift}
use muscl.Server.Config.{ServerConfig, mysql_eq}
use muscl.Supervisor.{
  Phase, System, Supervisor, reload_config, restart_db_connection_pool, pool_step, listener_step,
  apply_changes, reload, reload_from, finish, report,
}
use muscl.Supervisor.Sync.{option_eq_iff, reload_config-keeps, reload_config-config}

module _ {P L : Type 0} (system : System P L) where
  -- The pool is replaced or not; the path and the listener's task stay.
  abbrev kept : Supervisor P L → ServerConfig × Phase
  kept s = (s.config, s.listener_task)

  restart-kept : (s : Supervisor P L) → kept (restart_db_connection_pool system s).1 ≡ kept s
  unfolding restart_db_connection_pool
  restart-kept s = elim (Result-cases (system.connect s.config.mysql)) [
    | inr (x, e) ↦ rw e refl
    | inl (p, e) ↦ elim (Result-cases (system.version p)) [
      | inr (x, v) ↦ rw (e, v) refl
      | inl (version, v) ↦ rw (e, v) refl
    ]
  ]

  pub pool_step-kept :
      (previous : ServerConfig) (s : Supervisor P L) → kept (pool_step system previous s).1 ≡ kept s
  unfolding pool_step
  pool_step-kept previous s = elim (Bool-cases (mysql_eq s.config.mysql previous.mysql)) [
    | inl same ↦ rw (same, pool_step) refl
    | inr changed ↦ rw (changed, pool_step) (restart-kept s)
  ]

  -- Where the socket path that is read is the one before, the listener's task stays where it is.
  listener_step-same :
      (previous : ServerConfig) (errors : List Text) (s : Supervisor P L)
      → s.config.socket_path ≡ previous.socket_path
      → (listener_step system previous errors s).1 ≡ s
  unfolding listener_step
  listener_step-same previous errors s h =
      rw ((option_eq_iff s.config.socket_path previous.socket_path).1 h, listener_step) refl

-- What holds of the state after each of two actions, holds after both.
bind-holds :
    {S A B : Type 0} (Q : S → Type 0) (m : Action S Text A) (k : A → Action S Text B)
    → ((s : S) → Q s → Q (m s).1)
    → ((a : A) (s : S) → Q s → Q (k a s).1)
    → (s : S) → Q s
    → Q ((m >>= k) s).1
bind-holds Q m k h j s q = elim (Result-cases (m s).0) [
  | inl (a, e) ↦ rw e (j a (m s).1 (h s q))
  | inr (x, e) ↦ rw e (h s q)
]

-- If a configuration can be read, its socket path is this one.
abbrev pub ReadsPath : {P L : Type 0} → Option Text → System P L → Type 0
ReadsPath path system =
    (new_config : ServerConfig) → system.read_config ≡ ok new_config → new_config.socket_path ≡ path

-- The configuration has the socket path, and the listener's task is where it is.
abbrev pub StandsAt : {P L : Type 0} → Option Text → Phase → Supervisor P L → Type 0
StandsAt path phase s = (s.config.socket_path ≡ path) × (s.listener_task ≡ phase)

pub report-stands :
    {P L : Type 0} (system : System P L) (path : Option Text) (phase : Phase) (errors : List Text)
    (s : Supervisor P L)
    → StandsAt path phase s
    → StandsAt path phase (report system errors s).1
report-stands system path phase [] s h = h
report-stands system path phase (e ∷ errors) s h = h

module _ {P L : Type 0} (system : System P L) (path : Option Text) (phase : Phase)
    (reads : ReadsPath path system) where
  reload_config-stands :
      (s : Supervisor P L) → StandsAt path phase s → StandsAt path phase (reload_config system s).1
  unfolding reload_config
  reload_config-stands s (at_path, in_phase) =
      let kept_running = reload_config-keeps system s in
      let task = ap (λ x. x.1.1) kept_running ∙ in_phase in
      elim (Result-cases system.read_config) [
        | inl (new_config, e) ↦ (
          ap (λ c. ServerConfig.socket_path c) (reload_config-config system s new_config e)
              ∙ reads new_config e,
          task,
        )
        | inr (x, e) ↦ rw (e, reload_config) (at_path, in_phase)
      ]

  apply_changes-stands :
      (previous : ServerConfig) (s : Supervisor P L)
      → previous.socket_path ≡ path
      → StandsAt path phase s
      → StandsAt path phase (apply_changes system previous s).1
  unfolding apply_changes
  apply_changes-stands previous s h stands =
      bind-holds (StandsAt path phase) (pool_step system previous) (listener_step system previous)
        (λ v (at_path, in_phase).
          let same = pool_step-kept system previous v in
          (ap (λ x. ServerConfig.socket_path x.0) same ∙ at_path, ap (λ x. x.1) same ∙ in_phase))
        (λ errors v (at_path, in_phase).
          let same = listener_step-same system previous errors v (at_path ∙ sym h) in
          (
            ap (λ x. ServerConfig.socket_path (Supervisor.config x)) same ∙ at_path,
            ap (λ x. Supervisor.listener_task x) same ∙ in_phase,
          ))
        s stands

  reload-stands :
      (s : Supervisor P L) → StandsAt path phase s → StandsAt path phase (reload system s).1
  unfolding reload
  reload-stands s stands =
      bind-holds (StandsAt path phase) (lift system.notify_reloading)
        (λ _. λ v. reload_from system (Supervisor.config v) v) (λ v h. h)
        (λ _ v h.
          bind-holds (StandsAt path phase) (reload_config system)
            (λ _. apply_changes system v.config >>= λ errors. finish system errors)
            reload_config-stands
            (λ _ w k.
              bind-holds (StandsAt path phase) (apply_changes system v.config)
                (λ errors. finish system errors) (λ x j. apply_changes-stands v.config x h.0 j)
                (λ errors x j.
                  bind-holds (StandsAt path phase) (lift system.notify_ready)
                    (λ _. report system errors) (λ y i. i)
                    (λ _ y i. report-stands system path phase errors y i) x j)
                w k)
            v h)
        s stands

-- One reload after the other.
abbrev pub reload_all : {P L : Type 0} → List (System P L) → Supervisor P L → Supervisor P L
reload_all [] s = s
reload_all (system ∷ systems) s = reload_all systems (reload system s).1

pub reload_all-stands :
    {P L : Type 0} (path : Option Text) (phase : Phase) (systems : List (System P L))
    (s : Supervisor P L)
    → All (ReadsPath path) systems
    → StandsAt path phase s
    → StandsAt path phase (reload_all systems s)
reload_all-stands path phase [] s reads h = h
reload_all-stands path phase (system ∷ systems) s reads h =
    reload_all-stands path phase systems (reload system s).1 reads.1
      (reload-stands system path phase reads.0 s h)

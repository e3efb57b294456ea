-- ===== src/Supervisor/Paused.antt =====
-- server/supervisor.rs: a listener that cannot be made leaves the listener's task paused, and a reload
-- of the same socket path does not resume it.
use muscl.Prelude.{
  ◌≡◌, refl, ap, sym, ◌∙◌, Bool-cases, false, All, Option, List, ◌∷◌, Result, ok, err, Result-cases,
  inl, inr, ◌≢◌,
}
use mathlib.Core.Path.{subst}
use muscl.Prelude.Text.{Text}
use muscl.Server.Connection.{Action, ◌>>=◌, lift}
use muscl.Server.Config.{ServerConfig, option_eq, mysql_eq}
use muscl.Supervisor.{
  accepting, paused, System, Supervisor, reload_config, reload_listener, replace_listener, send,
  take_message, pool_step, listener_step, apply_changes, reload, reload_from, finish, report,
  new_listener,
}
use muscl.Supervisor.Sync.{option_eq_iff, reload_config-keeps, reload_config-config}
use muscl.Supervisor.Stands.{
  ReadsPath, StandsAt, pool_step-kept, report-stands, reload_all, reload_all-stands,
}

module _ {P L : Type 0} (system : System P L) where
  -- What the failed replacement of the listener leaves.
  listener_step-failed :
      (previous : ServerConfig) (errors : List Text) (s : Supervisor P L) (x : Text)
      → option_eq s.config.socket_path previous.socket_path ≡ false
      → new_listener system s.config.socket_path ≡ err x
      → s.listener_task ≡ accepting
      → StandsAt s.config.socket_path paused (listener_step system previous errors s).1
  unfolding listener_step replace_listener send take_message reload_listener
  listener_step-failed previous errors s x changed e task =
      rw (changed, listener_step) (rw (task, send) (rw e (refl, refl)))

-- What holds of the state after the first action, and is kept by the second, holds after both.
bind-after :
    {S A B : Type 0} (Q : S → Type 0) (m : Action S Text A) (k : A → Action S Text B) (s : S)
    → Q (m s).1
    → ((a : A) (s : S) → Q s → Q (k a s).1)
    → Q ((m >>= k) s).1
bind-after Q m k s h j = elim (Result-cases (m s).0) [
  | inl (a, e) ↦ rw e (j a (m s).1 h)
  | inr (x, e) ↦ rw e h
]

bind-at :
    {S A B : Type 0} (m : Action S Text A) (k : A → Action S Text B) (s : S) (a : A)
    → (m s).0 ≡ ok a
    → (m >>= k) s ≡ k a (m s).1
bind-at m k s a h = rw h refl

module _ {P L : Type 0} (system : System P L) where
  pool_step_some :
      (previous : ServerConfig) (s : Supervisor P L)
      → (errors : List Text) × ((pool_step system previous s).0 ≡ ok errors)
  unfolding pool_step
  pool_step_some previous s = elim (Bool-cases (mysql_eq s.config.mysql previous.mysql)) [
    | inl same ↦ rw (same, pool_step) (_, refl)
    | inr changed ↦ rw (changed, pool_step) (_, refl)
  ]

  changes_failed :
      (previous : ServerConfig) (s : Supervisor P L) (path : Option Text) (x : Text)
      → s.config.socket_path ≡ path
      → path ≢ previous.socket_path
      → new_listener system path ≡ err x
      → s.listener_task ≡ accepting
      → StandsAt path paused (apply_changes system previous s).1
  unfolding apply_changes
  changes_failed previous s path x at_path changed e task =
      let (errors, found) = pool_step_some previous s in
      let t = (pool_step system previous s).1 in
      let same = pool_step-kept system previous s in
      let here : t.config.socket_path ≡ path =
        ap (λ v. ServerConfig.socket_path v.0) same ∙ at_path in
      let test : option_eq t.config.socket_path previous.socket_path ≡ false =
        elim (Bool-cases (option_eq t.config.socket_path previous.socket_path)) [
          | inl equal ↦ absurd (
              changed
                (sym here ∙ (option_eq_iff t.config.socket_path previous.socket_path).0 equal))
          | inr differs ↦ differs
        ] in
      let failed =
        listener_step-failed system previous errors t x test (ap (new_listener system) here ∙ e)
          (ap (λ v. v.1) same ∙ task) in
      subst (λ (v : Result Text (List Text) × Supervisor P L). StandsAt path paused v.1)
        (sym (bind-at (pool_step system previous) (listener_step system previous) s errors found))
        (failed.0 ∙ here, failed.1)

  reload_failed :
      (s : Supervisor P L) (new_config : ServerConfig) (x : Text)
      → system.notify_reloading ≡ ok tt
      → system.read_config ≡ ok new_config
      → (reload_config system s).0 ≡ ok tt
      → new_config.socket_path ≢ s.config.socket_path
      → new_listener system new_config.socket_path ≡ err x
      → s.listener_task ≡ accepting
      → StandsAt new_config.socket_path paused (reload system s).1
  unfolding reload
  reload_failed s new_config x notified found configured changed e task =
      let path = new_config.socket_path in
      let changes = λ (previous : ServerConfig).
        apply_changes system previous >>= λ errors. finish system errors in
      let t = (reload_config system s).1 in
      let at_path =
        ap (λ c. ServerConfig.socket_path c) (reload_config-config system s new_config found) in
      let accepts = ap (λ v. v.1.1) (reload_config-keeps system s) ∙ task in
      let after =
        bind-after (StandsAt path paused) (apply_changes system s.config)
          (λ errors. finish system errors) t
          (changes_failed s.config t path x at_path changed e accepts)
          (λ errors v h.
            bind-after (StandsAt path paused) (lift system.notify_ready) (λ _. report system errors)
              v h (λ _ w k. report-stands system path paused errors w k)) in
      subst (λ (v : Result Text (Unit {0}) × Supervisor P L). StandsAt path paused v.1)
        (sym (
          bind-at (lift system.notify_reloading)
            (λ _. λ v. reload_from system (Supervisor.config v) v) s tt notified
          ∙ bind-at (reload_config system) (λ _. changes s.config) s tt configured))
        after

-- If a reload reads a new socket path and the listener for it cannot be made, the listener's task is
-- paused, and stays so after any further reloads that read the same path, whatever else they read
-- and whether they succeed or not.
pub paused_after_failure :
    {P L : Type 0} (system : System P L) (later : List (System P L)) (s : Supervisor P L)
    (new_config : ServerConfig) (x : Text)
    → system.notify_reloading ≡ ok tt
    → system.read_config ≡ ok new_config
    → (reload_config system s).0 ≡ ok tt
    → new_config.socket_path ≢ s.config.socket_path
    → new_listener system new_config.socket_path ≡ err x
    → s.listener_task ≡ accepting
    → All (ReadsPath new_config.socket_path) later
    → Supervisor.listener_task (reload_all (system ∷ later) s) ≡ paused
paused_after_failure system later s new_config x notified found configured changed e task reads =
    (reload_all-stands new_config.socket_path paused later (reload system s).1 reads
      (reload_failed system s new_config x notified found configured changed e task)).1

-- ===== src/Supervisor/Sync.antt =====
-- server/supervisor.rs: what the parts of a reload change, and what a reload that succeeds leaves.
use muscl.Prelude.{
  ◌≡◌, refl, ◌∙◌, ◌↔◌, Bool-cases, true, ◌==◌, ==_iff, Option, none, some, ok, err, Result-cases,
  inl, inr, arith,
}
use muscl.Prelude.Text.{Text, text_eq_iff}
use muscl.Server.Connection.{Action, ◌>>=◌, lift}
use muscl.Server.Config.{MysqlConfig, ServerConfig, option_eq, mysql_eq}
use muscl.Supervisor.{
  Phase, System, Supervisor, reload_config, read, reload_denylist, load_denylist,
}

pub option_eq_iff : (s t : Option Text) → (option_eq s t ≡ true) ↔ (s ≡ t)
unfolding option_eq
option_eq_iff none none = (λ _. refl, λ _. refl)
option_eq_iff none (some t) = (λ h. cc, λ h. cc)
option_eq_iff (some s) none = (λ h. cc, λ h. cc)
option_eq_iff (some s) (some t) = ground (arith, text_eq_iff s t)

pub mysql_eq_sound : (c d : MysqlConfig) → mysql_eq c d ≡ true → c ≡ d
unfolding mysql_eq
mysql_eq_sound c d h =
    let parts : (option_eq c.socket_path d.socket_path ≡ true)
        × (option_eq c.host d.host ≡ true)
        × ((c.port == d.port) ≡ true)
        × (option_eq c.username d.username ≡ true)
        × (option_eq c.password d.password ≡ true)
        × (option_eq c.password_file d.password_file ≡ true)
        × ((c.timeout == d.timeout) ≡ true) =
      ground arith in
    λ i. record {
      socket_path = (option_eq_iff c.socket_path d.socket_path).0 parts.0 i;
      host = (option_eq_iff c.host d.host).0 parts.1 i;
      port = (==_iff c.port d.port).0 parts.2 i;
      username = (option_eq_iff c.username d.username).0 parts.3 i;
      password = (option_eq_iff c.password d.password).0 parts.4 i;
      password_file = (option_eq_iff c.password_file d.password_file).0 parts.5 i;
      timeout = (==_iff c.timeout d.timeout).0 parts.6 i;
    }

-- An action that succeeds after another one.
pub bind-ok :
    {S A B : Type 0} (m : Action S Text A) (k : A → Action S Text B) (s : S) (b : B)
    → ((m >>= k) s).0 ≡ ok b
    → (a : A) × (((m s).0 ≡ ok a) × ((m >>= k) s ≡ k a (m s).1))
bind-ok m k s b h = elim (Result-cases (m s).0) [
  | inl (a, e) ↦ (a, (e, rw e refl))
  | inr (x, e) ↦ absurd (let impossible : err x ≡ ok b = rw e at h in cc)
]

-- What two actions keep, they keep one after the other.
pub bind-keeps :
    {S A B C : Type 0} (f : S → C) (m : Action S Text A) (k : A → Action S Text B)
    → ((s : S) → f (m s).1 ≡ f s)
    → ((a : A) (s : S) → f (k a s).1 ≡ f s)
    → (s : S) → f ((m >>= k) s).1 ≡ f s
bind-keeps f m k h j s = elim (Result-cases (m s).0) [
  | inl (a, e) ↦ rw e (j a (m s).1 ∙ h s)
  | inr (x, e) ↦ rw e (h s)
]

module _ {P L : Type 0} (system : System P L) where
  -- The parts of the state that reading the configuration does not change.
  abbrev pub running : Supervisor P L → P × (L × Phase)
  running s = (s.db_connection_pool, (s.listener, s.listener_task))

  load_denylist-keeps :
      (content : Text) (hash : Option Text) (s : Supervisor P L)
      → running (load_denylist system content hash s).1 ≡ running s
  unfolding load_denylist
  load_denylist-keeps content hash s =
      elim (Bool-cases (option_eq hash (some (system.digest content)))) [
        | inl e ↦ rw (e, load_denylist) refl
        | inr e ↦ rw (e, load_denylist) refl
      ]

  load_denylist-config :
      (content : Text) (hash : Option Text) (s : Supervisor P L)
      → Supervisor.config (load_denylist system content hash s).1 ≡ s.config
  unfolding load_denylist
  load_denylist-config content hash s =
      elim (Bool-cases (option_eq hash (some (system.digest content)))) [
        | inl e ↦ rw (e, load_denylist) refl
        | inr e ↦ rw (e, load_denylist) refl
      ]

  reload_denylist-keeps :
      (path : Option Text) (s : Supervisor P L)
      → running (reload_denylist system path s).1 ≡ running s
  reload_denylist-keeps none s = refl
  reload_denylist-keeps (some path) s =
      bind-keeps running (lift (system.read_to_string path))
        (λ content. read (λ s. Supervisor.group_denylist_file_hash s) >>= λ hash.
          load_denylist system content hash)
        (λ s. refl) (λ content s. load_denylist-keeps content s.group_denylist_file_hash s) s

  reload_denylist-config :
      (path : Option Text) (s : Supervisor P L)
      → Supervisor.config (reload_denylist system path s).1 ≡ s.config
  reload_denylist-config none s = refl
  reload_denylist-config (some path) s =
      bind-keeps (λ s. Supervisor.config s) (lift (system.read_to_string path))
        (λ content. read (λ s. Supervisor.group_denylist_file_hash s) >>= λ hash.
          load_denylist system content hash)
        (λ s. refl) (λ content s. load_denylist-config content s.group_denylist_file_hash s) s

  -- The pool, the listener and its task are as before.
  pub reload_config-keeps : (s : Supervisor P L) → running (reload_config system s).1 ≡ running s
  unfolding reload_config
  reload_config-keeps s = elim (Result-cases system.read_config) [
    | inl (new_config, e) ↦
        rw (e, reload_config)
          (reload_denylist-keeps new_config.authorization.group_denylist_file
            (record s { config = new_config }))
    | inr (x, e) ↦ rw (e, reload_config) refl
  ]

  -- Where the configuration can be read, it is the new one, whether the denylist can be read or not.
  pub reload_config-config :
      (s : Supervisor P L) (new_config : ServerConfig)
      → system.read_config ≡ ok new_config
      → Supervisor.config (reload_config system s).1 ≡ new_config
  unfolding reload_config
  reload_config-config s new_config e =
      rw (e, reload_config)
        (reload_denylist-config new_config.authorization.group_denylist_file
          (record s { config = new_config }))

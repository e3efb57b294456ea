-- ===== src/Privileges/State.antt =====
-- The privileges of a server as an abstract state: for each database and user the row, if there is
-- one. A diff changes the state at its own key only.
use muscl.Prelude.{
  ◌≡◌, ◌≢◌, refl, Option, List, [], ◌∷◌, Has, inl, inr, Bool-cases, arith, if◌then◌else◌,
}
use muscl.Privileges.Row.{DatabasePrivilegeRow}
use muscl.Privileges.Diff.{DatabasePrivilegesDiff}
use muscl.Privileges.Diff.Meaning.{act}
use muscl.Privileges.Tables.{Key, key_eq, key_eq_iff, diff_key}

abbrev pub State : Type 0
State = Key → Option DatabasePrivilegeRow

abbrev pub apply_one : DatabasePrivilegesDiff → State → State
apply_one d s k = if key_eq (diff_key d) k then act d (s k) else s k

abbrev pub apply_all : List DatabasePrivilegesDiff → State → State
apply_all [] s = s
apply_all (d ∷ ds) s = apply_all ds (apply_one d s)

apply_one_self :
    (d : DatabasePrivilegesDiff) (s : State) (k : Key)
    → diff_key d ≡ k
    → apply_one d s k ≡ act d (s k)
apply_one_self d s k h = rw ((key_eq_iff (diff_key d) k).1 h)

apply_one_ne :
    (d : DatabasePrivilegesDiff) (s : State) (k : Key) → diff_key d ≢ k → apply_one d s k ≡ s k
apply_one_ne d s k h = ground (arith, key_eq_iff (diff_key d) k)

-- A row that every diff of its key leaves as it is stays.
pub apply_all_fixed :
    (ds : List DatabasePrivilegesDiff) (s : State) (k : Key) (b : Option DatabasePrivilegeRow)
    → ((d : DatabasePrivilegesDiff) → Has d ds → diff_key d ≡ k → act d b ≡ b)
    → s k ≡ b
    → apply_all ds s k ≡ b
apply_all_fixed [] s k b fixed h = h
apply_all_fixed (d ∷ ds) s k b fixed h =
    apply_all_fixed ds (apply_one d s) k b (λ e m. fixed e (inr m))
      (elim (Bool-cases (key_eq (diff_key d) k)) [
        | inl same ↦ rw same (rw h (fixed d (inl refl) ((key_eq_iff (diff_key d) k).0 same)))
        | inr other ↦ rw other h
      ])

-- Where one diff is the only one of its key, however often it stands in the list, it is applied.
pub apply_all_only :
    (ds : List DatabasePrivilegesDiff) (s : State) (k : Key) (d : DatabasePrivilegesDiff)
    (a b : Option DatabasePrivilegeRow)
    → Has d ds
    → ((e : DatabasePrivilegesDiff) → Has e ds → diff_key e ≡ k → e ≡ d)
    → diff_key d ≡ k
    → act d a ≡ b
    → act d b ≡ b
    → s k ≡ a
    → apply_all ds s k ≡ b
apply_all_only [] s k d a b m only key first again h = absurd m
apply_all_only (e ∷ ds) s k d a b m only key first again h =
    elim (Bool-cases (key_eq (diff_key e) k)) [
      | inl same ↦
          let is_d : e ≡ d = only e (inl refl) ((key_eq_iff (diff_key e) k).0 same) in
          apply_all_fixed ds (apply_one e s) k b
            (λ x there keyed. rw (only x (inr there) keyed) again) (rw same (rw (is_d, h) first))
      | inr other ↦
          apply_all_only ds (apply_one e s) k d a b
            (elim m [
              | inl is_e ↦ absurd (ground (arith, key_eq_iff (diff_key e) k))
              | inr there ↦ there
            ])
            (λ x there keyed. only x (inr there) keyed) key first again (rw other h)
    ]

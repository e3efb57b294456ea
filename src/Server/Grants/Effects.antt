-- ===== src/Server/Grants/Effects.antt =====
-- What the operations on privileges do: diffs for names that do not pass the validation change
-- nothing.
use muscl.Prelude.{◌≡◌, ap, Bool, false, ◌&&◌, List, [], keep, arith}
use muscl.Prelude.Text.{codes}
use muscl.Privileges.Diff.{DatabasePrivilegesDiff, get_database_name, get_user_name}
use muscl.Privileges.Tables.{diff_key}
use muscl.Validation.{database, user}
use muscl.Server.Connection.{Session, is_valid}
use muscl.Server.Connection.Loops.{for_each-keep}
use muscl.Server.Grants.{apply_diff, apply_privilege_diffs}
use muscl.Server.Grants.Values.{key_ord}

module _ {S : Type 0} (session : Session S) where
  -- Both names of the diff pass the validation.
  abbrev pub is_valid_diff : DatabasePrivilegesDiff → Bool
  is_valid_diff d =
      is_valid session (database (get_database_name d)) && is_valid session (user (get_user_name d))

  apply_diff_skips :
      (d : DatabasePrivilegesDiff) (s : S)
      → is_valid_diff d ≡ false
      → (apply_diff session d s).1 ≡ s
  unfolding apply_diff
  apply_diff_skips d s h = ground arith

  -- Applying diffs leaves the server in the state that applying those alone leaves whose database
  -- and user both pass the validation.
  pub apply_privilege_diffs-keep :
      (diffs : List DatabasePrivilegesDiff) (s : S)
      → (apply_privilege_diffs session diffs s).1
        ≡ (apply_privilege_diffs session (keep is_valid_diff diffs) s).1
  unfolding apply_privilege_diffs
  apply_privilege_diffs-keep diffs s =
      ap (λ s'. (session.connection.execute (codes "FLUSH PRIVILEGES") [] s').1)
        (for_each-keep diff_key (apply_diff session) is_valid_diff apply_diff_skips diffs [] [] s)

-- ===== src/Server/Grants/EndToEnd.antt =====
-- The client and the server together: the diffs of `diff_privileges`, applied by
-- `apply_privilege_diffs`.
use muscl.Prelude.{◌≡◌, ◌∙◌, ap, List, [], ◌∷◌, if◌then◌else◌}
use muscl.Privileges.Row.{DatabasePrivilegeRow}
use muscl.Privileges.Diff.{DatabasePrivilegesDiff}
use muscl.Privileges.Diff.Meaning.{act}
use muscl.Privileges.Tables.{Key, key_eq, diff_key}
use muscl.Privileges.Tables.{view, IsKeyed}
use muscl.Privileges.State.{State, apply_one, apply_all}
use muscl.Privileges.Compare.{diff_privileges}
use muscl.Privileges.Compare.Transform.{diff_privileges_transforms}
use muscl.Server.Connection.{Session}
use muscl.Server.Grants.{apply_privilege_diffs}
use muscl.Server.Grants.Table.{Table, ServesGrants, privileges}
use muscl.Server.Grants.Refines.{applied, apply_privilege_diffs-refines}

-- What diffs leave under a key depends on the row under it only.
apply_all_local :
    (ds : List DatabasePrivilegesDiff) (a b : State) (k : Key)
    → a k ≡ b k
    → apply_all ds a k ≡ apply_all ds b k
apply_all_local [] a b k h = h
apply_all_local (d ∷ ds) a b k h =
    apply_all_local ds (apply_one d a) (apply_one d b) k
      (λ i. if key_eq (diff_key d) k then act d (h i) else h i)

-- If no two rows that the client has read differ under one key, nor two rows that it wants, if the
-- server has for any host under a key the row that the client has read, and answers `Ok` to every
-- diff between the two lists, then the server has for any host under the key the row that the client
-- wants; over a connection that executes statements on the table `db` by their documented meaning.
pub apply_privilege_diffs-reaches :
    {S : Type 0} (session : Session S) (table : S → Table)
    (serves : ServesGrants session.connection table) (from to : List DatabasePrivilegeRow) (s : S)
    (k : Key)
    → IsKeyed from
    → IsKeyed to
    → applied session (diff_privileges from to) s ≡ diff_privileges from to
    → privileges (table s) k ≡ view from k
    → privileges (table (apply_privilege_diffs session (diff_privileges from to) s).1) k ≡ view to k
apply_privilege_diffs-reaches session table serves from to s k keyed_from keyed_to all same =
    ap (λ (t : State). t k)
      (apply_privilege_diffs-refines session table serves (diff_privileges from to) s)
    ∙ (ap (λ ds. apply_all ds (privileges (table s)) k) all
        ∙ (apply_all_local (diff_privileges from to) (privileges (table s)) (view from) k same
            ∙ diff_privileges_transforms from to k keyed_from keyed_to))

-- ===== src/Privileges/Compare/Tests.antt =====
-- Runs of the comparison, and its theorems at sample rows.
use muscl.Prelude.{◌≡◌, arith, ap, ◌≢◌, ◌↔◌, refl, true, some, List, [], ◌∷◌, Has, inl, inr}
use muscl.Prelude.Text.{codes, text_eq}
use muscl.Prelude.Ordered.{insert}
use muscl.Prelude.HashMap.{lookup, put}
use muscl.Privileges.Row.{DatabasePrivilegeRow, no_privileges}
use muscl.Privileges.RowDiff
use muscl.Privileges.RowDiff.{DatabasePrivilegeRowDiff, no_changes}
use muscl.Privileges.RowDiff.Change.{no_to_yes, change_new}
use muscl.Privileges.Diff.{new, modified, deleted}
use muscl.Privileges.Diff.Order.{cmp_diff}
use muscl.Privileges.Tables.{Key, key_eq, diff_key, row_key, lookup_table, view, IsKeyed}
use muscl.Privileges.State.{apply_all}
use muscl.Privileges.Compare.{diff_privileges, create_or_modify_privilege_rows}
use muscl.Privileges.Compare.Exact.{expected, diff_privileges_exact}
use muscl.Privileges.Compare.Transform.{diff_privileges_transforms}
use muscl.Privileges.Compare.Edits.{
  edited, edit_key, create_or_modify_edits, create_or_modify_others,
}

abbrev alice : DatabasePrivilegeRow
alice = record (no_privileges (codes "a_db") (codes "alice")) { select_priv = true }

abbrev bob : DatabasePrivilegeRow
bob = no_privileges (codes "a_db") (codes "bob")

abbrev carol : DatabasePrivilegeRow
carol = no_privileges (codes "a_db") (codes "carol")

abbrev before : List DatabasePrivilegeRow
before = alice ∷ bob ∷ []

abbrev after : List DatabasePrivilegeRow
after = carol ∷ record alice { drop_priv = true } ∷ []

abbrev alice_drops : DatabasePrivilegeRowDiff
alice_drops = record (no_changes (codes "a_db") (codes "alice")) { drop_priv = some no_to_yes }

diff_run : diff_privileges before after ≡ new carol ∷ modified alice_drops ∷ deleted bob ∷ []
unfolding diff_privileges lookup put key_eq text_eq RowDiff.from_rows RowDiff.is_empty change_new
    insert cmp_diff
diff_run = refl

before-IsKeyed : IsKeyed before
unfolding lookup_table lookup put key_eq text_eq
before-IsKeyed = (refl, (refl, tt))

after-IsKeyed : IsKeyed after
unfolding lookup_table lookup put key_eq text_eq
after-IsKeyed = (refl, (refl, tt))

diff_privileges_exact_example : Has (deleted bob) (diff_privileges before after) ↔ (
    expected (view before (diff_key (deleted bob))) (view after (diff_key (deleted bob)))
    ≡ some (deleted bob))
diff_privileges_exact_example =
    diff_privileges_exact before after (deleted bob) before-IsKeyed after-IsKeyed

diff_privileges_transforms_example :
    apply_all (diff_privileges before after) (view before) (codes "a_db", codes "alice")
    ≡ view after (codes "a_db", codes "alice")
diff_privileges_transforms_example =
    diff_privileges_transforms before after (codes "a_db", codes "alice") before-IsKeyed
      after-IsKeyed

-- One edit of a row that is there, and one of a row that is not.
abbrev carol_reads : DatabasePrivilegeRowDiff
carol_reads = record (no_changes (codes "a_db") (codes "carol")) { select_priv = some no_to_yes }

abbrev edits : List DatabasePrivilegeRowDiff
edits = alice_drops ∷ carol_reads ∷ []

only_carol :
    (e : DatabasePrivilegeRowDiff)
    → Has e edits
    → edit_key e ≡ edit_key carol_reads
    → e ≡ carol_reads
unfolding text_eq
only_carol e (inl is_alice) key =
    absurd (ground (arith, ap (λ (k : Key). text_eq k.1 (codes "carol")) (rw is_alice at key)))
only_carol e (inr (inl is_carol)) key = is_carol
only_carol e (inr (inr absent)) key = absurd absent

create_or_modify_edits_example :
    apply_all (create_or_modify_privilege_rows before edits) (view before) (edit_key carol_reads)
    ≡ some (edited carol_reads (view before (edit_key carol_reads)))
create_or_modify_edits_example =
    create_or_modify_edits before edits carol_reads (inr (inl refl)) only_carol

only_alice : (e : DatabasePrivilegeRowDiff) → Has e (alice_drops ∷ []) → edit_key e ≢ row_key bob
unfolding text_eq
only_alice e (inl is_alice) key =
    ground (arith, ap (λ (k : Key). text_eq k.1 (codes "bob")) (rw is_alice at key))
only_alice e (inr absent) key = absurd absent

create_or_modify_others_example :
    apply_all
      (create_or_modify_privilege_rows before (alice_drops ∷ []))
      (view before)
      (row_key bob)
    ≡ view before (row_key bob)
create_or_modify_others_example =
    create_or_modify_others before (alice_drops ∷ []) (row_key bob) only_alice

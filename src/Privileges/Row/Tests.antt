-- ===== src/Privileges/Row/Tests.antt =====
-- Runs of the name tables.
use muscl.Prelude.{◌≡◌, refl, true, none, some}
use muscl.Prelude.Text.{codes}
use muscl.Privileges.Row.{
  get_privilege_by_name, db_priv_field_human_readable_name, db_priv_field_single_character_name,
  no_privileges,
}

by_name :
    (get_privilege_by_name
        (record (no_privileges (codes "d") (codes "u")) { drop_priv = true })
        (codes "drop_priv")
      ≡ some true)
    × (get_privilege_by_name (no_privileges (codes "d") (codes "u")) (codes "User") ≡ none)
unfolding get_privilege_by_name
by_name = (refl, refl)

names :
    (db_priv_field_human_readable_name (codes "create_tmp_table_priv") ≡ codes "Temp")
    × (db_priv_field_human_readable_name (codes "x") ≡ codes "Unknown(x)")
    × (db_priv_field_single_character_name (codes "index_priv") ≡ codes "I")
unfolding db_priv_field_human_readable_name db_priv_field_single_character_name
names = (refl, refl, refl)

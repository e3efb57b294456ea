-- ===== src/Server/Grants/Statements.antt =====
-- What the statements of the code on the table `db` say, by their texts and values, and which names
-- compare as they are.
use muscl.Prelude.{
  ℕ, ok, ◌≡◌, refl, Bool, true, false, All, Option, none, some, List, [], ◌∷◌, ◌++◌, arith,
}
use muscl.Prelude.Text.{Text, codes, text_eq, starts_with}
use muscl.Prelude.Words.{trim_start, join, is_whitespace}
use muscl.Server.Sql.{quote_identifier, replace}
use muscl.Privileges.Row.{yn, DatabasePrivilegeRow, database_privilege_fields, privilege_fields}
use muscl.Privileges.RowDiff.{DatabasePrivilegeRowDiff}
use muscl.Privileges.RowDiff.Change.{DatabasePrivilegeChange, yes_to_no, no_to_yes}
use muscl.Validation.{DbOrUser, name, is_name_char}
use muscl.Validation.Exact.{IsName, validate_request_exact}
use muscl.Server.Connection.{Session, validate}
use muscl.Server.Databases.{database_exists_query}
use muscl.Server.Users.{user_exists_query}
use muscl.Server.Grants.{
  privilege_query, insert_statement, insert_values, update_statement, update_values,
  delete_statement,
}
use muscl.Server.Grants.Values.{map_change}
use muscl.Server.Grants.Syntax.{
  Condition, bound, written, insertion, change, removal, selection, read_statement,
}
use muscl.Server.Grants.Table.{
  PrimaryKey, Table, is_unpadded, is_yn, is_change_value, at_key, changed_row, assigned, defaults,
  meaning, row_of, any_host, privileges, selected, is_query,
}

abbrev pub table_name : Text
table_name = codes "db"

abbrev pub by_key : List Condition
by_key = bound (codes "Db") ∷ bound (codes "User") ∷ bound (codes "Host") ∷ []

abbrev pub insertion_columns : List Text
insertion_columns = database_privilege_fields ++ codes "Host" ∷ []

pub read_statement-insert_statement :
    read_statement insert_statement ≡ some (insertion table_name insertion_columns)
unfolding read_statement insert_statement quote_identifier replace join
read_statement-insert_statement = refl

pub read_statement-update_statement :
    read_statement update_statement ≡ some (change table_name privilege_fields by_key)
unfolding read_statement update_statement quote_identifier replace join
read_statement-update_statement = refl

pub read_statement-delete_statement :
    read_statement delete_statement ≡ some (removal table_name by_key)
unfolding read_statement delete_statement
read_statement-delete_statement = refl

pub read_statement-privilege_query :
    read_statement privilege_query
    ≡ some (
        selection table_name database_privilege_fields
          (bound (codes "Db") ∷ bound (codes "User") ∷ written (codes "Host") (codes "%") ∷ []))
unfolding read_statement privilege_query quote_identifier replace join
read_statement-privilege_query = refl

pub queries :
    (is_query database_exists_query ≡ true)
    × (is_query user_exists_query ≡ true)
    × (is_query privilege_query ≡ true)
unfolding is_query trim_start starts_with database_exists_query user_exists_query privilege_query
queries = (refl, refl, refl)

is_yn-yn : (b : Bool) → is_yn (yn b) ≡ true
unfolding text_eq
is_yn-yn true = refl
is_yn-yn false = refl

is_change_value-map_change :
    (c : Option DatabasePrivilegeChange) → is_change_value (map_change c) ≡ true
unfolding text_eq
is_change_value-map_change none = refl
is_change_value-map_change (some yes_to_no) = refl
is_change_value-map_change (some no_to_yes) = refl

abbrev pub key_at : Text → Text → PrimaryKey
key_at db u = (any_host, db, u)

-- The names are such that a comparison with them is an equality.
abbrev pub AreComparable : Text → Text → Type 0
AreComparable db u = (is_unpadded db ≡ true) × (is_unpadded u ≡ true)

-- The changes of the table that the three statements make.
abbrev pub inserting : DatabasePrivilegeRow → Table → Table
inserting p =
    at_key (λ old. some (assigned insertion_columns (insert_values p) defaults))
      (key_at p.db p.user)

abbrev pub changing : DatabasePrivilegeRowDiff → Table → Table
changing d = at_key (changed_row (assigned privilege_fields (update_values d))) (key_at d.db d.user)

abbrev pub removing : DatabasePrivilegeRow → Table → Table
removing p = at_key (λ old. none) (key_at p.db p.user)

pub meaning-removal :
    (db u : Text)
    → AreComparable db u
    → meaning (removal table_name by_key) (some db ∷ some u ∷ some any_host ∷ [])
      ≡ some (at_key (λ old. none) (key_at db u))
unfolding meaning text_eq
meaning-removal db u (hd, hu) = rw (hd, hu) refl

pub meaning-insertion :
    (p : DatabasePrivilegeRow)
    → AreComparable p.db p.user
    → meaning (insertion table_name insertion_columns) (insert_values p)
      ≡ some (
          at_key
            (λ old. some (assigned insertion_columns (insert_values p) defaults))
            (key_at p.db p.user))
unfolding meaning text_eq insert_values
meaning-insertion p (hd, hu) =
    rw
      (
        is_yn-yn p.select_priv,
        is_yn-yn p.insert_priv,
        is_yn-yn p.update_priv,
        is_yn-yn p.delete_priv,
        is_yn-yn p.create_priv,
        is_yn-yn p.drop_priv,
        is_yn-yn p.alter_priv,
        is_yn-yn p.index_priv,
        is_yn-yn p.create_tmp_table_priv,
        is_yn-yn p.lock_tables_priv,
        is_yn-yn p.references_priv,
        is_yn-yn p.create_view_priv,
        is_yn-yn p.show_view_priv,
        is_yn-yn p.trigger_priv,
        hd,
        hu,
      )
      refl

pub meaning-change :
    (p : DatabasePrivilegeRowDiff)
    → AreComparable p.db p.user
    → meaning (change table_name privilege_fields by_key) (update_values p)
      ≡ some
          (at_key (changed_row (assigned privilege_fields (update_values p))) (key_at p.db p.user))
unfolding meaning text_eq update_values
meaning-change p (hd, hu) =
    rw
      (
        is_change_value-map_change p.select_priv,
        is_change_value-map_change p.insert_priv,
        is_change_value-map_change p.update_priv,
        is_change_value-map_change p.delete_priv,
        is_change_value-map_change p.create_priv,
        is_change_value-map_change p.drop_priv,
        is_change_value-map_change p.alter_priv,
        is_change_value-map_change p.index_priv,
        is_change_value-map_change p.create_tmp_table_priv,
        is_change_value-map_change p.lock_tables_priv,
        is_change_value-map_change p.references_priv,
        is_change_value-map_change p.create_view_priv,
        is_change_value-map_change p.show_view_priv,
        is_change_value-map_change p.trigger_priv,
        hd,
        hu,
      )
      refl

-- The query for one row gives the privileges of the database and the user.
pub selected-selection :
    (db u : Text)
    → AreComparable db u
    → selected
        (selection table_name database_privilege_fields
          (bound (codes "Db") ∷ bound (codes "User") ∷ written (codes "Host") (codes "%") ∷ []))
        (db ∷ u ∷ [])
      ≡ some (λ table. privileges table (db, u))
unfolding selected text_eq row_of
selected-selection db u (hd, hu) = rw (hd, hu) refl

-- A name that passes the validation compares as it is.
unpadded : (s : Text) → All (λ c. is_name_char c ≡ true) s → is_unpadded s ≡ true
unpadded [] h = refl
unpadded (c ∷ s) h = rw (no_white c h.0) (unpadded s h.1)
  where
    no_white : (c : ℕ) → is_name_char c ≡ true → is_whitespace c ≡ false
    no_white c h = ground (arith, h)

pub validate-is_unpadded :
    {S : Type 0} (session : Session S) (x : DbOrUser)
    → validate session x ≡ ok tt
    → is_unpadded (name x) ≡ true
unfolding validate
validate-is_unpadded session x h = unpadded (name x) (
    IsName.plain
      ((validate_request_exact session.from_name session.regexes x session.unix_user
          session.group_denylist).0
        h).0)

-- ===== src/Privileges/Tables.antt =====
-- The lookup tables of core/database_privileges/diff.rs, which map a database and a user to their
-- row, and the view of a list of rows through such a table.
pub mod Laws
use muscl.Prelude.{Bool, true, ◌≡◌, ◌↔◌, ◌&&◌, Option, some, List, [], ◌∷◌, All, arith}
use muscl.Prelude.Text.{text_eq, text_eq_iff}
use muscl.Prelude.HashMap.{Eq, lookup, put}
use muscl.Privileges.Row.{MySqlDatabase, MySqlUser, DatabasePrivilegeRow}
use muscl.Privileges.Diff.{DatabasePrivilegesDiff, get_database_name, get_user_name}

abbrev pub Key : Type 0
Key = MySqlDatabase × MySqlUser

unfoldable pub key_eq : Key → Key → Bool
key_eq (d, u) (e, v) = text_eq d e && text_eq u v

pub key_eq_iff : (j k : Key) → (key_eq j k ≡ true) ↔ (j ≡ k)
unfolding key_eq
key_eq_iff (d, u) (e, v) = ground (arith, text_eq_iff d e, text_eq_iff u v)

instance abbrev pub key_Eq : Eq Key
key_Eq = record { beq = key_eq; beq_iff = key_eq_iff }

abbrev pub row_key : DatabasePrivilegeRow → Key
row_key p = (p.db, p.user)

abbrev pub diff_key : DatabasePrivilegesDiff → Key
diff_key d = (get_database_name d, get_user_name d)

abbrev pub Table : Type 0
Table = List (Key × DatabasePrivilegeRow)

-- `collect` into a `HashMap`: of two rows with one key, the later one stays.
pub collect : List DatabasePrivilegeRow → Table → Table
collect [] m = m
collect (p ∷ ps) m = collect ps (put (row_key p) p m)

unfoldable pub lookup_table : List DatabasePrivilegeRow → Table
unfolding collect
lookup_table rows = collect rows []

-- The row that a list of rows has for a key.
abbrev pub view : List DatabasePrivilegeRow → Key → Option DatabasePrivilegeRow
view rows k = lookup k (lookup_table rows)

-- Every row is the one that its key finds: no two rows of one key differ.
abbrev pub IsKeyed : List DatabasePrivilegeRow → Type 0
IsKeyed rows = All (λ p. view rows (row_key p) ≡ some p) rows

-- ===== src/Privileges/Row.antt =====
-- core/database_privileges/base.rs and the newtypes `MySQLDatabase` and `MySQLUser` of
-- core/types.rs: the privileges of one user on one database, and the names of the privileges.
mod Tests
use muscl.Prelude.{ℕ, Bool, Option, none, some, List, [], ◌∷◌, ◌++◌, if◌then◌else◌, ◌≡◌}
use muscl.Prelude.Text.{Text, codes, text_eq}

abbrev pub MySqlDatabase : Type 0
MySqlDatabase = Text

abbrev pub MySqlUser : Type 0
MySqlUser = Text

-- The columns of the table `db` that are fetched, in the order of the query.
abbrev pub database_privilege_fields : List Text
database_privilege_fields =
    codes "Db"
    ∷ codes "User"
    ∷ codes "select_priv"
    ∷ codes "insert_priv"
    ∷ codes "update_priv"
    ∷ codes "delete_priv"
    ∷ codes "create_priv"
    ∷ codes "drop_priv"
    ∷ codes "alter_priv"
    ∷ codes "index_priv"
    ∷ codes "create_tmp_table_priv"
    ∷ codes "lock_tables_priv"
    ∷ codes "references_priv"
    ∷ codes "create_view_priv"
    ∷ codes "show_view_priv"
    ∷ codes "trigger_priv"
    ∷ []

-- The same without the first two (`.skip(2)`).
abbrev pub privilege_fields : List Text
privilege_fields =
    codes "select_priv"
    ∷ codes "insert_priv"
    ∷ codes "update_priv"
    ∷ codes "delete_priv"
    ∷ codes "create_priv"
    ∷ codes "drop_priv"
    ∷ codes "alter_priv"
    ∷ codes "index_priv"
    ∷ codes "create_tmp_table_priv"
    ∷ codes "lock_tables_priv"
    ∷ codes "references_priv"
    ∷ codes "create_view_priv"
    ∷ codes "show_view_priv"
    ∷ codes "trigger_priv"
    ∷ []

pub record DatabasePrivilegeRow : Type 0 where
  pub db : MySqlDatabase
  pub user : MySqlUser
  pub select_priv : Bool
  pub insert_priv : Bool
  pub update_priv : Bool
  pub delete_priv : Bool
  pub create_priv : Bool
  pub drop_priv : Bool
  pub alter_priv : Bool
  pub index_priv : Bool
  pub create_tmp_table_priv : Bool
  pub lock_tables_priv : Bool
  pub references_priv : Bool
  pub create_view_priv : Bool
  pub show_view_priv : Bool
  pub trigger_priv : Bool

unfoldable pub get_privilege_by_name : DatabasePrivilegeRow → Text → Option Bool
unfolding text_eq
get_privilege_by_name r name =
    if text_eq name (codes "select_priv")
    then some r.select_priv
    else if text_eq name (codes "insert_priv")
    then some r.insert_priv
    else if text_eq name (codes "update_priv")
    then some r.update_priv
    else if text_eq name (codes "delete_priv")
    then some r.delete_priv
    else if text_eq name (codes "create_priv")
    then some r.create_priv
    else if text_eq name (codes "drop_priv")
    then some r.drop_priv
    else if text_eq name (codes "alter_priv")
    then some r.alter_priv
    else if text_eq name (codes "index_priv")
    then some r.index_priv
    else if text_eq name (codes "create_tmp_table_priv")
    then some r.create_tmp_table_priv
    else if text_eq name (codes "lock_tables_priv")
    then some r.lock_tables_priv
    else if text_eq name (codes "references_priv")
    then some r.references_priv
    else if text_eq name (codes "create_view_priv")
    then some r.create_view_priv
    else if text_eq name (codes "show_view_priv")
    then some r.show_view_priv
    else if text_eq name (codes "trigger_priv")
    then some r.trigger_priv
    else none

unfoldable pub db_priv_field_human_readable_name : Text → Text
unfolding text_eq
db_priv_field_human_readable_name name =
    if text_eq name (codes "Db")
    then codes "Database"
    else if text_eq name (codes "User")
    then codes "User"
    else if text_eq name (codes "select_priv")
    then codes "Select"
    else if text_eq name (codes "insert_priv")
    then codes "Insert"
    else if text_eq name (codes "update_priv")
    then codes "Update"
    else if text_eq name (codes "delete_priv")
    then codes "Delete"
    else if text_eq name (codes "create_priv")
    then codes "Create"
    else if text_eq name (codes "drop_priv")
    then codes "Drop"
    else if text_eq name (codes "alter_priv")
    then codes "Alter"
    else if text_eq name (codes "index_priv")
    then codes "Index"
    else if text_eq name (codes "create_tmp_table_priv")
    then codes "Temp"
    else if text_eq name (codes "lock_tables_priv")
    then codes "Lock"
    else if text_eq name (codes "references_priv")
    then codes "References"
    else if text_eq name (codes "create_view_priv")
    then codes "CreateView"
    else if text_eq name (codes "show_view_priv")
    then codes "ShowView"
    else if text_eq name (codes "trigger_priv")
    then codes "Trigger"
    else codes "Unknown(" ++ name ++ codes ")"

pub db_priv_field_single_character_name : Text → Text
unfolding text_eq
db_priv_field_single_character_name name =
    if text_eq name (codes "select_priv")
    then codes "s"
    else if text_eq name (codes "insert_priv")
    then codes "i"
    else if text_eq name (codes "update_priv")
    then codes "u"
    else if text_eq name (codes "delete_priv")
    then codes "d"
    else if text_eq name (codes "create_priv")
    then codes "c"
    else if text_eq name (codes "drop_priv")
    then codes "D"
    else if text_eq name (codes "alter_priv")
    then codes "a"
    else if text_eq name (codes "index_priv")
    then codes "I"
    else if text_eq name (codes "create_tmp_table_priv")
    then codes "t"
    else if text_eq name (codes "lock_tables_priv")
    then codes "l"
    else if text_eq name (codes "references_priv")
    then codes "r"
    else if text_eq name (codes "create_view_priv")
    then codes "v"
    else if text_eq name (codes "show_view_priv")
    then codes "V"
    else if text_eq name (codes "trigger_priv")
    then codes "T"
    else codes "?"

-- `yn` of core/common.rs
abbrev pub yn : Bool → Text
yn b = if b then codes "Y" else codes "N"

-- The row with no privilege, as `create_or_modify_privilege_rows` starts from.
abbrev pub no_privileges : MySqlDatabase → MySqlUser → DatabasePrivilegeRow
no_privileges db user = record {
  db = db;
  user = user;
  select_priv = Bool.false;
  insert_priv = Bool.false;
  update_priv = Bool.false;
  delete_priv = Bool.false;
  create_priv = Bool.false;
  drop_priv = Bool.false;
  alter_priv = Bool.false;
  index_priv = Bool.false;
  create_tmp_table_priv = Bool.false;
  lock_tables_priv = Bool.false;
  references_priv = Bool.false;
  create_view_priv = Bool.false;
  show_view_priv = Bool.false;
  trigger_priv = Bool.false;
}

-- ===== src/Server/Lists/Rows.antt =====
-- The rows that the lists read: `DatabaseRow` of server/sql/database_operations.rs, `DatabaseUser` of
-- server/sql/user_operations.rs and `try_get_with_binary_fallback` of server/common.rs.
use muscl.Prelude.{
  ℕ, Bool, Option, none, some, List, [], ◌∷◌, is_empty_list, if◌then◌else◌, Result, ok, err, ◌>>=◌,
}
use muscl.Prelude.Text.{Text, codes}
use muscl.Prelude.Words.{split}
use muscl.Privileges.Row.{MySqlDatabase, MySqlUser}
use muscl.Server.Connection.{MySqlRow}

pub record DatabaseRow : Type 0 where
  pub database : MySqlDatabase
  pub tables : List Text
  pub table_count : ℕ
  pub users : List MySqlUser
  pub user_count : ℕ
  pub collation : Option Text
  pub character_set : Option Text
  pub size_bytes : ℕ

-- The parts of a list that `GROUP_CONCAT` has joined by commas; NULL and the empty text are the
-- empty list.
unfoldable pub comma_list : Option Text → List Text
unfolding split
comma_list none = []
comma_list (some s) = let parts = split b',' s in if is_empty_list s then [] else parts

-- `FromRow::from_row` of `DatabaseRow`
unfoldable pub database_of_row : MySqlRow → Result Text DatabaseRow
unfolding comma_list
database_of_row row = do
  database ← row.text (codes "database")
  tables ← row.optional_text (codes "tables")
  table_count ← row.number (codes "table_count")
  users ← row.optional_text (codes "users")
  user_count ← row.number (codes "user_count")
  collation ← row.optional_text (codes "collation")
  character_set ← row.optional_text (codes "character_set")
  size_bytes ← row.number (codes "size_bytes")
  ok (record {
    database = database;
    tables = comma_list tables;
    table_count = table_count;
    users = comma_list users;
    user_count = user_count;
    collation = collation;
    character_set = character_set;
    size_bytes = size_bytes;
  })

abbrev pub try_get_with_binary_fallback : MySqlRow → Text → Result Text Text
try_get_with_binary_fallback row column = elim (row.text column) [
  | ok s ↦ ok s
  | err e ↦ row.lossy_bytes column
]

pub record DatabaseUser : Type 0 where
  pub user : MySqlUser
  pub host : Text
  pub has_password : Bool
  pub is_locked : Bool
  pub databases : List Text
  pub database_count : ℕ

-- `FromRow::from_row` of `DatabaseUser`
unfoldable pub user_of_row : MySqlRow → Result Text DatabaseUser
user_of_row row = do
  user ← try_get_with_binary_fallback row (codes "User")
  host ← try_get_with_binary_fallback row (codes "Host")
  has_password ← row.flag (codes "has_password")
  is_locked ← row.flag (codes "account_locked")
  ok (record {
    user = user;
    host = host;
    has_password = has_password;
    is_locked = is_locked;
    databases = [];
    database_count = 0;
  })

-- `query_as` on all rows: the first row that is not read is the error. Also `collect` into a
-- `Result`.
unfoldable pub read_all :
    {A : Type 0} → (MySqlRow → Result Text A) → List MySqlRow → Result Text (List A)
read_all read [] = ok []
read_all read (row ∷ rows) = do a ← read row; rest ← read_all read rows; ok (a ∷ rest)

-- `query_as` on at most one row
abbrev pub read_optional :
    {A : Type 0} → (MySqlRow → Result Text A) → Option MySqlRow → Result Text (Option A)
read_optional read none = ok none
read_optional read (some row) = read row >>= λ a. ok (some a)

-- `filter_map` with `ok()?`: rows that are not read are left out.
unfoldable pub read_some : (MySqlRow → Result Text Text) → List MySqlRow → List Text
read_some read [] = []
read_some read (row ∷ rows) =
    let rest = read_some read rows in elim (read row) [ ok s ↦ s ∷ rest | err e ↦ rest ]

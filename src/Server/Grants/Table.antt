-- ===== src/Server/Grants/Table.antt =====
-- What statements on the table `db` of MySQL do, by their documented meaning, as hypotheses on the
-- connection: a statement that Server/Grants/Syntax reads fails and leaves the table, or does to it
-- what its text and the values bound to it say. Rows stand under their primary key of `Host`, `Db`
-- and `User`. The database of the connection is `mysql`, in strict mode.
use muscl.Prelude.{
  ◌≡◌, Bool, true, false, not, ◌&&◌, ◌||◌, ◌==◌, leb, all, any, length, map, Option, none, some,
  List, [], ◌∷◌, ◌⊎◌, Result, ok, err, if◌then◌else◌,
}
use muscl.Prelude.Text.{Text, codes, text_eq, starts_with}
use muscl.Prelude.Words.{trim_start, is_whitespace}
use muscl.Privileges.Row.{DatabasePrivilegeRow}
use muscl.Privileges.State.{State}
use muscl.Server.Connection.{Connection}
use muscl.Server.Grants.Syntax.{
  Condition, bound, written, Statement, insertion, change, removal, selection, read_statement,
}

-- `Host`, `Db` and `User`.
abbrev pub PrimaryKey : Type 0
PrimaryKey = Text × Text × Text

abbrev same_key : PrimaryKey → PrimaryKey → Bool
same_key (h, d, u) (h', d', u') = text_eq h h' && (text_eq d d' && text_eq u u')

-- The values of the other columns by their names.
abbrev pub Columns : Type 0
Columns = Text → Text

abbrev pub Table : Type 0
Table = PrimaryKey → Option Columns

-- The value that the conditions give to a column.
abbrev value_for : Text → List Condition → List (Option Text) → Option Text
value_for c [] vs = none
value_for c (bound d ∷ cs) [] = none
value_for c (bound d ∷ cs) (v ∷ vs) =
    let later = value_for c cs vs in if text_eq c d then v else later
value_for c (written d w ∷ cs) vs =
    let later = value_for c cs vs in if text_eq c d then some w else later

abbrev as_key : Option Text → Option Text → Option Text → Option PrimaryKey
as_key (some h) (some d) (some u) = some (h, d, u)
as_key _ _ _ = none

abbrev pub key_from : List Condition → List (Option Text) → Option PrimaryKey
key_from cs vs =
    as_key (value_for (codes "Host") cs vs) (value_for (codes "Db") cs vs)
      (value_for (codes "User") cs vs)

-- The key that conditions on its three columns alone give.
abbrev pub key_of : List Condition → List (Option Text) → Option PrimaryKey
key_of cs vs = if length cs == 3 then key_from cs vs else none

-- For these values the collations of the key's columns agree with equality: trailing white space
-- does not count in a comparison, nor does the case of a letter of a host, which is in ASCII.
abbrev pub is_unpadded : Text → Bool
is_unpadded = all (λ c. not (is_whitespace c))

abbrev is_caseless : Text → Bool
is_caseless = all (λ c. leb c 127 && not ((leb b'A' c && leb c b'Z') || (leb b'a' c && leb c b'z')))

abbrev pub is_comparable : PrimaryKey → Bool
is_comparable (h, d, u) = (is_unpadded h && is_caseless h) && (is_unpadded d && is_unpadded u)

abbrev is_key_column : Text → Bool
is_key_column c = text_eq c (codes "Host") || text_eq c (codes "Db") || text_eq c (codes "User")

-- The columns of a row outside its key. The names of columns are not sensitive to case; here they are
-- in lower case.
abbrev privilege_columns : List Text
privilege_columns =
    codes "select_priv"
    ∷ codes "insert_priv"
    ∷ codes "update_priv"
    ∷ codes "delete_priv"
    ∷ codes "create_priv"
    ∷ codes "drop_priv"
    ∷ codes "grant_priv"
    ∷ codes "references_priv"
    ∷ codes "index_priv"
    ∷ codes "alter_priv"
    ∷ codes "create_tmp_table_priv"
    ∷ codes "lock_tables_priv"
    ∷ codes "create_view_priv"
    ∷ codes "show_view_priv"
    ∷ codes "create_routine_priv"
    ∷ codes "alter_routine_priv"
    ∷ codes "execute_priv"
    ∷ codes "event_priv"
    ∷ codes "trigger_priv"
    ∷ []

abbrev is_privilege_column : Text → Bool
is_privilege_column c = any (text_eq c) privilege_columns

abbrev pub is_yn : Text → Bool
is_yn v = text_eq v (codes "Y") || text_eq v (codes "N")

-- The values of an INSERT that its columns can hold: none is NULL, and the columns outside the key
-- hold `Y` or `N`.
abbrev pub is_row : List Text → List (Option Text) → Bool
is_row [] [] = true
is_row (c ∷ cs) (some v ∷ vs) =
    (is_key_column c || (is_privilege_column c && is_yn v)) && is_row cs vs
is_row _ _ = false

-- The values of the columns of an UPDATE, which leave the key, and those of its conditions.
abbrev pub is_change_value : Option Text → Bool
is_change_value none = true
is_change_value (some v) = is_yn v

abbrev pub is_change : List Text → List (Option Text) → Bool
is_change [] vs = true
is_change (c ∷ cs) [] = false
is_change (c ∷ cs) (v ∷ vs) = (is_privilege_column c && is_change_value v) && is_change cs vs

abbrev values_after : List Text → List (Option Text) → List (Option Text)
values_after [] vs = vs
values_after (c ∷ cs) [] = []
values_after (c ∷ cs) (v ∷ vs) = values_after cs vs

-- `COALESCE(v, old)`
abbrev pub coalesce : Option Text → Text → Text
coalesce none old = old
coalesce (some v) old = v

-- The columns take their values, one after the other.
abbrev pub assigned : List Text → List (Option Text) → Columns → Columns
assigned (c ∷ cs) (v ∷ vs) r = assigned cs vs (λ d. if text_eq c d then coalesce v (r d) else r d)
assigned _ vs r = r

-- A column that an INSERT leaves out is `N`, by its default.
abbrev pub defaults : Columns
defaults c = codes "N"

abbrev pub changed_row : (Columns → Columns) → Option Columns → Option Columns
changed_row f none = none
changed_row f (some r) = some (f r)

abbrev pub at_key : (Option Columns → Option Columns) → PrimaryKey → Table → Table
at_key f k table j = if same_key k j then f (table j) else table j

-- The change at a key, where the key is known and its values compare as they are.
abbrev with_key :
    Bool → Option PrimaryKey → (Option Columns → Option Columns) → Option (Table → Table)
with_key b none f = none
with_key b (some k) f = if b && is_comparable k then some (at_key f k) else none

-- What a statement on `db` does with the values bound to it, if it says so by the primary key.
unfoldable pub meaning : Statement → List (Option Text) → Option (Table → Table)
unfolding text_eq
meaning (insertion t cs) vs =
    with_key (text_eq t (codes "db") && is_row cs vs) (key_from (map bound cs) vs)
      (λ old. some (assigned cs vs defaults))
meaning (change t cs conditions) vs =
    with_key (text_eq t (codes "db") && is_change cs vs) (key_of conditions (values_after cs vs))
      (changed_row (assigned cs vs))
meaning (removal t conditions) vs =
    with_key (text_eq t (codes "db")) (key_of conditions vs) (λ old. none)
meaning (selection t cs conditions) vs = none

-- Is the value `Y`, as `rev_yn` reads it?
unfoldable pub is_y : Text → Bool
unfolding text_eq
is_y v = text_eq v (codes "Y") || text_eq v (codes "y")

-- `DatabasePrivilegeRow::from_row`: the database and the user by their names, the others by their
-- place among the columns that are selected.
unfoldable pub row_reader : List Text → Option (PrimaryKey → Columns → DatabasePrivilegeRow)
unfolding text_eq
row_reader
      (c0 ∷ c1 ∷ c2 ∷ c3 ∷ c4 ∷ c5 ∷ c6 ∷ c7 ∷ c8 ∷ c9 ∷ c10 ∷ c11 ∷ c12 ∷ c13 ∷ c14 ∷ c15 ∷ []) =
    if text_eq c0 (codes "Db")
      && text_eq c1 (codes "User")
      && all is_privilege_column
          (c2 ∷ c3 ∷ c4 ∷ c5 ∷ c6 ∷ c7 ∷ c8 ∷ c9 ∷ c10 ∷ c11 ∷ c12 ∷ c13 ∷ c14 ∷ c15 ∷ [])
    then some (λ (h, d, u) r. record {
      db = d;
      user = u;
      select_priv = is_y (r c2);
      insert_priv = is_y (r c3);
      update_priv = is_y (r c4);
      delete_priv = is_y (r c5);
      create_priv = is_y (r c6);
      drop_priv = is_y (r c7);
      alter_priv = is_y (r c8);
      index_priv = is_y (r c9);
      create_tmp_table_priv = is_y (r c10);
      lock_tables_priv = is_y (r c11);
      references_priv = is_y (r c12);
      create_view_priv = is_y (r c13);
      show_view_priv = is_y (r c14);
      trigger_priv = is_y (r c15);
    })
    else none
row_reader _ = none

abbrev pub read_row :
    (PrimaryKey → Columns → DatabasePrivilegeRow)
    → PrimaryKey
    → Option Columns
    → Option DatabasePrivilegeRow
read_row f k none = none
read_row f k (some r) = some (f k r)

-- The key and the reader of a SELECT on `db` by the primary key.
abbrev lookup_by :
    Bool
    → Option PrimaryKey
    → Option (PrimaryKey → Columns → DatabasePrivilegeRow)
    → Option (Table → Option DatabasePrivilegeRow)
lookup_by b (some k) (some f) =
    if b && is_comparable k then some (λ table. read_row f k (table k)) else none
lookup_by b _ _ = none

unfoldable pub selected : Statement → List Text → Option (Table → Option DatabasePrivilegeRow)
unfolding text_eq row_reader
selected (selection t cs conditions) names =
    lookup_by (text_eq t (codes "db")) (key_of conditions (map (λ n. some n) names)) (row_reader cs)
selected _ names = none

-- The statement fails and leaves the table, or succeeds and turns it by the function.
abbrev pub Outcome : {S T E : Type 0} → (S → T) → T → (T → T) → Result E (Unit {0}) × S → Type 0
Outcome {E = E} table before f (r, after) =
    ((r ≡ ok tt) × (table after ≡ f before)) ⊎ ((e : E) × (r ≡ err e) × (table after ≡ before))

-- A query begins with SELECT.
unfoldable pub is_query : Text → Bool
unfolding trim_start starts_with
is_query sql = starts_with (trim_start sql) (codes "SELECT ")

-- `table` is the table `db` in a state of the server, on which no stored function that a query could
-- call writes to it.
pub record ServesGrants {S : Type 0} (connection : Connection S) (table : S → Table) : Type 0 where
  pub any_keeps :
      (sql : Text) (names : List Text) (s : S)
      → is_query sql ≡ true
      → table (connection.fetch_any sql names s).1 ≡ table s
  pub bool_keeps :
      (sql : Text) (names : List Text) (s : S)
      → is_query sql ≡ true
      → table (connection.fetch_bool sql names s).1 ≡ table s
  pub privilege_keeps :
      (sql : Text) (names : List Text) (s : S)
      → is_query sql ≡ true
      → table (connection.fetch_privilege sql names s).1 ≡ table s
  pub finds :
      (sql : Text) (names : List Text) (s : S) (statement : Statement)
      (f : Table → Option DatabasePrivilegeRow) (row : Option DatabasePrivilegeRow)
      → read_statement sql ≡ some statement
      → selected statement names ≡ some f
      → (connection.fetch_privilege sql names s).0 ≡ ok row
      → row ≡ f (table s)
  pub flush_keeps : (s : S) → table (connection.execute (codes "FLUSH PRIVILEGES") [] s).1 ≡ table s
  pub executes :
      (sql : Text) (values : List (Option Text)) (s : S) (statement : Statement) (f : Table → Table)
      → read_statement sql ≡ some statement
      → meaning statement values ≡ some f
      → Outcome table (table s) f (connection.execute sql values s)

-- The row of a database and user for any host, `%`.
unfoldable pub row_of : Text → Text → Columns → DatabasePrivilegeRow
unfolding is_y
row_of db u r = record {
  db = db;
  user = u;
  select_priv = is_y (r (codes "select_priv"));
  insert_priv = is_y (r (codes "insert_priv"));
  update_priv = is_y (r (codes "update_priv"));
  delete_priv = is_y (r (codes "delete_priv"));
  create_priv = is_y (r (codes "create_priv"));
  drop_priv = is_y (r (codes "drop_priv"));
  alter_priv = is_y (r (codes "alter_priv"));
  index_priv = is_y (r (codes "index_priv"));
  create_tmp_table_priv = is_y (r (codes "create_tmp_table_priv"));
  lock_tables_priv = is_y (r (codes "lock_tables_priv"));
  references_priv = is_y (r (codes "references_priv"));
  create_view_priv = is_y (r (codes "create_view_priv"));
  show_view_priv = is_y (r (codes "show_view_priv"));
  trigger_priv = is_y (r (codes "trigger_priv"));
}

abbrev pub any_host : Text
any_host = codes "%"

-- The privileges that the table has for any host.
abbrev pub privileges : Table → State
privileges table (db, u) =
    read_row (λ (h, d, v) r. row_of d v r) (any_host, db, u) (table (any_host, db, u))

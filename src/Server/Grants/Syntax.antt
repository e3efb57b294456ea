-- ===== src/Server/Grants/Syntax.antt =====
-- A reader of the statements on one table that MySQL documents: INSERT with a mark for every column,
-- UPDATE of columns by COALESCE, DELETE and SELECT, each with a WHERE of equations joined by AND.
-- What it does not read is not spoken of. Names stand in backquotes, keywords in capitals.
use muscl.Prelude.{
  ℕ, ◌+◌, Bool, ◌&&◌, ◌||◌, ◌==◌, leb, Option, none, some, List, [], ◌∷◌, ◌++◌, length,
  if◌then◌else◌,
}
use muscl.Prelude.Text.{Text, codes, text_eq}

pub data Keyword : Type 0 where
  insert into values update set coalesce where_word and_word delete from select other : Keyword

keyword_of : Text → Keyword
unfolding text_eq
keyword_of w =
    if text_eq w (codes "INSERT")
    then insert
    else if text_eq w (codes "INTO")
    then into
    else if text_eq w (codes "VALUES")
    then values
    else if text_eq w (codes "UPDATE")
    then update
    else if text_eq w (codes "SET")
    then set
    else if text_eq w (codes "COALESCE")
    then coalesce
    else if text_eq w (codes "WHERE")
    then where_word
    else if text_eq w (codes "AND")
    then and_word
    else if text_eq w (codes "DELETE")
    then delete
    else if text_eq w (codes "FROM")
    then from
    else if text_eq w (codes "SELECT")
    then select
    else other

-- Two names or two values that touch are read as two tokens, which no statement below has.
pub data Token : Type 0 where
  word : Keyword → Token
  name value : Text → Token
  comma open_paren close_paren equals question other_symbol : Token

pub data LexState : Type 0 where
  between : LexState
  in_word in_name in_value : Text → LexState

abbrev is_letter : ℕ → Bool
is_letter c = (leb b'A' c && leb c b'Z') || (leb b'a' c && leb c b'z') || c == b'_'

symbol : ℕ → Token
symbol c =
    if c == b','
    then comma
    else if c == b'('
    then open_paren
    else if c == b')'
    then close_paren
    else if c == b'='
    then equals
    else if c == b'?'
    then question
    else other_symbol

abbrev emit : Token → Option (List Token) → Option (List Token)
emit t none = none
emit t (some ts) = some (t ∷ ts)

tokens : LexState → Text → Option (List Token)
unfolding keyword_of symbol
tokens between [] = some []
tokens (in_word w) [] = some (word (keyword_of w) ∷ [])
tokens (in_name w) [] = none
tokens (in_value w) [] = none
tokens between (c ∷ s) =
    let space = tokens between s in
    let named = tokens (in_name []) s in
    let valued = tokens (in_value []) s in
    let worded = tokens (in_word (c ∷ [])) s in
    if c == b' '
    then space
    else if c == b'`'
    then named
    else if c == b'\''
    then valued
    else if is_letter c
    then worded
    else emit (symbol c) space
tokens (in_word w) (c ∷ s) =
    let space = tokens between s in
    let named = tokens (in_name []) s in
    let valued = tokens (in_value []) s in
    let worded = tokens (in_word (w ++ c ∷ [])) s in
    if is_letter c
    then worded
    else emit (word (keyword_of w)) (
        if c == b' '
        then space
        else if c == b'`'
        then named
        else if c == b'\''
        then valued
        else emit (symbol c) space)
tokens (in_name w) (c ∷ s) =
    let closed = emit (name w) (tokens between s) in
    let more = tokens (in_name (w ++ c ∷ [])) s in if c == b'`' then closed else more
tokens (in_value w) (c ∷ s) =
    let closed = emit (value w) (tokens between s) in
    let more = tokens (in_value (w ++ c ∷ [])) s in
    if c == b'\'' then closed else if c == b'\\' then none else more

-- An equation of a column with the next bound value, or with a value that is written out.
pub data Condition : Type 0 where
  bound : Text → Condition
  written : Text → Text → Condition

-- Each begins with the name of its table.
pub data Statement : Type 0 where
  insertion : Text → List Text → Statement
  change : Text → List Text → List Condition → Statement
  removal : Text → List Condition → Statement
  selection : Text → List Text → List Condition → Statement

abbrev add_condition : Condition → Option (List Condition) → Option (List Condition)
add_condition c none = none
add_condition c (some cs) = some (c ∷ cs)

conditions : List Token → Option (List Condition)
conditions (name c ∷ equals ∷ question ∷ []) = some (bound c ∷ [])
conditions (name c ∷ equals ∷ question ∷ word and_word ∷ ts) =
    add_condition (bound c) (conditions ts)
conditions (name c ∷ equals ∷ value v ∷ []) = some (written c v ∷ [])
conditions (name c ∷ equals ∷ value v ∷ word and_word ∷ ts) =
    add_condition (written c v) (conditions ts)
conditions _ = none

-- The marks, to the closing parenthesis.
marks : List Token → Option ℕ
marks (question ∷ close_paren ∷ []) = some 1
marks (question ∷ comma ∷ ts) = elim (marks ts) [ some n ↦ some (1 + n) | none ↦ none ]
marks _ = none

abbrev as_insertion : Text → List Text → Option ℕ → Option Statement
as_insertion table columns none = none
as_insertion table columns (some n) =
    if n == length columns then some (insertion table columns) else none

insertion_of : Text → List Text → List Token → Option Statement
unfolding marks
insertion_of table columns (name c ∷ comma ∷ ts) = insertion_of table (columns ++ c ∷ []) ts
insertion_of table columns (name c ∷ close_paren ∷ word values ∷ open_paren ∷ ts) =
    as_insertion table (columns ++ c ∷ []) (marks ts)
insertion_of table columns _ = none

abbrev as_statement : (List Condition → Statement) → Option (List Condition) → Option Statement
as_statement f none = none
as_statement f (some cs) = some (f cs)

change_of : Text → List Text → List Token → Option Statement
unfolding conditions text_eq
change_of table columns
      (name c
        ∷ equals
        ∷ word coalesce
        ∷ open_paren
        ∷ question
        ∷ comma
        ∷ name d
        ∷ close_paren
        ∷ comma
        ∷ ts) =
    let rest = change_of table (columns ++ c ∷ []) ts in if text_eq c d then rest else none
change_of table columns
      (name c
        ∷ equals
        ∷ word coalesce
        ∷ open_paren
        ∷ question
        ∷ comma
        ∷ name d
        ∷ close_paren
        ∷ word where_word
        ∷ ts) =
    if text_eq c d then as_statement (change table (columns ++ c ∷ [])) (conditions ts) else none
change_of table columns _ = none

selection_of : List Text → List Token → Option Statement
unfolding conditions
selection_of columns (name c ∷ comma ∷ ts) = selection_of (columns ++ c ∷ []) ts
selection_of columns (name c ∷ word from ∷ name table ∷ word where_word ∷ ts) =
    as_statement (selection table (columns ++ c ∷ [])) (conditions ts)
selection_of columns _ = none

statement_of : Option (List Token) → Option Statement
unfolding insertion_of change_of selection_of conditions
statement_of (some (word insert ∷ word into ∷ name table ∷ open_paren ∷ ts)) =
    insertion_of table [] ts
statement_of (some (word update ∷ name table ∷ word set ∷ ts)) = change_of table [] ts
statement_of (some (word delete ∷ word from ∷ name table ∷ word where_word ∷ ts)) =
    as_statement (removal table) (conditions ts)
statement_of (some (word select ∷ ts)) = selection_of [] ts
statement_of _ = none

unfoldable pub read_statement : Text → Option Statement
unfolding tokens statement_of
read_statement sql = statement_of (tokens between sql)

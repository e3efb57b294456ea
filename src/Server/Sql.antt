-- ===== src/Server/Sql.antt =====
-- server/sql.rs: the quoting of names and values in statements.
pub mod Lexer
mod Tests
use muscl.Prelude.{ℕ, List, [], ◌∷◌, ◌++◌, ◌==◌, if◌then◌else◌}
use muscl.Prelude.Text.{Text, codes}

-- `str::replace` of one character by a text.
unfoldable pub replace : ℕ → Text → Text → Text
replace c by [] = []
replace c by (x ∷ s) = let rest = replace c by s in if x == c then by ++ rest else x ∷ rest

unfoldable pub quote_literal : Text → Text
quote_literal s =
    codes "'" ++ (replace b'\'' (codes "\\'") (replace b'\\' (codes "\\\\") s) ++ codes "'")

unfoldable pub quote_identifier : Text → Text
quote_identifier s = codes "`" ++ (replace b'`' (codes "``") s ++ codes "`")

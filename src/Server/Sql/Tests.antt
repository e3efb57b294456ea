-- ===== src/Server/Sql/Tests.antt =====
-- Runs of the quoting, and its theorems at sample texts.
use muscl.Prelude.{◌≡◌, refl, some, ◌++◌}
use muscl.Prelude.Text.{codes}
use muscl.Server.Sql.{quote_literal, quote_identifier, replace}
use muscl.Server.Sql.Lexer.{read_literal, read_literal-quote_literal}

quoted :
    (quote_literal (codes "' OR 1=1 --") ≡ codes "'\\' OR 1=1 --'")
    × (quote_identifier (codes "` OR 1=1 --") ≡ codes "``` OR 1=1 --`")
unfolding quote_literal quote_identifier replace
quoted = (refl, refl)

read_literal-quote_literal_example :
    read_literal (quote_literal (codes "\\'; --") ++ codes "@'%'")
    ≡ some (codes "\\'; --", codes "@'%'")
read_literal-quote_literal_example =
    read_literal-quote_literal (codes "\\'; --") (codes "@'%'") refl

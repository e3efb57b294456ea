-- ===== src/Server/Sql/Lexer.antt =====
-- How MySQL reads a quoted name or value at the start of a text, by its documented syntax: a
-- backquote is doubled inside a name; inside a value a backslash takes the next character, and two
-- quotes stand for one. The escapes for control characters (`\n`, `\0`) do not occur in what
-- `quote_literal` writes, where a backslash or a quote follows each backslash, and are left out.
use muscl.Prelude.{
  ℕ, ◌≡◌, refl, ap, Option, none, some, [], ◌∷◌, ◌++◌, false, ◌==◌, ==_iff, Bool-cases, inl, inr,
  if◌then◌else◌, arith,
}
use muscl.Prelude.Text.{Text, codes}
use muscl.Server.Sql.{replace, quote_literal, quote_identifier}

-- The rest of a quoted name whose opening backquote is read, and what stands behind it. In the
-- middle of a text `after_backquote` says that the last character was a backquote.
data NameState : Type 0 where
  inside after_backquote : NameState

add : ℕ → Option (Text × Text) → Option (Text × Text)
add c (some (s, rest)) = some (c ∷ s, rest)
add c none = none

read_name : NameState → Text → Option (Text × Text)
unfolding add
read_name inside [] = none
read_name inside (c ∷ t) =
    let close = read_name after_backquote t in
    let more = add c (read_name inside t) in if c == b'`' then close else more
read_name after_backquote [] = some ([], [])
read_name after_backquote (c ∷ t) =
    let more = add c (read_name inside t) in if c == b'`' then more else some ([], c ∷ t)

pub read_identifier : Text → Option (Text × Text)
unfolding read_name
read_identifier [] = none
read_identifier (c ∷ t) = let r = read_name inside t in if c == b'`' then r else none

data ValueState : Type 0 where
  inside after_backslash after_quote : ValueState

read_value : ValueState → Text → Option (Text × Text)
unfolding add
read_value ValueState.inside [] = none
read_value ValueState.inside (c ∷ t) =
    let escaped = read_value after_backslash t in
    let close = read_value after_quote t in
    let more = add c (read_value ValueState.inside t) in
    if c == b'\\' then escaped else if c == b'\'' then close else more
read_value after_backslash [] = none
read_value after_backslash (c ∷ t) = add c (read_value ValueState.inside t)
read_value after_quote [] = some ([], [])
read_value after_quote (c ∷ t) =
    let more = add c (read_value ValueState.inside t) in
    if c == b'\'' then more else some ([], c ∷ t)

pub read_literal : Text → Option (Text × Text)
unfolding read_value
read_literal [] = none
read_literal (c ∷ t) = let r = read_value ValueState.inside t in if c == b'\'' then r else none

-- The text does not start with the character.
abbrev pub StartsOther : ℕ → Text → Type 0
StartsOther c [] = Unit
StartsOther c (x ∷ t) = x == c ≡ false

read_name-replace :
    (s rest : Text)
    → StartsOther b'`' rest
    → read_name inside ((replace b'`' (codes "``") s ++ codes "`") ++ rest) ≡ some (s, rest)
unfolding read_name add replace
read_name-replace [] [] h = refl
read_name-replace [] (c ∷ rest) h = rw (h, read_name) refl
read_name-replace (c ∷ s) rest h = ground (arith, read_name-replace s rest h)

-- Whatever the name, the server reads `quote_identifier` of it back as that very name, and reads
-- on behind it.
pub read_identifier-quote_identifier :
    (s rest : Text)
    → StartsOther b'`' rest
    → read_identifier (quote_identifier s ++ rest) ≡ some (s, rest)
unfolding read_identifier quote_identifier
read_identifier-quote_identifier s rest h = read_name-replace s rest h

read_value-replace :
    (s rest : Text)
    → StartsOther b'\'' rest
    → read_value ValueState.inside
        ((replace b'\'' (codes "\\'") (replace b'\\' (codes "\\\\") s) ++ codes "'") ++ rest)
      ≡ some (s, rest)
unfolding read_value add replace
read_value-replace [] [] h = refl
read_value-replace [] (c ∷ rest) h = rw (h, read_value) refl
read_value-replace (c ∷ s) rest h =
    let ih = read_value-replace s rest h in
    elim (Bool-cases (c == b'\\')) [
      | inl e ↦ let same = (==_iff c b'\\').0 e in rw same (ap (add b'\\') ih)
      | inr e ↦ elim (Bool-cases (c == b'\'')) [
        | inl e' ↦ let same = (==_iff c b'\'').0 e' in rw same (ap (add b'\'') ih)
        | inr e' ↦
            rw (e, replace)
              (rw (e', replace) (rw (e, read_value) (rw (e', read_value) (ap (add c) ih))))
      ]
    ]

-- Whatever the value, the server reads `quote_literal` of it back as that very value, and reads on
-- behind it.
pub read_literal-quote_literal :
    (s rest : Text)
    → StartsOther b'\'' rest
    → read_literal (quote_literal s ++ rest) ≡ some (s, rest)
unfolding read_literal quote_literal
read_literal-quote_literal s rest h = read_value-replace s rest h

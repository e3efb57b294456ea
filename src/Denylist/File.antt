-- ===== src/Denylist/File.antt =====
-- server/authorization.rs: the file of the group denylist. The warnings about lines that are skipped
-- are left out.
use muscl.Prelude.{
  ℕ, ◌+◌, ◌-◌, Bool, ◌&&◌, ◌||◌, ◌==◌, leb, ltb, if◌then◌else◌, any, Option, none, some, List, [],
  ◌∷◌, is_empty_list,
}
use Prim.Native.Nat.{◌*◌}
use muscl.Prelude.Text.{Text, codes, text_eq}
use muscl.Prelude.Words.{trim}
use muscl.Denylist.{
  Group, Regexes, GroupNamePattern, GroupDenylist, new_denylist, insert_gid, insert_name_pattern,
  normalize, to_regex,
}

-- What stands before the first `#`.
unfoldable pub before_comment : Text → Text
before_comment [] = []
before_comment (c ∷ s) = let rest = before_comment s in if c == b'#' then [] else c ∷ rest

-- `splitn(2, ':')`: the two parts, or `none` for a text without a colon.
abbrev pub prepend_first : ℕ → Option (Text × Text) → Option (Text × Text)
prepend_first c none = none
prepend_first c (some (s, t)) = some (c ∷ s, t)

unfoldable pub split_colon : Text → Option (Text × Text)
split_colon [] = none
split_colon (c ∷ s) =
    let rest = split_colon s in if c == b':' then some ([], s) else prepend_first c rest

-- The number that the digits write after the digits read so far.
unfoldable pub digits_from : ℕ → Text → Option ℕ
digits_from n [] = some n
digits_from n (c ∷ s) =
    let rest = digits_from (n * 10 + (c - b'0')) s in
    if leb b'0' c && leb c b'9' then rest else none

abbrev below : ℕ → Option ℕ → Option ℕ
below limit none = none
below limit (some n) = if ltb n limit then some n else none

-- `str::parse::<u32>`: a plus sign is allowed before the digits, of which there is one at least.
unfoldable pub parse_u32 : Text → Option ℕ
unfolding digits_from
parse_u32 [] = none
parse_u32 (c ∷ []) = below 4294967296 (digits_from 0 (c ∷ []))
parse_u32 (c ∷ d ∷ s) =
    below 4294967296 (if c == b'+' then digits_from 0 (d ∷ s) else digits_from 0 (c ∷ d ∷ s))

-- What a line adds to the denylist.
pub data Entry : Type 0 where
  gid : ℕ → Entry
  name_pattern : GroupNamePattern → Entry

abbrev group_gid : Option Group → Option Entry
group_gid none = none
group_gid (some group) = some (gid group.gid)

-- `contains(['*', '?'])`
abbrev pub has_wildcard : Text → Bool
has_wildcard = any (λ c. c == b'*' || c == b'?')

-- `Group::from_gid` and `Group::from_name` are calls of the system; `none` is an error, or no group.
module _ (from_gid : ℕ → Option Group) (from_name : Text → Option Group) (regexes : Regexes) where
  abbrev gid_entry : Option ℕ → Option Entry
  gid_entry none = none
  gid_entry (some n) = group_gid (from_gid n)

  abbrev pub pattern_entry : GroupNamePattern → Option Entry
  pattern_entry pattern = elim (to_regex regexes pattern) [
    | some r ↦ some (name_pattern pattern)
    | none ↦ none
  ]

  -- `match parts[0]`
  unfoldable pub entry_of_parts : Option (Text × Text) → Option Entry
  unfolding text_eq parse_u32 normalize
  entry_of_parts none = none
  entry_of_parts (some (kind, value)) =
      if text_eq kind (codes "gid")
      then gid_entry (parse_u32 value)
      else if text_eq kind (codes "group") && has_wildcard value
      then pattern_entry (normalize value)
      else if text_eq kind (codes "group")
      then group_gid (from_name value)
      else none

  unfoldable pub entry_of_line : Text → Option Entry
  unfolding before_comment trim split_colon entry_of_parts
  entry_of_line line =
      let trimmed_line = trim (before_comment line) in
      if is_empty_list trimmed_line then none else entry_of_parts (split_colon trimmed_line)

  unfoldable pub insert_entry : Option Entry → GroupDenylist → GroupDenylist
  unfolding insert_gid insert_name_pattern
  insert_entry none groups = groups
  insert_entry (some (gid n)) groups = insert_gid n groups
  insert_entry (some (name_pattern p)) groups = insert_name_pattern p groups

  -- `for (line_number, line) in lines.enumerate()`
  unfoldable pub insert_lines : List Text → GroupDenylist → GroupDenylist
  unfolding insert_entry entry_of_line
  insert_lines [] groups = groups
  insert_lines (line ∷ lines) groups = insert_lines lines (insert_entry (entry_of_line line) groups)

  unfoldable pub parse_group_denylist : List Text → GroupDenylist
  unfolding insert_lines
  parse_group_denylist lines = insert_lines lines new_denylist

-- ===== src/Denylist/Lines.antt =====
-- server/authorization.rs: a line of the denylist's file denies the groups that it stands for,
-- whatever the other lines are.
use muscl.Prelude.{
  ◌≡◌, refl, ap, ◌∙◌, ℕ, Bool, true, false, ◌==◌, ◌||◌, ◌&&◌, any, Option, none, some, List, [],
  ◌∷◌, ◌++◌, All, inl, arith,
}
use muscl.Prelude.Text.{Text, codes, text_eq}
use muscl.Prelude.Columns.{IsSolid, trim-IsSolid}
use muscl.Denylist.{
  Group, Regexes, GroupNamePattern, GroupDenylist, new_denylist, contains, insert_gid,
  insert_name_pattern, normalize, to_regex, denies,
}
use muscl.Denylist.Pattern.{glob, glob-normalize}
use muscl.Denylist.Regex.{FollowsSyntax}
use muscl.Denylist.Cache.{compiles, matches_exact}
use muscl.Denylist.File.{
  before_comment, split_colon, Entry, gid, name_pattern, has_wildcard, pattern_entry,
  entry_of_parts, entry_of_line, insert_entry, insert_lines, parse_group_denylist,
}

-- A pattern compiles and stands for the name of the group; and its id is listed, or there is such a
-- pattern.
abbrev pub stands : Regexes → Group → GroupNamePattern → Bool
stands regexes group p = compiles regexes p && glob p group.name

abbrev listed : Regexes → Group → GroupDenylist → Bool
listed regexes group d = contains d.gids group.gid || any (stands regexes group) d.name_patterns

abbrev pub stands_for : Regexes → Group → Entry → Bool
stands_for regexes group (gid n) = n == group.gid
stands_for regexes group (name_pattern p) = stands regexes group p

any-push :
    (f : GroupNamePattern → Bool) (ps : List GroupNamePattern) (p : GroupNamePattern)
    → any f (ps ++ p ∷ []) ≡ (any f ps || f p)
any-push f [] p = ground arith
any-push f (q ∷ ps) p = ground (arith, any-push f ps p)

module _ (from_gid : ℕ → Option Group) (from_name : Text → Option Group) (regexes : Regexes)
    (group : Group) where
  insert_entry-listed :
      (e : Option Entry) (d : GroupDenylist)
      → listed regexes group d ≡ true
      → listed regexes group (insert_entry from_gid from_name regexes e d) ≡ true
  unfolding insert_entry insert_gid insert_name_pattern
  insert_entry-listed none d h = h
  insert_entry-listed (some (gid n)) d h = ground (arith, h)
  insert_entry-listed (some (name_pattern p)) d h =
      rw (any-push (stands regexes group) d.name_patterns p) (ground (arith, h))

  insert_entry-stands_for :
      (e : Entry) (d : GroupDenylist)
      → stands_for regexes group e ≡ true
      → listed regexes group (insert_entry from_gid from_name regexes (some e) d) ≡ true
  unfolding insert_entry insert_gid insert_name_pattern
  insert_entry-stands_for (gid n) d h = ground (arith, h)
  insert_entry-stands_for (name_pattern p) d h =
      rw (any-push (stands regexes group) d.name_patterns p) (ground (arith, h))

  insert_lines-listed :
      (ls : List Text) (d : GroupDenylist)
      → listed regexes group d ≡ true
      → listed regexes group (insert_lines from_gid from_name regexes ls d) ≡ true
  unfolding insert_lines
  insert_lines-listed [] d h = h
  insert_lines-listed (l ∷ ls) d h =
      let e = entry_of_line from_gid from_name regexes l in
      insert_lines-listed ls (insert_entry from_gid from_name regexes e d)
        (insert_entry-listed e d h)

  insert_lines-entry :
      (before after : List Text) (line : Text) (e : Entry) (d : GroupDenylist)
      → entry_of_line from_gid from_name regexes line ≡ some e
      → stands_for regexes group e ≡ true
      → listed regexes group (insert_lines from_gid from_name regexes (before ++ (line ∷ after)) d)
        ≡ true
  unfolding insert_lines
  insert_lines-entry [] after line e d h k =
      rw (h, insert_lines)
        (insert_lines-listed after (insert_entry from_gid from_name regexes (some e) d)
          (insert_entry-stands_for e d k))
  insert_lines-entry (b ∷ before) after line e d h k =
      insert_lines-entry before after line e
        (insert_entry from_gid from_name regexes (entry_of_line from_gid from_name regexes b) d) h k

  -- The cache stays empty while the file is read.
  insert_entry-empty :
      (e : Option Entry) (d : GroupDenylist)
      → d.compiled_name_patterns ≡ none
      → GroupDenylist.compiled_name_patterns (insert_entry from_gid from_name regexes e d) ≡ none
  unfolding insert_entry insert_gid insert_name_pattern
  insert_entry-empty none d h = h
  insert_entry-empty (some (gid n)) d h = h
  insert_entry-empty (some (name_pattern p)) d h = refl

  insert_lines-empty :
      (ls : List Text) (d : GroupDenylist)
      → d.compiled_name_patterns ≡ none
      → GroupDenylist.compiled_name_patterns (insert_lines from_gid from_name regexes ls d) ≡ none
  unfolding insert_lines
  insert_lines-empty [] d h = h
  insert_lines-empty (l ∷ ls) d h =
      let e = entry_of_line from_gid from_name regexes l in
      insert_lines-empty ls (insert_entry from_gid from_name regexes e d) (insert_entry-empty e d h)

  entry_denies :
      (before after : List Text) (line : Text) (e : Entry)
      → FollowsSyntax regexes
      → entry_of_line from_gid from_name regexes line ≡ some e
      → stands_for regexes group e ≡ true
      → denies regexes
          (parse_group_denylist from_gid from_name regexes (before ++ (line ∷ after)))
          group
        ≡ true
  unfolding parse_group_denylist
  entry_denies before after line e follows h k =
      matches_exact regexes
        (insert_lines from_gid from_name regexes (before ++ (line ∷ after)) new_denylist) group
        follows (inl (insert_lines-empty (before ++ (line ∷ after)) new_denylist refl))
      ∙ insert_lines-entry before after line e new_denylist h k

-- A text without the sign of a comment and without white space.
abbrev pub IsPlainValue : Text → Type 0
IsPlainValue s = IsSolid s × All (λ c. (c == b'#') ≡ false) s

before_comment-plain : (s : Text) → All (λ c. (c == b'#') ≡ false) s → before_comment s ≡ s
unfolding before_comment
before_comment-plain [] h = refl
before_comment-plain (c ∷ s) h =
    rw (h.0, before_comment) (ap (λ rest. c ∷ rest) (before_comment-plain s h.1))

module _ (from_gid : ℕ → Option Group) (from_name : Text → Option Group) (regexes : Regexes) where
  pattern_entry-some :
      (p : GroupNamePattern) (r : Text → Bool)
      → to_regex regexes p ≡ some r
      → pattern_entry from_gid from_name regexes p ≡ some (name_pattern p)
  pattern_entry-some p r h = rw (h, pattern_entry) refl

  entry_of_line-group :
      (value : Text)
      → IsPlainValue value
      → entry_of_line from_gid from_name regexes (codes "group:" ++ value)
        ≡ entry_of_parts from_gid from_name regexes (some (codes "group", value))
  unfolding entry_of_line split_colon before_comment
  entry_of_line-group value (solid, plain) = rw (before_comment-plain value plain) (
      rw
        (trim-IsSolid (codes "group:" ++ value)
          (refl, (refl, (refl, (refl, (refl, (refl, solid)))))))
        refl)

  -- If the crate `regex` follows its documented syntax, the line `group:` with a pattern that has a
  -- wildcard, has neither a `#` nor white space, and compiles, denies every group whose name the
  -- pattern stands for, whatever the other lines of the file are.
  pub pattern_line_denies :
      (before after : List Text) (pattern : Text) (r : Text → Bool) (group : Group)
      → FollowsSyntax regexes
      → IsPlainValue pattern
      → has_wildcard pattern ≡ true
      → to_regex regexes (normalize pattern) ≡ some r
      → glob pattern group.name ≡ true
      → denies regexes
          (parse_group_denylist from_gid from_name regexes
            (before ++ ((codes "group:" ++ pattern) ∷ after)))
          group
        ≡ true
  unfolding entry_of_parts text_eq
  pattern_line_denies before after pattern r group follows plain wild compiled stands_there =
      entry_denies from_gid from_name regexes group before after (codes "group:" ++ pattern)
        (name_pattern (normalize pattern)) follows
        (entry_of_line-group pattern plain
          ∙ rw wild (pattern_entry-some (normalize pattern) r compiled))
        (rw (compiled, compiles) (glob-normalize pattern group.name ∙ stands_there))

-- ===== src/Denylist.antt =====
-- The group denylist of core/protocol/request_validation.rs: the patterns of group names, their
-- normal form and regular expressions, and the list with its cache of compiled expressions.
-- The crate `regex` and the struct `Group` of the crate `nix` are not part of the repository:
-- `Regexes` has the two functions of the crate that are called.
pub mod Pattern
pub mod Regex
pub mod Cache
pub mod Engine
pub mod File
pub mod Lines
mod Tests
use muscl.Prelude.{
  ℕ, ◌+◌, ◌++◌, Bool, true, false, ◌||◌, Option, none, some, List, [], ◌∷◌, any, ◌==◌, length,
  is_empty_list, ◌&&◌, if◌then◌else◌,
}
use muscl.Prelude.Text.{Text, codes}

-- `nix::unistd::Group`, of which the name and the id are used.
pub record Group : Type 0 where
  pub name : Text
  pub gid : ℕ

-- `regex::escape` on one character, and `Regex::new` with `is_match`; `none` is the error.
pub record Regexes : Type 0 where
  pub escape : ℕ → Text
  pub compile : Text → Option (Text → Bool)

-- `GroupNamePattern`, a text in normal form.
abbrev pub GroupNamePattern : Type 0
GroupNamePattern = Text

abbrev pub star : ℕ
star = b'*'

abbrev pub question : ℕ
question = b'?'

abbrev pub repeat : ℕ → ℕ → Text → Text
repeat ℕ.zero c s = s
repeat (ℕ.suc n) c s = c ∷ repeat n c s

-- What a run of wildcards is written as, before the text that follows.
abbrev pub flush : ℕ → Bool → Text → Text
flush question_marks has_star rest =
    repeat question_marks question (if has_star then star ∷ rest else rest)

-- The loop of `normalize`: outside a run (`none`), or inside one, with the number of question
-- marks and whether a star was met. The character that ends a run is no wildcard, and the outer
-- loop pushes it.
unfoldable pub normalize_from : Option (ℕ × Bool) → Text → Text
normalize_from none [] = []
normalize_from (some (q, has_star)) [] = flush q has_star []
normalize_from none (c ∷ cs) =
    let one = normalize_from (some (1, false)) cs in
    let many = normalize_from (some (0, true)) cs in
    let plain = normalize_from none cs in
    if c == question then one else if c == star then many else c ∷ plain
normalize_from (some (q, has_star)) (c ∷ cs) =
    let one = normalize_from (some (q + 1, has_star)) cs in
    let many = normalize_from (some (q, true)) cs in
    let plain = normalize_from none cs in
    if c == question then one else if c == star then many else flush q has_star (c ∷ plain)

-- `GroupNamePattern::new`
unfoldable pub normalize : Text → GroupNamePattern
unfolding normalize_from
normalize pattern = normalize_from none pattern

module _ (regexes : Regexes) where
  abbrev regex_part : ℕ → Text
  regex_part c =
      if c == star then codes ".*" else if c == question then codes "." else regexes.escape c

  abbrev regex_parts : GroupNamePattern → Text
  regex_parts [] = []
  regex_parts (c ∷ cs) = regex_part c ++ regex_parts cs

  -- `GroupNamePattern::to_regex`
  pub to_regex : GroupNamePattern → Option (Text → Bool)
  to_regex pattern = regexes.compile (codes "^" ++ (regex_parts pattern ++ codes "$"))

-- `compiled_name_patterns` is a `OnceLock`: empty, or filled once.
pub record GroupDenylist : Type 0 where
  pub gids : List ℕ
  pub name_patterns : List GroupNamePattern
  pub compiled_name_patterns : Option (List (Text → Bool))

-- `GroupDenylist::new`
abbrev pub new_denylist : GroupDenylist
new_denylist = record { gids = []; name_patterns = []; compiled_name_patterns = none }

-- `HashSet::contains`
abbrev pub contains : List ℕ → ℕ → Bool
contains [] g = false
contains (x ∷ xs) g = x == g || contains xs g

-- `GroupDenylist::insert_gid`
pub insert_gid : ℕ → GroupDenylist → GroupDenylist
insert_gid gid d = record d { gids = if contains d.gids gid then d.gids else gid ∷ d.gids }

abbrev push : List GroupNamePattern → GroupNamePattern → List GroupNamePattern
push xs x = xs ++ x ∷ []

-- `GroupDenylist::insert_name_pattern`
pub insert_name_pattern : GroupNamePattern → GroupDenylist → GroupDenylist
insert_name_pattern pattern d = record d {
  name_patterns = push d.name_patterns pattern;
  compiled_name_patterns = none;
}

-- `Clone` leaves the cache empty.
pub clone : GroupDenylist → GroupDenylist
clone d = record d { compiled_name_patterns = none }

pub is_empty : GroupDenylist → Bool
is_empty d = is_empty_list d.gids && is_empty_list d.name_patterns

pub size : GroupDenylist → ℕ
size d = length d.gids + length d.name_patterns

module _ (regexes : Regexes) where
  -- `.filter_map(|pattern| pattern.to_regex().ok())`
  abbrev compile_all : List GroupNamePattern → List (Text → Bool)
  compile_all [] = []
  compile_all (p ∷ ps) = elim (to_regex regexes p) [
    | none ↦ compile_all ps
    | some r ↦ r ∷ compile_all ps
  ]

  -- `compiled_name_pattern_regexes`: the expressions, and the list with its cache filled.
  pub compiled_name_pattern_regexes : GroupDenylist → List (Text → Bool) × GroupDenylist
  unfolding to_regex
  compiled_name_pattern_regexes d = elim d.compiled_name_patterns [
    | some regs ↦ (regs, d)
    | none ↦
        let regs = compile_all d.name_patterns in
        (regs, record d { compiled_name_patterns = some regs })
  ]

  -- `GroupDenylist::matches`. The cache is filled only where the group id does not decide.
  unfoldable pub matches : GroupDenylist → Group → Bool × GroupDenylist
  unfolding compiled_name_pattern_regexes
  matches d group =
      if contains d.gids group.gid
      then (true, d)
      else (let (regs, d') = compiled_name_pattern_regexes d in (any (λ r. r group.name) regs, d'))

  -- The answer of `matches` alone, for callers that keep the list.
  abbrev pub denies : GroupDenylist → Group → Bool
  denies d group = (matches d group).0

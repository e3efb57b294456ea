-- ===== src/Denylist/Regex.antt =====
-- The documented syntax and meaning of the expressions of the crate `regex`, as far as a reader of
-- anchors, characters, `.` and `.*` goes: an expression that it does not read is not spoken of.
use muscl.Prelude.{
  ℕ, ◌≡◌, refl, ap, ◌∙◌, true, false, Bool, ◌&&◌, ◌||◌, Option, none, some, List, [], ◌∷◌, ◌++◌,
  ◌==◌, any, is_empty_list, Bool-cases, inl, inr, if◌then◌else◌, arith,
}
use muscl.Prelude.Text.{Text, codes}
use muscl.Denylist.{Regexes, star, question, regex_parts, to_regex}
use muscl.Denylist.Pattern.{Language, not_newline, literal, any_one, any_text, glob}

-- The characters with a meaning of their own, of which `escape` speaks.
abbrev pub meta_characters : Text
meta_characters = codes "\\.+*?()|[]{}^$#&-~"

abbrev pub is_meta : ℕ → Bool
is_meta c = any (λ d. d == c) meta_characters

abbrev pub backslash : ℕ
backslash = 92

-- `^`, `$`, `.`, `.*` and a character for itself.
pub data Part : Type 0 where
  start_of_text end_of_expression one many : Part
  character : ℕ → Part

abbrev pub followed : Part → Option (List Part) → Option (List Part)
followed part none = none
followed part (some parts) = some (part ∷ parts)

abbrev starts_with_star : Text → Bool
starts_with_star [] = false
starts_with_star (c ∷ s) = c == star

abbrev rest_of : Text → Text
rest_of [] = []
rest_of (c ∷ s) = s

pub data ReadState : Type 0 where
  plain after_backslash after_dot : ReadState

-- A character that is no part of an escape or of `.*`.
abbrev single :
    ℕ → Option (List Part) → Option (List Part) → Option (List Part) → Option (List Part)
single c escaped dotted rest =
    if c == backslash
    then escaped
    else if c == b'.'
    then dotted
    else if c == b'^'
    then followed start_of_text rest
    else if c == b'$'
    then followed end_of_expression rest
    else if is_meta c
    then none
    else followed (character c) rest

read : ReadState → Text → Option (List Part)
read plain [] = some []
read plain (c ∷ s) =
    let escaped = read after_backslash s in
    let dotted = read after_dot s in let rest = read plain s in single c escaped dotted rest
read after_backslash [] = none
read after_backslash (c ∷ s) =
    let rest = read plain s in if is_meta c then followed (character c) rest else none
read after_dot [] = some (one ∷ [])
read after_dot (c ∷ s) =
    let escaped = read after_backslash s in
    let dotted = read after_dot s in
    let rest = read plain s in
    if c == star then followed many rest else followed one (single c escaped dotted rest)

unfoldable pub read_expression : Text → Option (List Part)
unfolding read
read_expression t = read plain t

-- Whether an expression stands for a start of the text behind a place, which is the start of the
-- whole text or not.
any_number : (Bool → Language) → Bool → Language
any_number k at_start [] = k at_start []
any_number k at_start (d ∷ s) = k at_start (d ∷ s) || (not_newline d && any_number k false s)

matches_here : List Part → Bool → Language
unfolding any_number
matches_here [] at_start s = true
matches_here (start_of_text ∷ ps) at_start s = at_start && matches_here ps at_start s
matches_here (end_of_expression ∷ ps) at_start s = is_empty_list s && matches_here ps at_start s
matches_here (one ∷ ps) at_start [] = false
matches_here (one ∷ ps) at_start (d ∷ s) = not_newline d && matches_here ps false s
matches_here (many ∷ ps) at_start s = any_number (matches_here ps) at_start s
matches_here (character c ∷ ps) at_start [] = false
matches_here (character c ∷ ps) at_start (d ∷ s) = (c == d) && matches_here ps false s

found_from : List Part → Bool → Language
unfolding matches_here
found_from ps at_start [] = matches_here ps at_start []
found_from ps at_start (d ∷ s) = matches_here ps at_start (d ∷ s) || found_from ps false s

-- `is_match`: the expression is found anywhere in the text.
pub search : List Part → Language
unfolding found_from
search ps s = found_from ps true s

-- `escape` puts a backslash before the characters with a meaning and leaves the others, and an
-- expression that compiles is found where its parts say. Whether an expression compiles is left
-- open: the crate has a limit on its size.
pub record FollowsSyntax (regexes : Regexes) : Type 0 where
  pub escapes : (c : ℕ) → regexes.escape c ≡ (if is_meta c then backslash ∷ c ∷ [] else c ∷ [])
  pub finds :
      (t : Text) (ps : List Part) (r : Text → Bool)
      → read_expression t ≡ some ps
      → regexes.compile t ≡ some r
      → (s : Text) → r s ≡ search ps s

-- The parts of the expression of a pattern.
abbrev part_of : ℕ → Part
part_of c = if c == star then many else if c == question then one else character c

abbrev parts_of : Text → List Part
parts_of [] = end_of_expression ∷ []
parts_of (c ∷ p) = part_of c ∷ parts_of p

any_number-any_text :
    (k : Bool → Language) (g : Language)
    → ((b : Bool) (s : Text) → k b s ≡ g s)
    → (b : Bool) (s : Text) → any_number k b s ≡ any_text g s
unfolding any_number any_text
any_number-any_text k g same b [] = same b []
any_number-any_text k g same b (d ∷ s) =
    rw (same b (d ∷ s)) (rw (any_number-any_text k g same false s) refl)

module _ (ps : List Part) (g : Language)
    (same : (b : Bool) (s : Text) → matches_here ps b s ≡ g s) where
  matches_here-one : (b : Bool) (s : Text) → matches_here (one ∷ ps) b s ≡ any_one g s
  unfolding matches_here any_one
  matches_here-one b [] = refl
  matches_here-one b (d ∷ s) = ap (λ x. not_newline d && x) (same false s)

  matches_here-character :
      (c : ℕ) (b : Bool) (s : Text) → matches_here (character c ∷ ps) b s ≡ literal c g s
  unfolding matches_here literal
  matches_here-character c b [] = refl
  matches_here-character c b (d ∷ s) = ap (λ x. (c == d) && x) (same false s)

matches_here-glob : (p : Text) (b : Bool) (s : Text) → matches_here (parts_of p) b s ≡ glob p s
unfolding matches_here glob
matches_here-glob [] b [] = refl
matches_here-glob [] b (d ∷ s) = refl
matches_here-glob (c ∷ p) b s = elim (Bool-cases (c == star)) [
  | inl e ↦
      rw e (any_number-any_text (matches_here (parts_of p)) (glob p) (matches_here-glob p) b s)
  | inr e ↦ rw e (elim (Bool-cases (c == question)) [
    | inl q ↦ rw q (matches_here-one (parts_of p) (glob p) (matches_here-glob p) b s)
    | inr q ↦ rw q (matches_here-character (parts_of p) (glob p) (matches_here-glob p) c b s)
  ])
]

-- An expression that begins with `^` is found at the start only.
anchored_later : (ps : List Part) (s : Text) → found_from (start_of_text ∷ ps) false s ≡ false
unfolding found_from matches_here
anchored_later ps [] = refl
anchored_later ps (d ∷ s) = anchored_later ps s

||-false : (b : Bool) → (b || false) ≡ b
||-false true = refl
||-false false = refl

search-anchored :
    (ps : List Part) (s : Text) → search (start_of_text ∷ ps) s ≡ matches_here ps true s
unfolding search found_from matches_here
search-anchored ps [] = refl
search-anchored ps (d ∷ s) = rw (anchored_later ps s) (||-false (matches_here ps true (d ∷ s)))

-- A character without a meaning is read for itself.
single-character :
    (c : ℕ) (escaped dotted rest : Option (List Part))
    → is_meta c ≡ false
    → single c escaped dotted rest ≡ followed (character c) rest
single-character c escaped dotted rest h = ground (arith, h)

after_dot-plain :
    (t : Text) → starts_with_star t ≡ false → read after_dot t ≡ followed one (read plain t)
unfolding read
after_dot-plain [] h = refl
after_dot-plain (c ∷ t) h = rw h refl

module _ (regexes : Regexes) (follows : FollowsSyntax regexes) where
  abbrev closed : Text → Text
  closed p = regex_parts regexes p ++ codes "$"

  -- No part begins with a star, so that a question mark's dot stands for one character.
  no_star_ahead : (p : Text) → starts_with_star (closed p) ≡ false
  no_star_ahead [] = refl
  no_star_ahead (c ∷ p) = elim (Bool-cases (c == star)) [
    | inl e ↦ rw e refl
    | inr e ↦ rw e (elim (Bool-cases (c == question)) [
      | inl q ↦ rw q refl
      | inr q ↦ rw q (
          rw (follows.escapes c)
            (elim (Bool-cases (is_meta c)) [ inl m ↦ rw m refl | inr m ↦ rw m e ]))
    ])
  ]

  read-closed : (p : Text) → read plain (closed p) ≡ some (parts_of p)
  unfolding read
  read-closed [] = refl
  read-closed (c ∷ p) = elim (Bool-cases (c == star)) [
    | inl e ↦ rw e (ap (followed many) (read-closed p))
    | inr e ↦ rw e (elim (Bool-cases (c == question)) [
      | inl q ↦
          rw q (after_dot-plain (closed p) (no_star_ahead p) ∙ ap (followed one) (read-closed p))
      | inr q ↦ rw q (
          rw (follows.escapes c) (elim (Bool-cases (is_meta c)) [
            | inl m ↦ rw m (rw m (ap (followed (character c)) (read-closed p)))
            | inr m ↦ rw m (
                single-character c (read after_backslash (closed p)) (read after_dot (closed p))
                  (read plain (closed p)) m
                ∙ ap (followed (character c)) (read-closed p))
          ]))
    ])
  ]

  -- The expression of a pattern, if it compiles, matches the names that the pattern stands for.
  pub to_regex-glob :
      (p : Text) (r : Text → Bool) → to_regex regexes p ≡ some r → (s : Text) → r s ≡ glob p s
  unfolding to_regex read_expression read
  to_regex-glob p r h s =
      follows.finds (codes "^" ++ closed p) (start_of_text ∷ parts_of p) r
        (ap (followed start_of_text) (read-closed p)) h s
      ∙ (search-anchored (parts_of p) s ∙ matches_here-glob p true s)

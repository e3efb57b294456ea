-- ===== src/Prelude/Words.antt =====
-- The parts of a text: `str::trim`, `str::split_ascii_whitespace`, padding, and `join`.
use muscl.Prelude.Tests.{◌==◌, leb, if◌then◌else◌, Bool-cases, &&_both}
use muscl.Prelude.Lists.{length, is_empty_list, All}
use muscl.Prelude.Text.{Text, starts_with}
use Prim.Native.Nat.{ℕ, zero, suc, ◌-◌}
use mathlib.Core.Path.{◌≡◌, refl, sym, ◌∙◌, ap}
use mathlib.Core.Logic.{inl, inr}
use mathlib.Core.Bool.{Bool, true, false, ◌&&◌, ◌||◌}
use mathlib.Core.List.{List, [], ◌∷◌, ◌++◌}
use native.Mathlib.Omega.{arith}

-- `char::is_ascii_whitespace`
abbrev pub is_space : ℕ → Bool
is_space c = c == 32 || c == 9 || c == 10 || c == 12 || c == 13

-- `char::is_whitespace`, the Unicode property `White_Space`.
abbrev pub is_whitespace : ℕ → Bool
is_whitespace c =
    c == 32
    || (leb 9 c && leb c 13)
    || c == 0x85
    || c == 0xA0
    || c == 0x1680
    || (leb 0x2000 c && leb c 0x200A)
    || c == 0x2028
    || c == 0x2029
    || c == 0x202F
    || c == 0x205F
    || c == 0x3000

unfoldable pub trim_start : Text → Text
trim_start [] = []
trim_start (c ∷ s) = let rest = trim_start s in if is_whitespace c then rest else c ∷ s

unfoldable pub trim_end : Text → Text
trim_end [] = []
trim_end (c ∷ s) =
    let rest = trim_end s in if is_empty_list rest && is_whitespace c then [] else c ∷ rest

-- `str::trim`
unfoldable pub trim : Text → Text
unfolding trim_start trim_end
trim s = trim_end (trim_start s)

-- End the word that is read, if there is one.
abbrev pub end_word : Text → List Text → List Text
end_word [] rest = rest
end_word (c ∷ w) rest = (c ∷ w) ∷ rest

-- The words of a text, with the word that is read so far.
unfoldable pub words_from : Text → Text → List Text
words_from w [] = end_word w []
words_from w (c ∷ s) =
    let next = words_from [] s in
    let more = words_from (w ++ c ∷ []) s in if is_space c then end_word w next else more

-- `str::split_ascii_whitespace`
abbrev pub words : Text → List Text
words s = words_from [] s

abbrev pub spaces : ℕ → Text
spaces zero = []
spaces (suc n) = 32 ∷ spaces n

-- `format!("{:width$}", s)`
abbrev pub pad : Text → ℕ → Text
pad s width = s ++ spaces (width - length s)

abbrev pub prepend : ℕ → List Text → List Text
prepend c [] = (c ∷ []) ∷ []
prepend c (s ∷ parts) = (c ∷ s) ∷ parts

-- `str::split` at a character.
unfoldable pub split : ℕ → Text → List Text
split c [] = [] ∷ []
split c (x ∷ s) = let parts = split c s in if x == c then [] ∷ parts else prepend x parts

-- `Itertools::join`
unfoldable pub join : Text → List Text → Text
join sep [] = []
join sep (s ∷ []) = s
join sep (s ∷ t ∷ ts) = s ++ (sep ++ join sep (t ∷ ts))

-- No character of the text is white space but a blank.
abbrev pub IsBlankOnly : Text → Type 0
IsBlankOnly = All (λ c. is_whitespace c ≡ is_space c)

trim_start-All {ℓ} : (P : ℕ → Type ℓ) (s : Text) → All P s → All P (trim_start s)
unfolding trim_start
trim_start-All P [] h = tt
trim_start-All P (c ∷ s) h = elim (Bool-cases (is_whitespace c)) [
  | inl e ↦ rw (e, trim_start) (trim_start-All P s h.1)
  | inr e ↦ rw (e, trim_start) h
]

words-trim_start : (s : Text) → IsBlankOnly s → words (trim_start s) ≡ words s
unfolding trim_start words_from
words-trim_start [] h = refl
words-trim_start (c ∷ s) h = elim (Bool-cases (is_whitespace c)) [
  | inl e ↦
      let space = rw e at h.0 in
      rw (e, trim_start) (rw (← space, words_from) (words-trim_start s h.1))
  | inr e ↦ rw (e, trim_start) refl
]

is_empty_list-empty : (s : Text) → is_empty_list s ≡ true → s ≡ []
is_empty_list-empty [] h = refl
is_empty_list-empty (c ∷ s) h = absurd (cc)

words_from-trim_end : (w s : Text) → IsBlankOnly s → words_from w (trim_end s) ≡ words_from w s
unfolding trim_end words_from
words_from-trim_end w [] h = refl
words_from-trim_end w (c ∷ s) h =
    let rest = words_from-trim_end [] s h.1 in
    let more = words_from-trim_end (w ++ c ∷ []) s h.1 in
    elim (Bool-cases (is_empty_list (trim_end s) && is_whitespace c)) [
      | inl e ↦
          let (none_left, white) = &&_both (is_empty_list (trim_end s)) (is_whitespace c) e in
          let empty = is_empty_list-empty (trim_end s) none_left in
          let space = rw white at h.0 in
          let none_after : words_from [] s ≡ [] = sym rest ∙ ap (words_from []) empty in
          rw (e, trim_end) (rw (← space, words_from) (rw none_after refl))
      | inr e ↦ rw (e, trim_end) (rw (rest, more) refl)
    ]

-- Trimming does not change the words.
pub words-trim : (s : Text) → IsBlankOnly s → words (trim s) ≡ words s
unfolding trim
words-trim s h =
    words_from-trim_end [] (trim_start s) (trim_start-All (λ c. is_whitespace c ≡ is_space c) s h)
    ∙ words-trim_start s h

trim_end-All {ℓ} : (P : ℕ → Type ℓ) (s : Text) → All P s → All P (trim_end s)
unfolding trim_end
trim_end-All P [] h = tt
trim_end-All P (c ∷ s) h = elim (Bool-cases (is_empty_list (trim_end s) && is_whitespace c)) [
  | inl e ↦ rw (e, trim_end) tt
  | inr e ↦ rw (e, trim_end) (h.0, trim_end-All P s h.1)
]

-- What holds of every character holds of those of the trimmed text.
pub trim-All {ℓ} : (P : ℕ → Type ℓ) (s : Text) → All P s → All P (trim s)
unfolding trim
trim-All P s h = trim_end-All P (trim_start s) (trim_start-All P s h)

-- A text that starts with a character that is not white space keeps it.
pub trim-start : (c : ℕ) (s : Text) → is_whitespace c ≡ false → trim (c ∷ s) ≡ c ∷ trim_end s
unfolding trim trim_start trim_end
trim-start c s h =
    let kept : (is_empty_list (trim_end s) && is_whitespace c) ≡ false = rw h (ground arith) in
    rw (h, trim_start) (rw (kept, trim_end) refl)

-- What the trimmed text starts with, the text starts with.
pub starts_with-trim_end : (s p : Text) → starts_with (trim_end s) p ≡ true → starts_with s p ≡ true
unfolding trim_end starts_with
starts_with-trim_end s [] h = refl
starts_with-trim_end [] (d ∷ p) h = h
starts_with-trim_end (c ∷ s) (d ∷ p) h =
    elim (Bool-cases (is_empty_list (trim_end s) && is_whitespace c)) [
      | inl e ↦ absurd (let no : false ≡ true = rw e at h in cc)
      | inr e ↦
          let both = &&_both (c == d) (starts_with (trim_end s) p) (rw e at h) in
          rw both.0 (starts_with-trim_end s p both.1)
    ]

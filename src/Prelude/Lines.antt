-- ===== src/Prelude/Lines.antt =====
-- The lines of a text, `str::lines`.
use muscl.Prelude.Tests.{◌==◌, if◌then◌else◌}
use muscl.Prelude.Lists.{All}
use muscl.Prelude.Text.{Text}
use muscl.Prelude.Words.{end_word, join}
use Prim.Native.Nat.{ℕ}
use mathlib.Core.Path.{◌≡◌, refl, ◌∙◌, ap, sym}
use mathlib.Core.Bool.{true, false, ◌&&◌, not}
use mathlib.Core.List.{List, [], ◌∷◌, ◌++◌, append-nil, append_assoc}
use native.Mathlib.Omega.{arith}

-- A line that a line feed ends loses one carriage return at its end.
unfoldable pub strip_return : Text → Text
strip_return [] = []
strip_return (c ∷ []) = if c == 13 then [] else c ∷ []
strip_return (c ∷ d ∷ s) = c ∷ strip_return (d ∷ s)

-- The lines of a text, with the line that is read so far.
unfoldable pub lines_from : Text → Text → List Text
unfolding strip_return
lines_from l [] = end_word l []
lines_from l (c ∷ s) =
    let next = lines_from [] s in
    let more = lines_from (l ++ c ∷ []) s in if c == 10 then strip_return l ∷ next else more

abbrev pub lines : Text → List Text
lines s = lines_from [] s

-- A text without line feeds and carriage returns.
abbrev pub IsLine : Text → Type 0
IsLine = All (λ c. not (c == 10) && not (c == 13) ≡ true)

strip_return-IsLine : (l : Text) → IsLine l → strip_return l ≡ l
unfolding strip_return
strip_return-IsLine [] h = refl
strip_return-IsLine (c ∷ []) h = ground (arith, h.0)
strip_return-IsLine (c ∷ d ∷ l) h = ap (λ rest. c ∷ rest) (strip_return-IsLine (d ∷ l) h.1)

lines_from-IsLine : (w l s : Text) → IsLine l → lines_from w (l ++ s) ≡ lines_from (w ++ l) s
unfolding lines_from
lines_from-IsLine w [] s h = ap (λ v. lines_from v s) (sym (append-nil w))
lines_from-IsLine w (c ∷ l) s h =
    let other : (c == 10) ≡ false = ground (arith, h.0) in
    rw (other, lines_from)
      (lines_from-IsLine (w ++ c ∷ []) l s h.1
        ∙ ap (λ v. lines_from v s) (append_assoc w (c ∷ []) l))

-- A line and a line feed are read as that line.
pub lines-line : (l s : Text) → IsLine l → lines (l ++ (10 ∷ s)) ≡ l ∷ lines s
unfolding lines_from
lines-line l s h =
    lines_from-IsLine [] l (10 ∷ s) h ∙ ap (λ v. v ∷ lines s) (strip_return-IsLine l h)

-- The lines can be joined by line feeds and read back: no line holds a line feed or a carriage
-- return, and the last one is not empty.
abbrev pub AreLines : List Text → Type 0
AreLines [] = Unit
AreLines (l ∷ []) = IsLine l × ((c : ℕ) × ((s : Text) × (l ≡ c ∷ s)))
AreLines (l ∷ m ∷ ls) = IsLine l × AreLines (m ∷ ls)

lines_last : (l : Text) → IsLine l → (c : ℕ) (s : Text) → l ≡ c ∷ s → lines l ≡ l ∷ []
unfolding lines_from
lines_last l h c s e = ap lines (sym (append-nil l)) ∙ lines_from-IsLine [] l [] h ∙ rw e refl

pub lines-join : (ls : List Text) → AreLines ls → lines (join (10 ∷ []) ls) ≡ ls
unfolding join lines_from
lines-join [] h = refl
lines-join (l ∷ []) (h, (c, (s, e))) = lines_last l h c s e
lines-join (l ∷ m ∷ ls) h =
    lines-line l (join (10 ∷ []) (m ∷ ls)) h.0 ∙ ap (λ rest. l ∷ rest) (lines-join (m ∷ ls) h.1)

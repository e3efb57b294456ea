-- ===== src/Prelude/Columns.antt =====
-- Padded columns joined by blanks, and the words read back from them.
use muscl.Prelude.Tests.{◌==◌, &&_both}
use muscl.Prelude.Lists.{length, all, is_empty_list, All, All-append}
use muscl.Prelude.Text.{Text}
use muscl.Prelude.Words.{
  is_space, is_whitespace, end_word, words_from, words, spaces, pad, join, trim, trim_start,
  trim_end, IsBlankOnly,
}
use muscl.Prelude.Lines.{IsLine}
use Prim.Native.Nat.{ℕ, zero, suc, ◌-◌}
use mathlib.Core.Path.{◌≡◌, refl, ◌∙◌, ap, sym}
use mathlib.Core.Bool.{Bool, true, false, ◌&&◌, not}
use mathlib.Core.List.{List, [], ◌∷◌, ◌++◌, map, append-nil, append_assoc}
use native.Mathlib.Omega.{arith}

-- A text without white space, and one that has a first character.
abbrev pub IsSolid : Text → Type 0
IsSolid = All (λ c. is_whitespace c ≡ false)

abbrev pub IsWord : Text → Type 0
IsWord [] = ⊥
IsWord (c ∷ s) = IsSolid (c ∷ s)

solid-is_space : (c : ℕ) → is_whitespace c ≡ false → is_space c ≡ false
solid-is_space c h = ground arith

-- The characters of a word are read into the word.
words_from-IsSolid : (w s t : Text) → IsSolid s → words_from w (s ++ t) ≡ words_from (w ++ s) t
unfolding words_from
words_from-IsSolid w [] t h = ap (λ v. words_from v t) (sym (append-nil w))
words_from-IsSolid w (c ∷ s) t h =
    rw (solid-is_space c h.0, words_from)
      (words_from-IsSolid (w ++ c ∷ []) s t h.1
        ∙ ap (λ v. words_from v t) (append_assoc w (c ∷ []) s))

words-spaces : (n : ℕ) (t : Text) → words (spaces n ++ t) ≡ words t
unfolding words_from
words-spaces zero t = refl
words-spaces (suc n) t = words-spaces n t

words-padding :
    (w : Text) (n : ℕ) (t : Text) → words_from w (spaces n ++ (32 ∷ t)) ≡ end_word w (words t)
unfolding words_from
words-padding w zero t = refl
words-padding w (suc n) t = ap (end_word w) (words-spaces n (32 ∷ t))

words-blank : (w : Text) (n : ℕ) → words_from w (spaces n) ≡ end_word w []
unfolding words_from
words-blank w zero = refl
words-blank w (suc n) = ap (end_word w) (words-blank [] n)

end_word-IsWord : (s : Text) (rest : List Text) → IsWord s → end_word s rest ≡ s ∷ rest
end_word-IsWord [] rest h = absurd h
end_word-IsWord (c ∷ s) rest h = refl

IsWord-IsSolid : (s : Text) → IsWord s → IsSolid s
IsWord-IsSolid [] h = absurd h
IsWord-IsSolid (c ∷ s) h = h

trim_end-IsSolid : (s : Text) → IsSolid s → trim_end s ≡ s
unfolding trim_end
trim_end-IsSolid [] h = refl
trim_end-IsSolid (c ∷ s) h =
    let kept : (is_empty_list (trim_end s) && is_whitespace c) ≡ false = rw h.0 (ground arith) in
    rw (kept, trim_end) (ap (λ rest. c ∷ rest) (trim_end-IsSolid s h.1))

-- A text without white space is trimmed already.
pub trim-IsSolid : (s : Text) → IsSolid s → trim s ≡ s
unfolding trim trim_start
trim-IsSolid [] h = refl
trim-IsSolid (c ∷ s) h = rw (h.0, trim_start) (trim_end-IsSolid (c ∷ s) h)

-- The columns, padded to the widths, with a blank between two of them.
abbrev pub columns : List (Text × ℕ) → List Text
columns = map (λ (s, width). pad s width)

abbrev pub AreWords : List (Text × ℕ) → Type 0
AreWords = All (λ (s, width). IsWord s)

-- The columns hold words, as a test.
abbrev pub are_words : List (Text × ℕ) → Bool
are_words = all (λ (s, width). not (is_empty_list s) && all (λ c. not (is_whitespace c)) s)

IsSolid-of : (s : Text) → all (λ c. not (is_whitespace c)) s ≡ true → IsSolid s
IsSolid-of [] h = tt
IsSolid-of (c ∷ s) h =
    let both = &&_both (not (is_whitespace c)) (all (λ c. not (is_whitespace c)) s) h in
    (ground (arith, both.0), IsSolid-of s both.1)

pub AreWords-of : (ws : List (Text × ℕ)) → are_words ws ≡ true → AreWords ws
AreWords-of [] h = tt
AreWords-of (([], n) ∷ ws) h = absurd (cc)
AreWords-of ((c ∷ s, n) ∷ ws) h =
    let both = &&_both (all (λ c. not (is_whitespace c)) (c ∷ s)) (are_words ws) h in
    (IsSolid-of (c ∷ s) both.0, AreWords-of ws both.1)

words-join :
    (s : Text) (n : ℕ) (t : Text) → IsWord s → words ((s ++ spaces n) ++ (32 ∷ t)) ≡ s ∷ words t
words-join s n t h =
    ap words (append_assoc s (spaces n) (32 ∷ t))
    ∙ words_from-IsSolid [] s (spaces n ++ (32 ∷ t)) (IsWord-IsSolid s h)
    ∙ words-padding s n t
    ∙ end_word-IsWord s (words t) h

words_last : (s : Text) (n : ℕ) → IsWord s → words (s ++ spaces n) ≡ s ∷ []
unfolding words_from
words_last s n h =
    words_from-IsSolid [] s (spaces n) (IsWord-IsSolid s h)
    ∙ words-blank s n
    ∙ end_word-IsWord s [] h

-- The words of the columns are what was padded.
pub words-columns :
    (ws : List (Text × ℕ)) → AreWords ws → words (join (32 ∷ []) (columns ws)) ≡ map (λ w. w.0) ws
unfolding join words_from
words-columns [] h = refl
words-columns ((s, n) ∷ []) h = words_last s (n - length s) h.0
words-columns ((s, n) ∷ (t, m) ∷ ws) h =
    words-join s (n - length s) (join (32 ∷ []) (columns ((t, m) ∷ ws))) h.0
    ∙ ap (λ rest. s ∷ rest) (words-columns ((t, m) ∷ ws) h.1)

-- What holds of a blank and of every character that is not white space holds of the columns.
module _ {ℓ} (P : ℕ → Type ℓ) (blank : P 32) (solid : (c : ℕ) → is_whitespace c ≡ false → P c) where
  All-spaces : (n : ℕ) → All P (spaces n)
  All-spaces zero = tt
  All-spaces (suc n) = (blank, All-spaces n)

  All-IsSolid : (s : Text) → IsSolid s → All P s
  All-IsSolid [] h = tt
  All-IsSolid (c ∷ s) h = (solid c h.0, All-IsSolid s h.1)

  All-pad : (s : Text) (n : ℕ) → IsWord s → All P (pad s n)
  All-pad s n h =
      All-append P s (spaces (n - length s)) (All-IsSolid s (IsWord-IsSolid s h))
        (All-spaces (n - length s))

  pub All-columns : (ws : List (Text × ℕ)) → AreWords ws → All P (join (32 ∷ []) (columns ws))
  unfolding join
  All-columns [] h = tt
  All-columns ((s, n) ∷ []) h = All-pad s n h.0
  All-columns ((s, n) ∷ (t, m) ∷ ws) h =
      All-append P (pad s n) (32 ∷ join (32 ∷ []) (columns ((t, m) ∷ ws))) (All-pad s n h.0)
        (blank, All-columns ((t, m) ∷ ws) h.1)

pub columns-IsBlankOnly :
    (ws : List (Text × ℕ)) → AreWords ws → IsBlankOnly (join (32 ∷ []) (columns ws))
columns-IsBlankOnly =
    All-columns (λ c. is_whitespace c ≡ is_space c) refl (λ c h. h ∙ sym (solid-is_space c h))

pub columns-IsLine : (ws : List (Text × ℕ)) → AreWords ws → IsLine (join (32 ∷ []) (columns ws))
columns-IsLine = All-columns (λ c. not (c == 10) && not (c == 13) ≡ true) refl (λ c h. ground arith)

-- ===== src/Denylist/Pattern.antt =====
-- The names that a pattern stands for, independent of the code: a star for any text, a question
-- mark for any one character, and every other character for itself. As in a regular expression,
-- the wildcards do not stand for a line feed.
use mathlib.Core.Path.{fun_ext}
use native.Mathlib.Numerals.{add-one}
use muscl.Prelude.{
  ℕ, zero, suc, ◌+◌, ◌≡◌, refl, sym, ◌∙◌, ap, Bool, true, false, not, ◌&&◌, ◌||◌, Option, none,
  some, [], ◌∷◌, ◌==◌, Bool-cases, inl, inr, arith, if◌then◌else◌,
}
use muscl.Prelude.Text.{Text}
use muscl.Denylist.{star, question, flush, normalize_from, normalize}

abbrev pub Language : Type 0
Language = Text → Bool

abbrev pub not_newline : ℕ → Bool
not_newline c = not (c == 10)

abbrev pub end_of_text : Language
end_of_text [] = true
end_of_text (c ∷ s) = false

unfoldable pub literal : ℕ → Language → Language
literal c k [] = false
literal c k (d ∷ s) = (c == d) && k s

unfoldable pub any_one : Language → Language
any_one k [] = false
any_one k (d ∷ s) = not_newline d && k s

unfoldable pub any_text : Language → Language
any_text k [] = k []
any_text k (d ∷ s) = k (d ∷ s) || (not_newline d && any_text k s)

-- Whether a name is one that the pattern stands for.
unfoldable pub glob : Text → Language
unfolding literal any_one any_text
glob [] = end_of_text
glob (c ∷ p) =
    if c == star
    then any_text (glob p)
    else if c == question
    then any_one (glob p)
    else literal c (glob p)

any_text-any_text_at : (k : Language) (s : Text) → any_text (any_text k) s ≡ any_text k s
unfolding any_text
any_text-any_text_at k [] = refl
any_text-any_text_at k (d ∷ s) = ground (arith, any_text-any_text_at k s)

any_text-any_one_at : (k : Language) (s : Text) → any_text (any_one k) s ≡ any_one (any_text k) s
unfolding any_text any_one
any_text-any_one_at k [] = refl
any_text-any_one_at k (d ∷ []) = ground arith
any_text-any_one_at k (d ∷ e ∷ s) = ground (arith, any_text-any_one_at k (e ∷ s))

any_text-any_text : (k : Language) → any_text (any_text k) ≡ any_text k
any_text-any_text k = fun_ext (any_text-any_text_at k)

any_text-any_one : (k : Language) → any_text (any_one k) ≡ any_one (any_text k)
any_text-any_one k = fun_ext (any_text-any_one_at k)

-- A run of wildcards, by what has been counted of it.
ones : ℕ → Language → Language
ones zero k = k
ones (suc q) k = any_one (ones q k)

maybe_text : Bool → Language → Language
maybe_text true k = any_text k
maybe_text false k = k

glob-flush :
    (q : ℕ) (b : Bool) (rest : Text) → glob (flush q b rest) ≡ ones q (maybe_text b (glob rest))
unfolding glob ones maybe_text
glob-flush zero true rest = refl
glob-flush zero false rest = refl
glob-flush (suc q) b rest = ap any_one (glob-flush q b rest)

ones-any_one : (q : ℕ) (k : Language) → ones (suc q) k ≡ ones q (any_one k)
unfolding ones
ones-any_one zero k = refl
ones-any_one (suc q) k = ap any_one (ones-any_one q k)

maybe_text-any_one : (b : Bool) (k : Language) → maybe_text b (any_one k) ≡ any_one (maybe_text b k)
unfolding maybe_text
maybe_text-any_one true k = any_text-any_one k
maybe_text-any_one false k = refl

maybe_text-any_text : (b : Bool) (k : Language) → maybe_text true k ≡ maybe_text b (any_text k)
unfolding maybe_text
maybe_text-any_text true k = sym (any_text-any_text k)
maybe_text-any_text false k = refl

-- The run before a text, none outside a run.
run : Option (ℕ × Bool) → Language → Language
run none k = k
run (some (q, b)) k = ones q (maybe_text b k)

glob-question : (c : ℕ) (p : Text) → (c == question) ≡ true → glob (c ∷ p) ≡ any_one (glob p)
unfolding glob
glob-question c p h = let no_star : (c == star) ≡ false = ground arith in rw no_star (rw h)

glob-star : (c : ℕ) (p : Text) → (c == star) ≡ true → glob (c ∷ p) ≡ any_text (glob p)
unfolding glob
glob-star c p h = rw h

-- The wildcards before a text that starts with another character.
glob_plain :
    (c : ℕ) (p r : Text)
    → (c == question) ≡ false
    → (c == star) ≡ false
    → glob r ≡ glob p
    → glob (c ∷ r) ≡ glob (c ∷ p)
unfolding glob
glob_plain c p r hq hs e = rw hs (rw hq (ap (literal c) e))

glob-normalize_from :
    (o : Option (ℕ × Bool)) (p : Text) → glob (normalize_from o p) ≡ run o (glob p)
unfolding normalize_from run
glob-normalize_from none [] = refl
glob-normalize_from (some (q, b)) [] = glob-flush q b []
glob-normalize_from none (c ∷ cs) = elim (Bool-cases (c == question)) [
  | inl e ↦ rw e (
      glob-normalize_from (some (1, false)) cs
      ∙ unfold ones maybe_text in sym (glob-question c cs e))
  | inr e ↦ rw e (elim (Bool-cases (c == star)) [
    | inl e' ↦ rw e' (
        glob-normalize_from (some (0, true)) cs ∙ unfold ones maybe_text in sym (glob-star c cs e'))
    | inr e' ↦ rw e' (glob_plain c cs (normalize_from none cs) e e' (glob-normalize_from none cs))
  ])
]
glob-normalize_from (some (q, b)) (c ∷ cs) = elim (Bool-cases (c == question)) [
  | inl e ↦ rw e (glob-normalize_from (some (q + 1, b)) cs ∙ more e)
  | inr e ↦ rw e (elim (Bool-cases (c == star)) [
    | inl e' ↦ rw e' (glob-normalize_from (some (q, true)) cs ∙ swallow e')
    | inr e' ↦ rw e' (
        glob-flush q b (c ∷ normalize_from none cs)
        ∙ ap (λ (k : Language). ones q (maybe_text b k))
            (glob_plain c cs (normalize_from none cs) e e' (glob-normalize_from none cs)))
  ])
]
  where
    more :
        (c == question) ≡ true
        → ones (q + 1) (maybe_text b (glob cs)) ≡ ones q (maybe_text b (glob (c ∷ cs)))
    more e = rw add-one (
        ones-any_one q (maybe_text b (glob cs))
        ∙ ap (ones q)
            (sym (maybe_text-any_one b (glob cs)) ∙ ap (maybe_text b) (sym (glob-question c cs e))))

    swallow :
        (c == star) ≡ true
        → ones q (maybe_text true (glob cs)) ≡ ones q (maybe_text b (glob (c ∷ cs)))
    swallow e =
        ap (ones q) (maybe_text-any_text b (glob cs) ∙ ap (maybe_text b) (sym (glob-star c cs e)))

-- The normal form of a pattern stands for the same names as the pattern.
pub glob-normalize : (p s : Text) → glob (normalize p) s ≡ glob p s
unfolding normalize run
glob-normalize p s = ap (λ (k : Language). k s) (glob-normalize_from none p)

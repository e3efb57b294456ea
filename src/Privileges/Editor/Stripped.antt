-- ===== src/Privileges/Editor/Stripped.antt =====
-- core/database_privileges/editor.rs: the errors written between the lines are taken out again.
use muscl.Prelude.{
  ◌≡◌, refl, ap, sym, ◌∙◌, Bool, Bool-cases, true, false, List, [], ◌∷◌, ◌++◌, map, ℕ, suc, All,
  All-append, ◌&&◌, ◌||◌, ◌==◌, arith, inl, inr,
}
use muscl.Prelude.Text.{Text, codes, starts_with, starts_with_iff}
use muscl.Prelude.Words.{join}
use muscl.Prelude.Lines.{lines, IsLine, AreLines, lines-join}
use muscl.Privileges.Editor.Duplicates.{PrivilegeLineError}
use muscl.Privileges.Editor.Markers.{
  error_marker_prefix, error_continuation_prefix, message_lines, mark, inline_lines, strip_lines,
  inline_errors_into_editor_content, strip_inlined_errors,
}

-- A line of its own, not one that starts as a written error does.
abbrev pub IsUnmarked : Text → Type 0
IsUnmarked l =
    (starts_with l error_marker_prefix ≡ false) × (starts_with l error_continuation_prefix ≡ false)

-- The lines of the message have no carriage return.
abbrev pub IsPlainError : PrivilegeLineError → Type 0
IsPlainError e = All IsLine (lines (PrivilegeLineError.message e))

abbrev IsFilled : Text → Type 0
IsFilled l = (c : ℕ) × ((s : Text) × (l ≡ c ∷ s))

starts_with-prefix : (p s : Text) → starts_with (p ++ s) p ≡ true
starts_with-prefix p s = (starts_with_iff (p ++ s) p).1 (s, refl)

-- Continuations are dropped in an error block.
strip-continuations :
    (texts rest : List Text)
    → strip_lines true (map (λ l. error_continuation_prefix ++ l) texts ++ rest)
      ≡ strip_lines true rest
unfolding strip_lines
strip-continuations [] rest = refl
strip-continuations (l ∷ texts) rest =
    rw (starts_with-prefix error_continuation_prefix l, strip_lines)
      (strip-continuations texts rest)

strip-marks :
    (texts rest : List Text)
    → (strip_lines true rest ≡ strip_lines false rest)
    → strip_lines false (mark texts ++ rest) ≡ strip_lines false rest
unfolding strip_lines
strip-marks [] rest h = refl
strip-marks (l ∷ texts) rest h =
    rw (starts_with-prefix error_marker_prefix l, strip_lines) (strip-continuations texts rest ∙ h)

strip-inline :
    (b : Bool) (n : ℕ) (ls : List Text) (errors : List PrivilegeLineError)
    → All IsUnmarked ls
    → strip_lines b (inline_lines n ls errors) ≡ ls
unfolding strip_lines inline_lines
strip-inline b n [] errors h = refl
strip-inline b n (l ∷ ls) errors (plain, h) =
    let here : (starts_with l error_marker_prefix || (b && starts_with l error_continuation_prefix))
        ≡ false =
      ground (arith, plain.0, plain.1) in
    let marks = message_lines n errors in
    let rest = inline_lines (suc n) ls errors in
    let unmarked = λ (state : Bool). strip-inline state (suc n) ls errors h in
    rw (here, strip_lines)
      (ap (λ v. l ∷ v)
        (strip-marks marks rest (unmarked true ∙ sym (unmarked false)) ∙ unmarked false))

-- Lines that follow a line, each with a character, and the rest.
AreLines-append :
    (l : Text) (texts rest : List Text)
    → IsLine l
    → (rest ≡ [] → IsFilled l)
    → All (λ t. IsLine t × IsFilled t) texts
    → AreLines rest
    → AreLines (l ∷ (texts ++ rest))
AreLines-append l [] [] h filled ts k = (h, filled refl)
AreLines-append l [] (r ∷ rest) h filled ts k = (h, k)
AreLines-append l (t ∷ texts) rest h filled ((line, full), ts) k =
    (h, AreLines-append t texts rest line (λ _. full) ts k)

IsLine-append : (s t : Text) → IsLine s → IsLine t → IsLine (s ++ t)
IsLine-append [] t h k = k
IsLine-append (c ∷ s) t h k = (h.0, IsLine-append s t h.1 k)

IsLine-lines :
    (p : Text) (texts : List Text)
    → IsLine p
    → IsFilled p
    → All IsLine texts
    → All (λ t. IsLine t × IsFilled t) (map (λ l. p ++ l) texts)
IsLine-lines p [] h full k = tt
IsLine-lines p (t ∷ texts) h (c, (s, e)) k =
    ((IsLine-append p t h k.0, (c, (s ++ t, rw e refl))), IsLine-lines p texts h (c, (s, e)) k.1)

marker-IsLine : IsLine error_marker_prefix
marker-IsLine =
    (refl, (refl, (refl, (refl, (refl, (refl, (refl, (refl, (refl, (refl, (refl, tt)))))))))))

mark-IsLine : (texts : List Text) → All IsLine texts → All (λ t. IsLine t × IsFilled t) (mark texts)
mark-IsLine [] h = tt
mark-IsLine (t ∷ texts) h = (
  (IsLine-append error_marker_prefix t marker-IsLine h.0, (35, (codes " ^ ERROR: " ++ t, refl))),
  IsLine-lines error_continuation_prefix texts marker-IsLine (35, (codes "          ", refl)) h.1,
)

message_lines-IsLine :
    (n : ℕ) (errors : List PrivilegeLineError)
    → All IsPlainError errors
    → All IsLine (message_lines n errors)
unfolding message_lines
message_lines-IsLine n [] h = tt
message_lines-IsLine n (e ∷ errors) h = elim (Bool-cases (PrivilegeLineError.line_number e == n)) [
  | inl same ↦
      rw (same, message_lines)
        (All-append IsLine (lines (PrivilegeLineError.message e)) (message_lines n errors) h.0
          (message_lines-IsLine n errors h.1))
  | inr other ↦ rw (other, message_lines) (message_lines-IsLine n errors h.1)
]

inline-AreLines :
    (n : ℕ) (ls : List Text) (errors : List PrivilegeLineError)
    → AreLines ls
    → All IsPlainError errors
    → AreLines (inline_lines n ls errors)
unfolding inline_lines
inline-AreLines n [] errors h k = tt
inline-AreLines n (l ∷ []) errors h k =
    AreLines-append l (mark (message_lines n errors)) [] h.0 (λ _. h.1)
      (mark-IsLine (message_lines n errors) (message_lines-IsLine n errors k)) tt
inline-AreLines n (l ∷ m ∷ ls) errors h k =
    AreLines-append l (mark (message_lines n errors)) (inline_lines (suc n) (m ∷ ls) errors) h.0
      (λ e. cc) (mark-IsLine (message_lines n errors) (message_lines-IsLine n errors k))
      (inline-AreLines (suc n) (m ∷ ls) errors h.1 k)

-- Errors that are written between the lines of the content are taken out again, if no line
-- starts as a written error does and the messages hold no carriage return.
pub strip_inlined_errors-inline :
    (ls : List Text) (errors : List PrivilegeLineError)
    → AreLines ls
    → All IsUnmarked ls
    → All IsPlainError errors
    → strip_inlined_errors (inline_errors_into_editor_content (join (codes "\n") ls) errors)
      ≡ join (codes "\n") ls
unfolding strip_inlined_errors inline_errors_into_editor_content
strip_inlined_errors-inline ls errors h plain k =
    rw
      (
        lines-join ls h,
        lines-join (inline_lines 0 ls errors) (inline-AreLines 0 ls errors h k),
        strip-inline false 0 ls errors plain,
      )
      refl

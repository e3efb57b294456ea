-- ===== src/Privileges/Cli/Parse.antt =====
-- The parser of edits against their syntax.
use muscl.Prelude.{
  ◌≡◌, ◌↔◌, refl, ap, ◌∙◌, true, false, [], ◌∷◌, ◌++◌, ◌==◌, ==_iff, any, All, Bool-cases,
  ||_neither, keep, inl, inr, ok, err, is_empty_list,
}
use muscl.Prelude.Text.{Text}
use muscl.Prelude.Words.{split}
use muscl.Privileges.Cli.{
  DatabasePrivilegeEditEntryType, add, set, remove, DatabasePrivilegeEdit,
  DatabasePrivilegeEditEntry, invalid_characters, display_entry, is_invalid, split_sign, parse_edit,
  display_edit, sign, parse_entry, entry_of_parts,
}

-- The parser has this edit as its result.
parsed :
    (t : DatabasePrivilegeEditEntryType) (s input : Text)
    → split_sign input ≡ (t, s)
    → any is_invalid s ≡ false
    → parse_edit input ≡ ok (record { edit_type = t; privileges = s })
unfolding parse_edit
parsed t s input h valid = rw (h, parse_edit) (rw valid refl)

split_sign_set : (s : Text) → any is_invalid s ≡ false → split_sign s ≡ (set, s)
split_sign_set [] valid = refl
split_sign_set (c ∷ s) valid = elim (Bool-cases (c == b'+')) [
  | inl e ↦ let no : true ≡ false = rw ((==_iff c b'+').0 e) at valid in absurd (cc)
  | inr e ↦ elim (Bool-cases (c == b'-')) [
    | inl e' ↦ let no : true ≡ false = rw ((==_iff c b'-').0 e') at valid in absurd (cc)
    | inr e' ↦ rw e (rw e' refl)
  ]
]

-- Every edit of valid privileges is read back from what `Display` writes for it.
pub parse_edit-display_edit :
    (e : DatabasePrivilegeEdit)
    → any is_invalid e.privileges ≡ false
    → parse_edit (display_edit e) ≡ ok e
unfolding display_edit
parse_edit-display_edit e valid = by_type e.edit_type e.privileges valid
  where
    by_type :
        (t : DatabasePrivilegeEditEntryType) (s : Text)
        → any is_invalid s ≡ false
        → parse_edit (sign t ++ s) ≡ ok (record { edit_type = t; privileges = s })
    by_type add s valid = parsed add s (b'+' ∷ s) refl valid
    by_type set s valid = parsed set s s (split_sign_set s valid) valid
    by_type remove s valid = parsed remove s (b'-' ∷ s) refl valid

sign-split_sign : (s : Text) → sign (split_sign s).0 ++ (split_sign s).1 ≡ s
sign-split_sign [] = refl
sign-split_sign (c ∷ s) = elim (Bool-cases (c == b'+')) [
  | inl e ↦ rw ((==_iff c b'+').0 e) refl
  | inr e ↦ elim (Bool-cases (c == b'-')) [
    | inl e' ↦ rw ((==_iff c b'-').0 e') refl
    | inr e' ↦ rw e (rw e' refl)
  ]
]

-- A text is read as an edit exactly if it is what `Display` writes for the edit, and the edit's
-- privileges are valid.
pub parse_edit_exact :
    (s : Text) (e : DatabasePrivilegeEdit)
    → (parse_edit s ≡ ok e) ↔ ((display_edit e ≡ s) × (any is_invalid e.privileges ≡ false))
unfolding display_edit parse_edit
parse_edit_exact s e = (
  λ h. elim (Bool-cases (any is_invalid (split_sign s).1)) [
    | inl bad ↦ let no = rw bad at h in absurd (cc)
    | inr good ↦
        let same : ok (record { edit_type = (split_sign s).0; privileges = (split_sign s).1 })
            ≡ ok e =
          rw good at h in
        let same' : record { edit_type = (split_sign s).0; privileges = (split_sign s).1 } ≡ e =
          cc in
        rw (← same') (sign-split_sign s, good)
  ],
  λ (written, valid). rw (← written) (parse_edit-display_edit e valid),
)

-- The text has no colon.
abbrev pub NoColon : Text → Type 0
NoColon = All (λ c. c == b':' ≡ false)

split_free : (s : Text) → NoColon s → split b':' s ≡ s ∷ []
unfolding split
split_free [] h = refl
split_free (c ∷ s) h = rw (h.0, split) (rw (split_free s h.1) refl)

split-append : (s rest : Text) → NoColon s → split b':' (s ++ b':' ∷ rest) ≡ s ∷ split b':' rest
unfolding split
split-append [] rest h = refl
split-append (c ∷ s) rest h = rw (h.0, split) (rw (split-append s rest h.1) refl)

valid-NoColon : (s : Text) → any is_invalid s ≡ false → NoColon s
valid-NoColon [] h = tt
valid-NoColon (c ∷ s) h = (
  elim (Bool-cases (c == b':')) [
    | inl e ↦ let no : true ≡ false = rw ((==_iff c b':').0 e) at h in absurd (cc)
    | inr e ↦ e
  ],
  valid-NoColon s (||_neither (is_invalid c) (any is_invalid s) h).1,
)

display_edit-NoColon :
    (e : DatabasePrivilegeEdit) → any is_invalid e.privileges ≡ false → NoColon (display_edit e)
unfolding display_edit
display_edit-NoColon e valid = by_type e.edit_type
  where
    by_type : (t : DatabasePrivilegeEditEntryType) → NoColon (sign t ++ e.privileges)
    by_type add = (refl, valid-NoColon e.privileges valid)
    by_type set = valid-NoColon e.privileges valid
    by_type remove = (refl, valid-NoColon e.privileges valid)

split_three :
    (a b c : Text)
    → NoColon a
    → NoColon b
    → NoColon c
    → split b':' (a ++ b':' ∷ (b ++ b':' ∷ c)) ≡ a ∷ b ∷ c ∷ []
split_three a b c ha hb hc =
    split-append a (b ++ b':' ∷ c) ha
    ∙ ap (λ parts. a ∷ parts) (split-append b c hb ∙ ap (λ parts. b ∷ parts) (split_free c hc))

-- What an entry is on the command line.
pub record IsEntry (e : DatabasePrivilegeEditEntry) : Type 0 where
  pub database_plain : NoColon e.database
  pub user_plain : NoColon e.user
  pub user_given : is_empty_list e.user ≡ false
  pub edit_valid : any is_invalid e.privilege_edit.privileges ≡ false

-- An entry whose names have no colon, whose user is given and whose privileges are valid is read
-- from its database, user and edit, with colons between them.
pub parse_entry_lem :
    (e : DatabasePrivilegeEditEntry)
    → IsEntry e
    → parse_entry (e.database ++ b':' ∷ (e.user ++ b':' ∷ display_edit e.privilege_edit)) ≡ ok e
unfolding parse_entry entry_of_parts
parse_entry_lem e h =
    rw
      (split_three e.database e.user (display_edit e.privilege_edit) h.database_plain h.user_plain
        (display_edit-NoColon e.privilege_edit h.edit_valid))
      (rw h.user_given (rw (parse_edit-display_edit e.privilege_edit h.edit_valid) refl))

-- What `Display` writes for such an entry is refused by the parser, for the spaces in it.
pub parse_entry-display_entry :
    (e : DatabasePrivilegeEditEntry)
    → IsEntry e
    → parse_entry (display_entry e)
      ≡ err (invalid_characters (keep is_invalid (b' ' ∷ display_edit e.privilege_edit)))
unfolding parse_entry entry_of_parts display_entry parse_edit
parse_entry-display_entry e h =
    rw
      (split_three e.database (b',' ∷ b' ' ∷ e.user) (b' ' ∷ display_edit e.privilege_edit)
        h.database_plain (refl, (refl, h.user_plain))
        (refl, display_edit-NoColon e.privilege_edit h.edit_valid))
      refl

-- ===== src/Privileges/Compare/Transform.antt =====
-- The diffs of `diff_privileges` are enough: applied to the first state they give the second.
use muscl.Prelude.{
  ◌≡◌, refl, sym, ◌∙◌, ap, true, Option, none, some, List, Has, inl, inr, Option-cases, arith,
}
use muscl.Privileges.Row.{DatabasePrivilegeRow}
use muscl.Privileges.RowDiff
use muscl.Privileges.RowDiff.Laws.{
  apply-from_rows, apply_idem, is_empty-eq-no_changes, apply-no_changes,
}
use muscl.Privileges.Diff.{DatabasePrivilegesDiff, new, modified, deleted}
use muscl.Privileges.Diff.Meaning.{act}
use muscl.Privileges.Tables.{Key, row_key, diff_key, view, IsKeyed}
use muscl.Privileges.Tables.Laws.{view_sound}
use muscl.Privileges.State.{apply_all, apply_all_fixed, apply_all_only}
use muscl.Privileges.Compare.{diff_privileges}
use muscl.Privileges.Compare.Exact.{expected, diff_privileges_exact}

-- The expected difference of two rows of one key turns the one into the other.
act-expected :
    (a b : Option DatabasePrivilegeRow) (d : DatabasePrivilegesDiff) (k : Key)
    → ((r : DatabasePrivilegeRow) → a ≡ some r → row_key r ≡ k)
    → ((r : DatabasePrivilegeRow) → b ≡ some r → row_key r ≡ k)
    → expected a b ≡ some d
    → (act d a ≡ b) × (act d b ≡ b)
act-expected none none d k ka kb h = cc
act-expected none (some b) d k ka kb h = let e : new b ≡ d = cc in rw (← e) (refl, refl)
act-expected (some a) none d k ka kb h = let e : deleted a ≡ d = cc in rw (← e) (refl, refl)
act-expected (some a) (some b) d k ka kb h =
    let key : row_key a ≡ row_key b = ka a refl ∙ sym (kb b refl) in
    let forth : RowDiff.apply (RowDiff.from_rows a b) a ≡ b =
      apply-from_rows a b (ap (λ (j : Key). j.0) key, ap (λ (j : Key). j.1) key) in
    let e : modified (RowDiff.from_rows a b) ≡ d = ground arith in
    rw (← e) (ap some forth, ap some (cc (forth, apply_idem (RowDiff.from_rows a b) a)))

diff_key_of_expected :
    (a b : Option DatabasePrivilegeRow) (d : DatabasePrivilegesDiff) (k : Key)
    → ((r : DatabasePrivilegeRow) → a ≡ some r → row_key r ≡ k)
    → ((r : DatabasePrivilegeRow) → b ≡ some r → row_key r ≡ k)
    → expected a b ≡ some d
    → diff_key d ≡ k
unfolding RowDiff.from_rows
diff_key_of_expected none none d k ka kb h = cc
diff_key_of_expected none (some b) d k ka kb h = let e : new b ≡ d = cc in rw (← e) (kb b refl)
diff_key_of_expected (some a) none d k ka kb h = let e : deleted a ≡ d = cc in rw (← e) (ka a refl)
diff_key_of_expected (some a) (some b) d k ka kb h =
    let e : modified (RowDiff.from_rows a b) ≡ d = ground arith in rw (← e) (ka a refl)

-- Where no difference is expected there is none.
expected-none :
    (a b : Option DatabasePrivilegeRow) (k : Key)
    → ((r : DatabasePrivilegeRow) → a ≡ some r → row_key r ≡ k)
    → ((r : DatabasePrivilegeRow) → b ≡ some r → row_key r ≡ k)
    → expected a b ≡ none
    → a ≡ b
expected-none none none k ka kb h = refl
expected-none none (some b) k ka kb h = absurd (ground arith)
expected-none (some a) none k ka kb h = absurd (ground arith)
expected-none (some a) (some b) k ka kb h =
    let key : row_key a ≡ row_key b = ka a refl ∙ sym (kb b refl) in
    let d = RowDiff.from_rows a b in
    let empty : RowDiff.is_empty d ≡ true = ground arith in
    cc (
      apply-from_rows a b (ap (λ (j : Key). j.0) key, ap (λ (j : Key). j.1) key),
      is_empty-eq-no_changes d empty,
      apply-no_changes d.db d.user a,
    )

-- For two lists in which no two rows of one key differ, applying the result of `diff_privileges`
-- to the first leaves under every key exactly the row that the second has there, or none if it has
-- none.
pub diff_privileges_transforms :
    (from to : List DatabasePrivilegeRow) (k : Key)
    → IsKeyed from
    → IsKeyed to
    → apply_all (diff_privileges from to) (view from) k ≡ view to k
diff_privileges_transforms from to k keyed_from keyed_to =
    elim (Option-cases (expected (view from k) (view to k))) [
      | inl e ↦
          apply_all_fixed (diff_privileges from to) (view from) k (view to k)
            (λ d m key. absurd (no_diff e d m key))
            (expected-none (view from k) (view to k) k has_key_from has_key_to e)
      | inr (d, e) ↦
          let key = diff_key_of_expected (view from k) (view to k) d k has_key_from has_key_to e in
          let acts = act-expected (view from k) (view to k) d k has_key_from has_key_to e in
          apply_all_only (diff_privileges from to) (view from) k d (view from k) (view to k)
            ((diff_privileges_exact from to d keyed_from keyed_to).1 (rw key e))
            (λ x m keyed. only d e x m keyed) key acts.0 acts.1 refl
    ]
  where
    has_key_from : (r : DatabasePrivilegeRow) → view from k ≡ some r → row_key r ≡ k
    has_key_from r h = (view_sound from k r h).1

    has_key_to : (r : DatabasePrivilegeRow) → view to k ≡ some r → row_key r ≡ k
    has_key_to r h = (view_sound to k r h).1

    found :
        (d : DatabasePrivilegesDiff)
        → Has d (diff_privileges from to)
        → diff_key d ≡ k
        → expected (view from k) (view to k) ≡ some d
    found d m key = rw (← key) ((diff_privileges_exact from to d keyed_from keyed_to).0 m)

    no_diff :
        expected (view from k) (view to k) ≡ none
        → (d : DatabasePrivilegesDiff) → Has d (diff_privileges from to)
        → diff_key d ≡ k
        → ⊥
    no_diff e d m key = ground (arith, found d m key)

    only :
        (d : DatabasePrivilegesDiff)
        → expected (view from k) (view to k) ≡ some d
        → (x : DatabasePrivilegesDiff) → Has x (diff_privileges from to)
        → diff_key x ≡ k
        → x ≡ d
    only d e x m key = ground (arith, found x m key)

-- ===== src/Privileges/Diff/Meaning.antt =====
-- What a diff does to the row of its database and user, and that `mappend` is "first the one, then
-- the other" for diffs that apply in turn.
use muscl.Prelude.{
  ◌≡◌, ◌≢◌, refl, ◌∙◌, ap, Option, none, some, Bool-cases, ◌⊎◌, inl, inr, ok, arith,
}
use muscl.Privileges.Row.{MySqlDatabase, MySqlUser, DatabasePrivilegeRow}
use muscl.Privileges.RowDiff
use muscl.Privileges.RowDiff.{DatabasePrivilegeRowDiff}
use muscl.Privileges.RowDiff.Laws.{apply-mappend, apply-no_changes, is_empty-eq-no_changes}
use muscl.Privileges.Diff.Order.{rank}
use muscl.Privileges.Diff.{
  DatabasePrivilegesDiff, new, modified, deleted, noop, modified_or_noop, mappend,
  get_database_name, get_user_name,
}

-- The row of a database and user after the diff, where `none` stands for no row.
abbrev pub act : DatabasePrivilegesDiff → Option DatabasePrivilegeRow → Option DatabasePrivilegeRow
act (new p) old = some p
act (modified d) none = none
act (modified d) (some r) = some (RowDiff.apply d r)
act (deleted p) old = none
act (noop db user) old = old

-- A creation applies where there is no row, a modification and a deletion where there is one.
abbrev pub Applies : DatabasePrivilegesDiff → Option DatabasePrivilegeRow → Type 0
Applies (new p) old = old ≡ none
Applies (modified d) old = old ≢ none
Applies (deleted p) old = old ≢ none
Applies (noop db user) old = Unit

-- The second diff does not create what the first has deleted.
abbrev pub NotRecreated : DatabasePrivilegesDiff → DatabasePrivilegesDiff → Type 0
NotRecreated (deleted p) (new q) = ⊥
NotRecreated _ _ = Unit

pub act-modified_or_noop :
    (d : DatabasePrivilegeRowDiff) (r : DatabasePrivilegeRow)
    → act (modified_or_noop d) (some r) ≡ some (RowDiff.apply d r)
act-modified_or_noop d r = elim (Bool-cases (RowDiff.is_empty d)) [
  | inl e ↦ rw e (cc (is_empty-eq-no_changes d e, apply-no_changes d.db d.user r))
  | inr e ↦ rw e refl
]

-- If one diff applies to a row, and a second to what the first makes of it, and the second does
-- not create what the first deletes, then `mappend` succeeds and its result does what the two do
-- in turn.
pub mappend-act :
    (d e : DatabasePrivilegesDiff) (old : Option DatabasePrivilegeRow)
    → NotRecreated d e
    → Applies d old
    → Applies e (act d old)
    → (m : DatabasePrivilegesDiff) × (mappend d e ≡ ok m) × (act m old ≡ act e (act d old))
unfolding mappend
mappend-act (new p) (new q) old c hd he = cc
mappend-act (new p) (modified m) old c hd he = (new (RowDiff.apply m p), refl, refl)
mappend-act (new p) (deleted q) old c hd he = (noop p.db p.user, refl, hd)
mappend-act (new p) (noop db user) old c hd he = (new p, refl, refl)
mappend-act (modified d) (new q) none c hd he = absurd (hd refl)
mappend-act (modified d) (new q) (some r) c hd he = cc
mappend-act (modified d) (modified m) none c hd he = absurd (hd refl)
mappend-act (modified d) (modified m) (some r) c hd he = (
  modified_or_noop (RowDiff.mappend d m),
  refl,
  act-modified_or_noop (RowDiff.mappend d m) r ∙ ap some (apply-mappend d m r),
)
mappend-act (modified d) (deleted q) old c hd he = (deleted q, refl, refl)
mappend-act (modified d) (noop db user) old c hd he = (modified d, refl, refl)
mappend-act (deleted p) (new q) old c hd he = absurd c
mappend-act (deleted p) (modified m) old c hd he = absurd (he refl)
mappend-act (deleted p) (deleted q) old c hd he = absurd (he refl)
mappend-act (deleted p) (noop db user) old c hd he = (deleted p, refl, refl)
mappend-act (noop db user) (new q) old c hd he = (new q, refl, refl)
mappend-act (noop db user) (modified m) old c hd he = (modified m, refl, refl)
mappend-act (noop db user) (deleted q) old c hd he = (deleted q, refl, refl)
mappend-act (noop db user) (noop db' user') old c hd he = (noop db' user', refl, refl)

-- What else is known of a merge: it is of the key of its parts, it applies where the first part
-- did, and it is a deletion only if a part is.
pub mappend_facts :
    (d e m : DatabasePrivilegesDiff) (k : MySqlDatabase × MySqlUser)
    (old : Option DatabasePrivilegeRow)
    → NotRecreated d e
    → Applies d old
    → Applies e (act d old)
    → (get_database_name d, get_user_name d) ≡ k
    → (get_database_name e, get_user_name e) ≡ k
    → mappend d e ≡ ok m
    → ((get_database_name m, get_user_name m) ≡ k)
      × Applies m old
      × (rank m ≡ 2 → (rank d ≡ 2) ⊎ (rank e ≡ 2))
unfolding mappend RowDiff.apply RowDiff.mappend
mappend_facts (new p) (new q) m k old c hd he kd ke h = ground arith
mappend_facts (new p) (modified y) m k old c hd he kd ke h = ground arith
mappend_facts (new p) (deleted q) m k old c hd he kd ke h = ground arith
mappend_facts (new p) (noop db' user') m k old c hd he kd ke h = ground arith
mappend_facts (modified x) (new q) m k old c hd he kd ke h = ground arith
mappend_facts (modified x) (modified y) m k old c hd he kd ke h = ground arith
mappend_facts (modified x) (deleted q) m k old c hd he kd ke h = ground arith
mappend_facts (modified x) (noop db' user') m k old c hd he kd ke h = ground arith
mappend_facts (deleted p) (new q) m k old c hd he kd ke h = ground arith
mappend_facts (deleted p) (modified y) m k old c hd he kd ke h = ground arith
mappend_facts (deleted p) (deleted q) m k old c hd he kd ke h = ground arith
mappend_facts (deleted p) (noop db' user') m k old c hd he kd ke h = ground arith
mappend_facts (noop db user) (new q) m k old c hd he kd ke h = ground arith
mappend_facts (noop db user) (modified y) m k old c hd he kd ke h = ground arith
mappend_facts (noop db user) (deleted q) m k old c hd he kd ke h = ground arith
mappend_facts (noop db user) (noop db' user') m k old c hd he kd ke h = ground arith

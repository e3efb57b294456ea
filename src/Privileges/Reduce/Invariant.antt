-- ===== src/Privileges/Reduce/Invariant.antt =====
-- While the diffs are merged, the entry of every key does to the initial row what the diffs so far
-- have done to it.
use muscl.Prelude.{
  ℕ, ◌≤◌, ◌≡◌, refl, sym, false, Option, none, some, List, [], ◌∷◌, All, ok, inl, inr, Bool-cases,
  arith, if◌then◌else◌,
}
use mathlib.Core.Path.{subst, ap}
use muscl.Prelude.HashMap.{lookup, put, lookup-put, IsMap, put-IsMap}
use muscl.Privileges.Diff.{DatabasePrivilegesDiff, new, modified, deleted, noop}
use muscl.Privileges.Diff.Order.{rank}
use muscl.Privileges.Diff.Meaning.{act, Applies, NotRecreated, mappend-act, mappend_facts}
use muscl.Privileges.Tables.{Key, key_eq, key_eq_iff, key_Eq, diff_key}
use muscl.Privileges.State.{State, apply_one, apply_all}
use muscl.Privileges.Reduce.{Merged, merge_entry, merge_entries}

-- The diffs apply one after the other.
abbrev pub AllApply : List DatabasePrivilegesDiff → State → Type 0
AllApply [] s = Unit
AllApply (d ∷ ds) s = Applies d (s (diff_key d)) × AllApply ds (apply_one d s)

-- Creations come first, then modifications, deletions and no-ops: the order of the `BTreeSet`.
abbrev pub IsRanked : List DatabasePrivilegesDiff → Type 0
IsRanked [] = Unit
IsRanked (d ∷ ds) = All (λ e. rank d ≤ rank e) ds × IsRanked ds

abbrev pub Stands :
    State → State → List DatabasePrivilegesDiff → Key → Option DatabasePrivilegesDiff → Type 0
Stands base s rest k none = s k ≡ base k
Stands base s rest k (some d) =
    (diff_key d ≡ k)
    × Applies d (base k)
    × (act d (base k) ≡ s k)
    × (rank d ≡ 2 → All (λ e. 2 ≤ rank e) rest)

pub record Tracks (base s : State) (rest : List DatabasePrivilegesDiff) (m : Merged) : Type 0 where
  pub stands : (k : Key) → Stands base s rest k (lookup k m)
  pub is_map : IsMap m

All-late :
    (ds : List DatabasePrivilegesDiff) (n : ℕ)
    → n ≡ 2
    → All (λ e. n ≤ rank e) ds
    → All (λ e. 2 ≤ rank e) ds
All-late ds n h all = rw h at all

not_recreated : (d e : DatabasePrivilegesDiff) → (rank d ≡ 2 → 2 ≤ rank e) → NotRecreated d e
not_recreated (deleted p) (new q) h = absurd (omega (arith, h refl))
not_recreated (deleted p) (modified y) h = tt
not_recreated (deleted p) (deleted y) h = tt
not_recreated (deleted p) (noop db user) h = tt
not_recreated (new p) e h = tt
not_recreated (modified p) e h = tt
not_recreated (noop db user) e h = tt

module _ (base s : State) (d : DatabasePrivilegesDiff) (ds : List DatabasePrivilegesDiff) where
  -- The entries of the other keys stand as they did.
  Stands-other :
      (k : Key) (o : Option DatabasePrivilegesDiff)
      → key_eq (diff_key d) k ≡ false
      → Stands base s (d ∷ ds) k o
      → Stands base (apply_one d s) ds k o
  Stands-other k none other h = rw other h
  Stands-other k (some x) other (key, applies, acts, late) =
      (key, applies, rw other acts, λ e. (late e).1)

  -- The entry of the diff's own key, after `merge_entry`.
  Stands-self :
      (x : DatabasePrivilegesDiff)
      → diff_key x ≡ diff_key d
      → Applies x (base (diff_key d))
      → act x (base (diff_key d)) ≡ act d (s (diff_key d))
      → (rank x ≡ 2 → All (λ e. 2 ≤ rank e) ds)
      → Stands base (apply_one d s) ds (diff_key d) (some x)
  Stands-self x key applies acts late =
      (key, applies, rw ((key_eq_iff (diff_key d) (diff_key d)).1 refl) acts, late)

  Tracks-put :
      (m : Merged) (x : DatabasePrivilegesDiff)
      → Tracks base s (d ∷ ds) m
      → Stands base (apply_one d s) ds (diff_key d) (some x)
      → Tracks base (apply_one d s) ds (put (diff_key d) x m)
  Tracks-put m x tracks own = record {
    stands = λ k. rw (lookup-put (diff_key d) k x m) (elim (Bool-cases (key_eq (diff_key d) k)) [
      | inl same ↦
          subst (λ b. Stands base (apply_one d s) ds k (if b then some x else lookup k m))
            (sym same)
            (subst (λ j. Stands base (apply_one d s) ds j (some x))
              ((key_eq_iff (diff_key d) k).0 same) own)
      | inr other ↦
          subst (λ b. Stands base (apply_one d s) ds k (if b then some x else lookup k m))
            (sym other) (Stands-other k (lookup k m) other (tracks.stands k))
    ]);
    is_map = put-IsMap (diff_key d) x m tracks.is_map;
  }

  -- One round of the merge succeeds and keeps the invariant.
  merge_entry-Tracks :
      (m : Merged)
      → Tracks base s (d ∷ ds) m
      → Applies d (s (diff_key d))
      → All (λ e. rank d ≤ rank e) ds
      → (m' : Merged) × (merge_entry d m ≡ ok m') × Tracks base (apply_one d s) ds m'
  unfolding merge_entry
  merge_entry-Tracks m tracks applies ranked = go (lookup (diff_key d) m) refl
    where
      go :
          (o : Option DatabasePrivilegesDiff)
          → lookup (diff_key d) m ≡ o
          → (m' : Merged) × (merge_entry d m ≡ ok m') × Tracks base (apply_one d s) ds m'
      go none e =
          let stood : s (diff_key d) ≡ base (diff_key d) =
            subst (Stands base s (d ∷ ds) (diff_key d)) e (tracks.stands (diff_key d)) in
          (
            put (diff_key d) d m,
            rw (e, merge_entry) refl,
            Tracks-put m d tracks (
                Stands-self d refl (rw (← stood) applies) (ap (act d) (sym stood))
                  (λ two. All-late ds (rank d) two ranked)),
          )
      go (some x) e =
          let (key, applied, acts, late) =
            subst (Stands base s (d ∷ ds) (diff_key d)) e (tracks.stands (diff_key d)) in
          let next : Applies d (act x (base (diff_key d))) = rw acts applies in
          let apart : NotRecreated x d = not_recreated x d (λ two. (late two).0) in
          let (y, merged, both) = mappend-act x d (base (diff_key d)) apart applied next in
          let facts =
            mappend_facts x d y (diff_key d) (base (diff_key d)) apart applied next key refl
              merged in
          (
            put (diff_key d) y m,
            rw (e, merge_entry) (rw merged refl),
            Tracks-put m y tracks (
                Stands-self y facts.0 facts.1 (rw both (rw acts refl)) (λ two. elim (facts.2 two) [
                  | inl before ↦ (late before).1
                  | inr now ↦ All-late ds (rank d) now ranked
                ])),
          )

-- The whole loop succeeds, and its entries do what all the diffs do.
pub merge_entries-Tracks :
    (base s : State) (ds : List DatabasePrivilegesDiff) (m : Merged)
    → Tracks base s ds m
    → AllApply ds s
    → IsRanked ds
    → (m' : Merged) × (merge_entries ds m ≡ ok m') × Tracks base (apply_all ds s) [] m'
unfolding merge_entries
merge_entries-Tracks base s [] m tracks applies ranked = (m, refl, tracks)
merge_entries-Tracks base s (d ∷ ds) m tracks applies ranked =
    let (m1, first, kept) = merge_entry-Tracks base s d ds m tracks applies.0 ranked.0 in
    let (m2, rest, done) =
      merge_entries-Tracks base (apply_one d s) ds m1 kept applies.1 ranked.1 in
    (m2, rw first rest, done)

-- ===== src/Privileges/Reduce/Sequential.antt =====
-- The reduced diffs do what the given diffs do one after the other.
use mathlib.Core.Option
use muscl.Prelude.{
  ◌≡◌, refl, sym, ◌∙◌, ap, true, false, Option, none, some, List, [], ◌∷◌, Has, ok, inl, inr, ◌↔◌,
  Bool-cases, arith, if◌then◌else◌,
}
use mathlib.Core.Path.{subst}
use muscl.Prelude.Ordered.{insert}
use muscl.Privileges.Diff.Order.{diff_ord}
use muscl.Prelude.HashMap.{lookup, IsMap, lookup_of_Has, Has-of_lookup}
use muscl.Privileges.Row.{DatabasePrivilegeRow}
use muscl.Privileges.RowDiff
use muscl.Privileges.RowDiff.Laws.{apply_idem}
use muscl.Privileges.Diff.{DatabasePrivilegesDiff, new, modified, deleted, noop, is_noop}
use muscl.Privileges.Diff.Meaning.{act, act-modified_or_noop}
use muscl.Privileges.Tables.{
  Key, key_eq, key_eq_iff, key_Eq, Table, row_key, diff_key, lookup_table, view,
}
use muscl.Privileges.Tables.Laws.{view_sound, lookup_table-IsMap}
use muscl.Privileges.State.{State, apply_all, apply_all_fixed, apply_all_only}
use muscl.Privileges.Loop.{insert_all, Has-insert_all}
use muscl.Privileges.Compare.Edits.{apply-remove_noops}
use muscl.Privileges.Reduce.{
  Merged, noop_entries, reduce_entry, reduce_entries, into_set, reduce_privilege_diffs,
}
use muscl.Privileges.Reduce.Invariant.{AllApply, IsRanked, Tracks, Stands, merge_entries-Tracks}

lookup-noop_entries :
    (k : Key) (t : Table) (x : DatabasePrivilegesDiff)
    → lookup k (noop_entries t) ≡ some x
    → x ≡ noop k.0 k.1
unfolding noop_entries lookup
lookup-noop_entries k [] x h = cc
lookup-noop_entries k (((db, user), r) ∷ t) x h =
    ground (arith, key_eq_iff (db, user) k, lookup-noop_entries k t x)

lookup-noop_entries-none :
    (k : Key) (t : Table) → lookup k t ≡ none → lookup k (noop_entries t) ≡ none
unfolding noop_entries lookup
lookup-noop_entries-none k [] h = refl
lookup-noop_entries-none k (((db, user), r) ∷ t) h = ground (arith, lookup-noop_entries-none k t)

noop_entries-IsMap : (t : Table) → IsMap t → IsMap (noop_entries t)
unfolding noop_entries
noop_entries-IsMap [] h = tt
noop_entries-IsMap (((db, user), r) ∷ t) h =
    (lookup-noop_entries-none (db, user) t h.0, noop_entries-IsMap t h.1)

Tracks-noop_entries :
    (base : State) (ds : List DatabasePrivilegesDiff) (t : Table)
    → IsMap t
    → Tracks base base ds (noop_entries t)
Tracks-noop_entries base ds t h = record {
  stands = λ k. go k (lookup k (noop_entries t)) refl;
  is_map = noop_entries-IsMap t h;
}
  where
    go :
        (k : Key) (o : Option DatabasePrivilegesDiff)
        → lookup k (noop_entries t) ≡ o
        → Stands base base ds k o
    go k none e = refl
    go k (some x) e = rw (lookup-noop_entries k t x e) (refl, tt, refl, λ two. absurd (omega arith))

-- `reduce_entries` works on the value of each key.
lookup-reduce_entries :
    (t : Table) (k : Key) (m : Merged)
    → lookup k (reduce_entries t m) ≡ Option.map (reduce_entry (lookup k t)) (lookup k m)
unfolding reduce_entries lookup
lookup-reduce_entries t k [] = refl
lookup-reduce_entries t k ((j, d) ∷ m) = elim (Bool-cases (key_eq j k)) [
  | inl same ↦ rw same (rw ((key_eq_iff j k).0 same) refl)
  | inr other ↦ rw other (lookup-reduce_entries t k m)
]

reduce_entries-IsMap : (t : Table) (m : Merged) → IsMap m → IsMap (reduce_entries t m)
unfolding reduce_entries
reduce_entries-IsMap t [] h = tt
reduce_entries-IsMap t ((k, d) ∷ m) h =
    (rw (lookup-reduce_entries t k m) (rw h.0 refl), reduce_entries-IsMap t m h.1)

diff_key-reduce_entry :
    (o : Option DatabasePrivilegeRow) (d : DatabasePrivilegesDiff)
    → diff_key (reduce_entry o d) ≡ diff_key d
unfolding reduce_entry RowDiff.remove_noops
diff_key-reduce_entry none (new p) = refl
diff_key-reduce_entry none (modified x) = refl
diff_key-reduce_entry none (deleted p) = refl
diff_key-reduce_entry none (noop db user) = refl
diff_key-reduce_entry (some r) (new p) = refl
diff_key-reduce_entry (some r) (modified x) = ground arith
diff_key-reduce_entry (some r) (deleted p) = refl
diff_key-reduce_entry (some r) (noop db user) = refl

act-reduce_entry :
    (o : Option DatabasePrivilegeRow) (d : DatabasePrivilegesDiff)
    → ((r : DatabasePrivilegeRow) → o ≡ some r → row_key r ≡ diff_key d)
    → act (reduce_entry o d) o ≡ act d o
unfolding reduce_entry
act-reduce_entry none (new p) key = refl
act-reduce_entry none (modified x) key = refl
act-reduce_entry none (deleted p) key = refl
act-reduce_entry none (noop db user) key = refl
act-reduce_entry (some r) (new p) key = refl
act-reduce_entry (some r) (modified x) key =
    act-modified_or_noop (RowDiff.remove_noops x r) r
    ∙ ap some (apply-remove_noops x r (key r refl))
act-reduce_entry (some r) (deleted p) key = refl
act-reduce_entry (some r) (noop db user) key = refl

act_idem :
    (d : DatabasePrivilegesDiff) (o : Option DatabasePrivilegeRow) → act d (act d o) ≡ act d o
act_idem (new p) o = refl
act_idem (modified x) none = refl
act_idem (modified x) (some r) = ap some (apply_idem x r)
act_idem (deleted p) o = refl
act_idem (noop db user) o = refl

act-noop :
    (d : DatabasePrivilegesDiff) (o : Option DatabasePrivilegeRow) → is_noop d ≡ true → act d o ≡ o
act-noop (new p) o h = cc
act-noop (modified x) o h = cc
act-noop (deleted p) o h = cc
act-noop (noop db user) o h = refl

abbrev kept : Key × DatabasePrivilegesDiff → Option DatabasePrivilegesDiff
kept (k, d) = if is_noop d then none else some d

into_set-eq-insert_all :
    (m : Merged) (result : List DatabasePrivilegesDiff)
    → into_set m result ≡ insert_all kept m result
unfolding into_set
into_set-eq-insert_all [] result = refl
into_set-eq-insert_all ((k, d) ∷ m) result = elim (Bool-cases (is_noop d)) [
  | inl e ↦ rw e (into_set-eq-insert_all m result)
  | inr e ↦ rw e (into_set-eq-insert_all m (insert d result))
]

-- The set of a map holds the values that are no no-ops.
Has-into_set :
    (m : Merged) (d : DatabasePrivilegesDiff)
    → IsMap m
    → Has d (into_set m []) ↔ ((k : Key) × (lookup k m ≡ some d) × (is_noop d ≡ false))
Has-into_set m d one = rw (into_set-eq-insert_all m []) (
  λ h. elim ((Has-insert_all kept d m []).0 h) [
    | inl none_yet ↦ absurd none_yet
    | inr ((k, x), there, e) ↦
        let same : x ≡ d = ground arith in
        let live : is_noop x ≡ false = ground arith in
        (k, rw (← same) (lookup_of_Has k x m one there), rw (← same) live)
  ],
  λ (k, found, live).
      (Has-insert_all kept d m []).1 (inr ((k, d), Has-of_lookup k d m found, rw live refl)),
)

-- The result for one key, from what the merge left there.
module _ (from : List DatabasePrivilegeRow) (s : State) (m : Merged)
    (tracks : Tracks (view from) s [] m) where
  reduced : Merged
  reduced = reduce_entries (lookup_table from) m

  reduced_entry :
      (k : Key) (x : DatabasePrivilegesDiff)
      → lookup k m ≡ some x
      → lookup k reduced ≡ some (reduce_entry (view from k) x)
  unfolding reduced
  reduced_entry k x e = rw (lookup-reduce_entries (lookup_table from) k m) (rw e refl)

  entry_of_reduced :
      (k : Key) (d : DatabasePrivilegesDiff)
      → lookup k reduced ≡ some d
      → (x : DatabasePrivilegesDiff) × (lookup k m ≡ some x)
        × (d ≡ reduce_entry (view from k) x)
        × (diff_key d ≡ k)
  unfolding reduced
  entry_of_reduced k d h = go (lookup k m) refl
    where
      h' : Option.map (reduce_entry (view from k)) (lookup k m) ≡ some d
      h' = rw (← lookup-reduce_entries (lookup_table from) k m) h

      go :
          (o : Option DatabasePrivilegesDiff)
          → lookup k m ≡ o
          → (x : DatabasePrivilegesDiff) × (lookup k m ≡ some x)
            × (d ≡ reduce_entry (view from k) x)
            × (diff_key d ≡ k)
      go none e = absurd (cc (rw e at h'))
      go (some x) e =
          let is_d : reduce_entry (view from k) x ≡ d = cc (rw e at h') in
          let stands = subst (Stands (view from) s [] k) e (tracks.stands k) in
          (x, e, sym is_d, rw (← is_d) (diff_key-reduce_entry (view from k) x ∙ stands.0))

  reduced-IsMap : IsMap reduced
  unfolding reduced
  reduced-IsMap = reduce_entries-IsMap (lookup_table from) m tracks.is_map

  -- A member of the set is the reduced entry of its key.
  member_of_set :
      (k : Key) (d : DatabasePrivilegesDiff)
      → Has d (into_set reduced [])
      → diff_key d ≡ k
      → (x : DatabasePrivilegesDiff) × (lookup k m ≡ some x)
        × (d ≡ reduce_entry (view from k) x)
        × (is_noop d ≡ false)
  member_of_set k d there key =
      let (j, found, live) = (Has-into_set reduced d reduced-IsMap).0 there in
      let (x, at_j, is_d, key') = entry_of_reduced j d found in
      let same : j ≡ k = sym key' ∙ key in
      (
        x,
        subst (λ i. lookup i m ≡ some x) same at_j,
        subst (λ i. d ≡ reduce_entry (view from i) x) same is_d,
        live,
      )

  -- Applied to the initial state, the reduced set gives the state that the merge stands for.
  apply_all-reduced : (k : Key) → apply_all (into_set reduced []) (view from) k ≡ s k
  apply_all-reduced k = go (lookup k m) refl
    where
      go :
          (o : Option DatabasePrivilegesDiff)
          → lookup k m ≡ o
          → apply_all (into_set reduced []) (view from) k ≡ s k
      go none e =
          let stands : s k ≡ view from k = subst (Stands (view from) s [] k) e (tracks.stands k) in
          apply_all_fixed (into_set reduced []) (view from) k (s k)
            (λ d there key. absurd (cc (e, (member_of_set k d there key).1))) (sym stands)
      go (some x) e =
          let stands = subst (Stands (view from) s [] k) e (tracks.stands k) in
          let y = reduce_entry (view from k) x in
          let acts : act y (view from k) ≡ s k =
            act-reduce_entry (view from k) x
              (λ r found. (view_sound from k r found).1 ∙ sym stands.0)
            ∙ stands.2 in
          let only : (d : DatabasePrivilegesDiff)
              → Has d (into_set reduced [])
              → diff_key d ≡ k
              → d ≡ y =
            λ d there key.
              cc (e, (member_of_set k d there key).1, (member_of_set k d there key).2) in
          elim (Bool-cases (is_noop y)) [
            | inl idle ↦
                apply_all_fixed (into_set reduced []) (view from) k (s k)
                  (λ d there key.
                    absurd (cc (only d there key, (member_of_set k d there key).3, idle)))
                  (sym (act-noop y (view from k) idle) ∙ acts)
            | inr live ↦
                apply_all_only (into_set reduced []) (view from) k y (view from k) (s k)
                  ((Has-into_set reduced y reduced-IsMap).1 (k, reduced_entry k x e, live)) only
                  (diff_key-reduce_entry (view from k) x ∙ stands.0) acts
                  (rw (← acts) (act_idem y (view from k))) refl
          ]

-- For diffs in the order of their set, creations first, that apply one after the other to the given
-- rows, `reduce_privilege_diffs` succeeds, and applying its result has under every key the effect
-- of applying the given diffs in turn.
pub reduce_privilege_diffs_sequential :
    (from : List DatabasePrivilegeRow) (to : List DatabasePrivilegesDiff)
    → IsRanked to
    → AllApply to (view from)
    → (result : List DatabasePrivilegesDiff) × (reduce_privilege_diffs from to ≡ ok result)
      × ((k : Key) → apply_all result (view from) k ≡ apply_all to (view from) k)
unfolding reduce_privilege_diffs
reduce_privilege_diffs_sequential from to ranked applies =
    let t = lookup_table from in
    let start = Tracks-noop_entries (view from) to t (lookup_table-IsMap from) in
    let (m, merged, tracks) =
      merge_entries-Tracks (view from) (view from) to (noop_entries t) start applies ranked in
    (
      into_set (reduce_entries t m) [],
      rw merged refl,
      λ k. unfold reduced in apply_all-reduced from (apply_all to (view from)) m tracks k,
    )

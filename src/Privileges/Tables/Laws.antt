-- ===== src/Privileges/Tables/Laws.antt =====
-- What a lookup table finds: the rows that it was built from, under their keys.
use muscl.Prelude.{
  ◌≡◌, ◌≢◌, sym, none, some, List, [], ◌∷◌, Has, All-Has, ◌⊎◌, inl, inr, Bool-cases, arith,
}
use muscl.Prelude.HashMap.{lookup, put, lookup-put, IsMap, put-IsMap}
use muscl.Privileges.Row.{DatabasePrivilegeRow}
use muscl.Privileges.Tables.{
  Key, key_eq, key_eq_iff, key_Eq, row_key, Table, collect, lookup_table, view, IsKeyed,
}

collect_sound :
    (k : Key) (r : DatabasePrivilegeRow) (ps : List DatabasePrivilegeRow) (m : Table)
    → lookup k (collect ps m) ≡ some r
    → (Has r ps × (row_key r ≡ k)) ⊎ (lookup k m ≡ some r)
unfolding collect
collect_sound k r [] m h = inr h
collect_sound k r (p ∷ ps) m h = elim (collect_sound k r ps (put (row_key p) p m) h) [
  | inl found ↦ inl (inr found.0, found.1)
  | inr there ↦ elim (Bool-cases (key_eq (row_key p) k)) [
    | inl e ↦
        let same : p ≡ r = ground (arith, lookup-put (row_key p) k p m) in
        inl (inl (sym same), rw (← same) ((key_eq_iff (row_key p) k).0 e))
    | inr e ↦ inr (ground (arith, lookup-put (row_key p) k p m))
  ]
]

collect-ne-none :
    (k : Key) (ps : List DatabasePrivilegeRow) (m : Table)
    → lookup k m ≢ none
    → lookup k (collect ps m) ≢ none
unfolding collect
collect-ne-none k [] m h = h
collect-ne-none k (p ∷ ps) m h =
    collect-ne-none k ps (put (row_key p) p m)
      (λ e. h (ground (arith, lookup-put (row_key p) k p m)))

collect_complete :
    (r : DatabasePrivilegeRow) (ps : List DatabasePrivilegeRow) (m : Table)
    → Has r ps
    → lookup (row_key r) (collect ps m) ≢ none
unfolding collect
collect_complete r [] m h = absurd h
collect_complete r (p ∷ ps) m (inl e) = collect-ne-none (row_key r) ps (put (row_key p) p m) (λ q.
    ground (arith, lookup-put (row_key p) (row_key r) p m, key_eq_iff (row_key p) (row_key r)))
collect_complete r (p ∷ ps) m (inr h) = collect_complete r ps (put (row_key p) p m) h

module _ (rows : List DatabasePrivilegeRow) where
  -- What a key finds is a row of the list, and has that key.
  pub view_sound :
      (k : Key) (r : DatabasePrivilegeRow) → view rows k ≡ some r → Has r rows × (row_key r ≡ k)
  unfolding lookup_table lookup
  view_sound k r h = elim (collect_sound k r rows [] h) [ inl found ↦ found | inr none_there ↦ cc ]

  pub view_complete : (r : DatabasePrivilegeRow) → Has r rows → view rows (row_key r) ≢ none
  unfolding lookup_table
  view_complete r h = collect_complete r rows [] h

  pub view-IsKeyed :
      IsKeyed rows → (r : DatabasePrivilegeRow) → Has r rows → view rows (row_key r) ≡ some r
  view-IsKeyed keyed r h = All-Has (λ p. view rows (row_key p) ≡ some p) r rows keyed h

collect-IsMap : (ps : List DatabasePrivilegeRow) (m : Table) → IsMap m → IsMap (collect ps m)
unfolding collect
collect-IsMap [] m h = h
collect-IsMap (p ∷ ps) m h = collect-IsMap ps (put (row_key p) p m) (put-IsMap (row_key p) p m h)

pub lookup_table-IsMap : (rows : List DatabasePrivilegeRow) → IsMap (lookup_table rows)
unfolding lookup_table
lookup_table-IsMap rows = collect-IsMap rows [] tt

-- ===== src/Server/Connection/Loops.antt =====
-- The loops over the names of a request: what is skipped leaves no trace, and every name has an
-- answer.
use muscl.Prelude.{
  ◌≡◌, ◌≢◌, refl, ◌∙◌, ap, Bool, false, some, List, [], ◌∷◌, Has, keep, map, Bool-cases, ◌⊎◌, inl,
  inr, Result, arith,
}
use muscl.Prelude.Ordered.{
  Ord, insert_at, get, get-insert_at_self, get-insert_at_ne, Ordering-cases,
}
use muscl.Server.Connection.{Action, for_each}

pub Has-map :
    {B K : Type 0} (key : B → K) (b : B) (bs : List B) → Has b bs → Has (key b) (map key bs)
Has-map key b [] there = absurd there
Has-map key b (c ∷ bs) (inl e) = inl (ap key e)
Has-map key b (c ∷ bs) (inr there) = inr (Has-map key b bs there)

module _ {S E A B K : Type 0} ⦃o : Ord K⦄ (key : B → K) (body : B → Action S E A) where
  -- Items whose handling leaves the state alone can be left out of the list.
  pub for_each-keep :
      (p : B → Bool)
      → ((b : B) (s : S) → p b ≡ false → (body b s).1 ≡ s)
      → (bs : List B) (results results' : List (K × Result E A)) (s : S)
      → (for_each key body bs results s).1 ≡ (for_each key body (keep p bs) results' s).1
  unfolding for_each
  for_each-keep p skips [] results results' s = refl
  for_each-keep p skips (b ∷ bs) results results' s = elim (Bool-cases (p b)) [
    | inl e ↦ rw (e, keep) (for_each-keep p skips bs _ _ _)
    | inr e ↦
        rw (e, keep)
          (ap (λ s'. (for_each key body bs (insert_at (key b) (body b s).0 results) s').1)
              (skips b s e)
            ∙ for_each-keep p skips bs (insert_at (key b) (body b s).0 results) results' s)
  ]

  -- If every handling of a key gives the same answer, then that is the key's answer.
  pub get-for_each :
      (k : K) (r : Result E A)
      → ((b : B) (s : S) → k ≡ key b → (body b s).0 ≡ r)
      → (bs : List B) (results : List (K × Result E A)) (s : S)
      → Has k (map key bs) ⊎ (get k results ≡ some r)
      → get k (for_each key body bs results s).0 ≡ some r
  unfolding for_each
  get-for_each k r h [] results s (inl there) = absurd there
  get-for_each k r h [] results s (inr found) = found
  get-for_each k r h (b ∷ bs) results s start =
      get-for_each k r h bs (insert_at (key b) (body b s).0 results) (body b s).1
        (elim (same_key k (key b)) [
          | inl same ↦ inr (
              rw (same) (get-insert_at_self (key b) (body b s).0 results)
              ∙ ap (λ x. some x) (h b s same))
          | inr other ↦ elim start [
            | inl (inl same) ↦ absurd (other same)
            | inl (inr there) ↦ inl there
            | inr found ↦ inr (get-insert_at_ne (key b) k (body b s).0 results other ∙ found)
          ]
        ])
    where
      same_key : (i j : K) → (i ≡ j) ⊎ (i ≢ j)
      same_key i j = elim (Ordering-cases (o.cmp i j)) [
        | inl e ↦ inr (λ p. absurd (ground (arith, o.cmp_refl j, ap (λ x. o.cmp x j) p)))
        | inr (inl e) ↦ inl (o.cmp-eq i j e)
        | inr (inr e) ↦ inr (λ p. absurd (ground (arith, o.cmp_refl j, ap (λ x. o.cmp x j) p)))
      ]

-- ===== src/Prelude/Ordered.antt =====
-- Rust's derived order, and `BTreeSet` and `BTreeMap` as sorted lists without repetitions.
use Prim.Native.Nat.{ℕ, compare, Ordering}
use mathlib.Core.Path.{◌≡◌, refl}
use mathlib.Core.Logic.{◌≢◌, ◌⊎◌, inl, inr}
use mathlib.Core.Option.{Option, none, some}
use mathlib.Core.List.{List, [], ◌∷◌}
use native.Mathlib.Omega.{arith}
use muscl.Prelude.Lists.{Has}

pub Ordering-cases : (o : Ordering) → (o ≡ Ordering.lt) ⊎ ((o ≡ Ordering.eq) ⊎ (o ≡ Ordering.gt))
Ordering-cases Ordering.lt = inl refl
Ordering-cases Ordering.eq = inr (inl refl)
Ordering-cases Ordering.gt = inr (inr refl)

-- `Ord` with the one law of it that the set needs.
pub record Ord (A : Type 0) : Type 0 where
  pub cmp : A → A → Ordering
  pub cmp-eq : (a b : A) → cmp a b ≡ Ordering.eq → a ≡ b
  pub cmp_refl : (a : A) → cmp a a ≡ Ordering.eq

-- `Ordering::then`
abbrev pub then_cmp : Ordering → Ordering → Ordering
then_cmp Ordering.eq o = o
then_cmp o _ = o

-- The lexicographic order of two sequences, as of strings and of the fields of a struct.
unfoldable pub cmp_list : List ℕ → List ℕ → Ordering
cmp_list [] [] = Ordering.eq
cmp_list [] (d ∷ t) = Ordering.lt
cmp_list (c ∷ s) [] = Ordering.gt
cmp_list (c ∷ s) (d ∷ t) = then_cmp (compare c d) (cmp_list s t)

pub cmp_list-eq : (s t : List ℕ) → cmp_list s t ≡ Ordering.eq → s ≡ t
unfolding cmp_list
cmp_list-eq [] [] h = refl
cmp_list-eq [] (d ∷ t) h = cc
cmp_list-eq (c ∷ s) [] h = cc
cmp_list-eq (c ∷ s) (d ∷ t) h = ground (arith, cmp_list-eq s t)

pub cmp_list_refl : (s : List ℕ) → cmp_list s s ≡ Ordering.eq
unfolding cmp_list
cmp_list_refl [] = refl
cmp_list_refl (c ∷ s) = ground (arith, cmp_list_refl s)

instance abbrev pub text_ord : Ord (List ℕ)
text_ord = record { cmp = cmp_list; cmp-eq = cmp_list-eq; cmp_refl = cmp_list_refl }

module _ {A : Type 0} ⦃o : Ord A⦄ where
  -- `BTreeSet::insert`
  unfoldable pub insert : A → List A → List A
  insert x [] = x ∷ []
  insert x (y ∷ ys) =
      let rest = insert x ys in
      elim (o.cmp x y) [ Ordering.lt ↦ x ∷ y ∷ ys | Ordering.eq ↦ y ∷ ys | Ordering.gt ↦ y ∷ rest ]

  pub Has-insert_self : (x : A) (ys : List A) → Has x (insert x ys)
  unfolding insert
  Has-insert_self x [] = inl refl
  Has-insert_self x (y ∷ ys) = elim (Ordering-cases (o.cmp x y)) [
    | inl e ↦ rw (e, insert) (inl refl)
    | inr (inl e) ↦ rw (e, insert) (inl (o.cmp-eq x y e))
    | inr (inr e) ↦ rw (e, insert) (inr (Has-insert_self x ys))
  ]

  pub Has-insert_of : (a x : A) (ys : List A) → Has a ys → Has a (insert x ys)
  unfolding insert
  Has-insert_of a x [] h = absurd h
  Has-insert_of a x (y ∷ ys) h = elim (Ordering-cases (o.cmp x y)) [
    | inl e ↦ rw (e, insert) (inr h)
    | inr (inl e) ↦ rw (e, insert) h
    | inr (inr e) ↦ rw (e, insert) (elim h [ inl p ↦ inl p | inr m ↦ inr (Has-insert_of a x ys m) ])
  ]

  pub Has-insert_cases : (a x : A) (ys : List A) → Has a (insert x ys) → (a ≡ x) ⊎ Has a ys
  unfolding insert
  Has-insert_cases a x [] h = h
  Has-insert_cases a x (y ∷ ys) h = elim (Ordering-cases (o.cmp x y)) [
    | inl e ↦ rw (e, insert) at h
    | inr (inl e) ↦ inr (rw (e, insert) at h)
    | inr (inr e) ↦
        let h' : (a ≡ y) ⊎ Has a (insert x ys) = rw (e, insert) at h in
        elim h' [
          | inl p ↦ inr (inl p)
          | inr m ↦ elim (Has-insert_cases a x ys m) [ inl p ↦ inl p | inr k ↦ inr (inr k) ]
        ]
  ]

-- `BTreeMap` as the list of its entries in the order of the keys.
module _ {K V : Type 0} ⦃o : Ord K⦄ where
  -- `BTreeMap::insert`: a key that is there keeps its place and takes the new value.
  unfoldable pub insert_at : K → V → List (K × V) → List (K × V)
  insert_at k v [] = (k, v) ∷ []
  insert_at k v ((j, w) ∷ m) =
      let rest = insert_at k v m in
      elim (o.cmp k j) [
        | Ordering.lt ↦ (k, v) ∷ (j, w) ∷ m
        | Ordering.eq ↦ (k, v) ∷ m
        | Ordering.gt ↦ (j, w) ∷ rest
      ]

  -- `BTreeMap::get`
  unfoldable pub get : K → List (K × V) → Option V
  get k [] = none
  get k ((j, w) ∷ m) = let rest = get k m in elim (o.cmp k j) [ Ordering.eq ↦ some w | _ ↦ rest ]

  pub get-insert_at_self : (k : K) (v : V) (m : List (K × V)) → get k (insert_at k v m) ≡ some v
  unfolding get insert_at
  get-insert_at_self k v [] = rw (o.cmp_refl k, get)
  get-insert_at_self k v ((j, w) ∷ m) = ground (arith, o.cmp_refl k, get-insert_at_self k v m)

  pub get-insert_at_ne :
      (k i : K) (v : V) (m : List (K × V)) → i ≢ k → get i (insert_at k v m) ≡ get i m
  unfolding get insert_at
  get-insert_at_ne k i v [] h = ground (arith, o.cmp-eq i k)
  get-insert_at_ne k i v ((j, w) ∷ m) h =
      ground (arith, o.cmp-eq i k, o.cmp-eq k j, get-insert_at_ne k i v m h)

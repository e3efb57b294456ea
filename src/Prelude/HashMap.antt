-- ===== src/Prelude/HashMap.antt =====
-- Rust's `HashMap` as an association list with one entry to a key.
use mathlib.Core.Path.{◌≡◌, refl}
use mathlib.Core.Logic.{◌↔◌, inl, inr}
use Prim.Native.Nat.{ℕ}
use mathlib.Core.Bool.{Bool, true}
use mathlib.Core.Option.{Option, none, some}
use mathlib.Core.List.{List, [], ◌∷◌}
use native.Mathlib.Omega.{arith}
use muscl.Prelude.Tests.{if◌then◌else◌, Bool-cases}
use muscl.Prelude.Lists.{Has}
use muscl.Prelude.Text.{text_eq, text_eq_iff}

pub record Eq {ℓ} (A : Type ℓ) : Type ℓ where
  pub beq : A → A → Bool
  pub beq_iff : (a b : A) → (beq a b ≡ true) ↔ (a ≡ b)

instance abbrev pub text_Eq : Eq (List ℕ)
text_Eq = record { beq = text_eq; beq_iff = text_eq_iff }

module _ {ℓ κ} {K : Type ℓ} {V : Type κ} ⦃e : Eq K⦄ where
  -- `HashMap::get`
  unfoldable pub lookup : K → List (K × V) → Option V
  lookup k [] = none
  lookup k ((j, v) ∷ m) = if e.beq j k then some v else lookup k m

  -- `HashMap::insert`
  unfoldable pub put : K → V → List (K × V) → List (K × V)
  put k v [] = (k, v) ∷ []
  put k v ((j, w) ∷ m) = if e.beq j k then (k, v) ∷ m else (j, w) ∷ put k v m

  pub lookup-put :
      (k j : K) (v : V) (m : List (K × V))
      → lookup j (put k v m) ≡ (if e.beq k j then some v else lookup j m)
  unfolding lookup put
  lookup-put k j v [] = refl
  lookup-put k j v ((i, w) ∷ m) =
      ground (arith, e.beq_iff k j, e.beq_iff i k, e.beq_iff i j, lookup-put k j v m)

  -- Every key stands once.
  abbrev pub IsMap : List (K × V) → Type κ
  IsMap [] = Unit
  IsMap ((k, v) ∷ m) = (lookup k m ≡ none) × IsMap m

  pub put-IsMap : (k : K) (v : V) (m : List (K × V)) → IsMap m → IsMap (put k v m)
  unfolding lookup put
  put-IsMap k v [] h = (refl, tt)
  put-IsMap k v ((j, w) ∷ m) h = elim (Bool-cases (e.beq j k)) [
    | inl same ↦ rw (same, put) (rw ((e.beq_iff j k).0 same) at h.0, h.1)
    | inr other ↦
        rw (other, put)
          (
            ground (arith, lookup-put k j v m, e.beq_iff k j, e.beq_iff j k, h.0),
            put-IsMap k v m h.1,
          )
  ]

-- Under a key that stands once, `get` finds the entry that stands there.
pub lookup_of_Has :
    {K V : Type 0} ⦃e : Eq K⦄ (k : K) (v : V) (m : List (K × V))
    → IsMap m
    → Has (k, v) m
    → lookup k m ≡ some v
unfolding lookup
lookup_of_Has k v [] h there = absurd there
lookup_of_Has ⦃e⦄ k v ((j, w) ∷ m) h (inl same) = ground (arith, e.beq_iff j k)
lookup_of_Has ⦃e⦄ k v ((j, w) ∷ m) h (inr there) =
    let later = lookup_of_Has k v m h.1 there in ground (arith, e.beq_iff j k, later, h.0)

-- What `get` finds is an entry.
pub Has-of_lookup :
    {K V : Type 0} ⦃e : Eq K⦄ (k : K) (v : V) (m : List (K × V))
    → lookup k m ≡ some v
    → Has (k, v) m
unfolding lookup
Has-of_lookup k v [] h = cc
Has-of_lookup ⦃e⦄ k v ((j, w) ∷ m) h = elim (Bool-cases (e.beq j k)) [
  | inl same ↦ inl (ground (arith, e.beq_iff j k))
  | inr other ↦ inr (Has-of_lookup k v m (ground arith))
]

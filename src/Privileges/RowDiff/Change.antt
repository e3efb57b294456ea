-- ===== src/Privileges/RowDiff/Change.antt =====
-- `DatabasePrivilegeChange` and the functions on one privilege that the methods of
-- `DatabasePrivilegeRowDiff` repeat for each field, with their laws.
use muscl.Prelude.{◌≡◌, Bool, true, false, Option, none, some, arith}

pub data DatabasePrivilegeChange : Type 0 where
  yes_to_no no_to_yes : DatabasePrivilegeChange

-- `DatabasePrivilegeChange::new`
unfoldable pub change_new : Bool → Bool → Option DatabasePrivilegeChange
change_new true false = some yes_to_no
change_new false true = some no_to_yes
change_new _ _ = none

abbrev pub is_none : Option DatabasePrivilegeChange → Bool
is_none none = true
is_none (some c) = false

-- One `if other.x.is_some() { self.x = other.x }` of `mappend`.
unfoldable pub merge_change :
    Option DatabasePrivilegeChange → Option DatabasePrivilegeChange → Option DatabasePrivilegeChange
merge_change c none = c
merge_change c (some d) = some d

-- The inner function `new_value` of `remove_noops`.
unfoldable pub new_value : Option DatabasePrivilegeChange → Bool → Option DatabasePrivilegeChange
new_value none from_value = none
new_value (some yes_to_no) true = some yes_to_no
new_value (some no_to_yes) false = some no_to_yes
new_value (some c) from_value = none

-- The inner function `apply_change` of `apply`.
unfoldable pub apply_change : Option DatabasePrivilegeChange → Bool → Bool
apply_change (some yes_to_no) target = false
apply_change (some no_to_yes) target = true
apply_change none target = target

pub apply_change-change_new : (a b : Bool) → apply_change (change_new a b) a ≡ b
unfolding apply_change change_new
apply_change-change_new a b = ground arith

pub change_new-eq-none : (a b : Bool) → change_new a b ≡ none → a ≡ b
unfolding change_new
change_new-eq-none a b h = ground arith

pub change_new_self : (a : Bool) → change_new a a ≡ none
unfolding change_new
change_new_self a = ground arith

module _ (c : Option DatabasePrivilegeChange) where
  pub apply_change-merge_change :
      (d : Option DatabasePrivilegeChange) (b : Bool)
      → apply_change (merge_change c d) b ≡ apply_change d (apply_change c b)
  unfolding apply_change merge_change
  apply_change-merge_change d b = ground arith

  pub new_value-eq-change_new : (b : Bool) → new_value c b ≡ change_new b (apply_change c b)
  unfolding apply_change new_value change_new
  new_value-eq-change_new b = ground arith

  pub apply_change_idem : (b : Bool) → apply_change c (apply_change c b) ≡ apply_change c b
  unfolding apply_change
  apply_change_idem b = ground arith

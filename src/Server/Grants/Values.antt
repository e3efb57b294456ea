-- ===== src/Server/Grants/Values.antt =====
-- The values in statements on privileges: the values of a change, and the test of a change against a row. Also the order of pairs of names.
use Prim.Native.Nat.{Ordering}
use muscl.Prelude.{◌≡◌, Bool, false, not, Option, none, some, ok, err, arith}
use muscl.Prelude.Text.{Text, codes}
use muscl.Prelude.Ordered.{Ord, then_cmp, cmp_list, cmp_list-eq, cmp_list_refl}
use muscl.Privileges.Row.{DatabasePrivilegeRow, get_privilege_by_name}
use muscl.Privileges.RowDiff.{DatabasePrivilegeRowDiff, get_privilege_change_by_name}
use muscl.Privileges.RowDiff.Change.{DatabasePrivilegeChange, yes_to_no, no_to_yes}
use muscl.Privileges.Tables.{Key}

pub cmp_key : Key → Key → Ordering
cmp_key (a, b) (c, d) = then_cmp (cmp_list a c) (cmp_list b d)

pub cmp_key-eq : (j k : Key) → cmp_key j k ≡ Ordering.eq → j ≡ k
unfolding cmp_key
cmp_key-eq (a, b) (c, d) h = ground (arith, cmp_list-eq a c, cmp_list-eq b d)

pub cmp_key_refl : (k : Key) → cmp_key k k ≡ Ordering.eq
unfolding cmp_key
cmp_key_refl (a, b) = ground (arith, cmp_list_refl a, cmp_list_refl b)

instance abbrev pub key_ord : Ord Key
key_ord = record { cmp = cmp_key; cmp-eq = cmp_key-eq; cmp_refl = cmp_key_refl }

abbrev pub change_to_yn : DatabasePrivilegeChange → Text
change_to_yn yes_to_no = codes "N"
change_to_yn no_to_yes = codes "Y"

-- `Option::map` of `change_to_yn`
abbrev pub map_change : Option DatabasePrivilegeChange → Option Text
map_change none = none
map_change (some c) = some (change_to_yn c)

-- Does the change not apply to the privilege?
abbrev pub is_stale : Option DatabasePrivilegeChange → Option Bool → Bool
is_stale (some yes_to_no) (some b) = not b
is_stale (some no_to_yes) (some b) = b
is_stale _ _ = false

-- The test of one field in `validate_diff`. The `unwrap`s do not fail on the names of the fields.
unfoldable pub mismatch : DatabasePrivilegeRowDiff → DatabasePrivilegeRow → Text → Bool
unfolding get_privilege_by_name get_privilege_change_by_name
mismatch d row field = elim (get_privilege_change_by_name d field) [
  | ok change ↦ is_stale change (get_privilege_by_name row field)
  | err _ ↦ false
]

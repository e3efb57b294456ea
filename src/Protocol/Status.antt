-- ===== src/Protocol/Status.antt =====
-- core/protocol/commands.rs: the status of a response in the log.
use muscl.Prelude.{ℕ, ◌+◌, Bool, if◌then◌else◌, ◌==◌, List, [], ◌∷◌, length, Result, ok, err}
use muscl.Protocol.{Response}

pub data ResponseOkStatus : Type 0 where
  success error : ResponseOkStatus
  -- How many succeeded, and of how many.
  partial_success : ℕ → ℕ → ResponseOkStatus

unfoldable pub from_counts : ℕ → ℕ → ResponseOkStatus
from_counts total succeeded =
    if succeeded == total
    then success
    else if succeeded == 0
    then error
    else partial_success succeeded total

-- `Result::is_ok`
abbrev pub is_ok {ℓ κ} : {E : Type ℓ} {A : Type κ} → Result E A → Bool
is_ok (ok a) = Bool.true
is_ok (err e) = Bool.false

abbrev pub from_bool : Bool → ResponseOkStatus
from_bool b = if b then success else error

-- `res.values().filter(|v| v.is_ok()).count()`
abbrev pub count_ok : {K E A : Type 0} → List (K × Result E A) → ℕ
count_ok [] = 0
count_ok ((k, r) ∷ results) = let rest = count_ok results in if is_ok r then 1 + rest else rest

abbrev pub status_of : {K E A : Type 0} → List (K × Result E A) → ResponseOkStatus
status_of results = from_counts (length results) (count_ok results)

-- The successes of all databases together.
abbrev pub sum_ok : {J K E A : Type 0} → List (J × List (K × Result E A)) → ℕ
sum_ok [] = 0
sum_ok ((j, users) ∷ databases) = count_ok users + sum_ok databases

unfoldable pub ok_status : Response → ResponseOkStatus
unfolding from_counts
ok_status (Response.check_authorization res) = status_of res
ok_status (Response.list_valid_name_prefixes res) = success
ok_status (Response.complete_database_name res) = success
ok_status (Response.complete_user_name res) = success
ok_status (Response.create_databases res) = status_of res
ok_status (Response.drop_databases res) = status_of res
ok_status (Response.list_databases res) = status_of res
ok_status (Response.list_all_databases res) = from_bool (is_ok res)
ok_status (Response.list_privileges res) = status_of res
ok_status (Response.list_all_privileges res) = from_bool (is_ok res)
ok_status (Response.modify_privileges res) = from_counts (length res) (sum_ok res)
ok_status (Response.create_users res) = status_of res
ok_status (Response.drop_users res) = status_of res
ok_status (Response.set_user_password res) = from_bool (is_ok res)
ok_status (Response.list_users res) = status_of res
ok_status (Response.list_all_users res) = from_bool (is_ok res)
ok_status (Response.lock_users res) = status_of res
ok_status (Response.unlock_users res) = status_of res
ok_status Response.ready = success
ok_status (Response.error message) = error

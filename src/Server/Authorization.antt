-- ===== src/Server/Authorization.antt =====
-- server/authorization.rs: the check of many names; the denylist's file is read in Denylist/File.
pub mod Answers
mod Tests
use Prim.Native.Nat.{Ordering}
use muscl.Prelude.{◌≡◌, refl, ap, List, [], ◌∷◌, Result}
use muscl.Prelude.Ordered.{Ord, cmp_list, cmp_list-eq, cmp_list_refl, insert_at}
use muscl.Validation.{DbOrUser, database, user, ValidationError}
use muscl.Server.Connection.{Session, validate}

-- The derived order: databases before users, each by name.
pub cmp_db_or_user : DbOrUser → DbOrUser → Ordering
cmp_db_or_user (database a) (database b) = cmp_list a b
cmp_db_or_user (database a) (user b) = Ordering.lt
cmp_db_or_user (user a) (database b) = Ordering.gt
cmp_db_or_user (user a) (user b) = cmp_list a b

pub cmp_db_or_user-eq : (x y : DbOrUser) → cmp_db_or_user x y ≡ Ordering.eq → x ≡ y
unfolding cmp_db_or_user
cmp_db_or_user-eq (database a) (database b) h = ap database (cmp_list-eq a b h)
cmp_db_or_user-eq (database a) (user b) h = cc
cmp_db_or_user-eq (user a) (database b) h = cc
cmp_db_or_user-eq (user a) (user b) h = ap user (cmp_list-eq a b h)

pub cmp_db_or_user_refl : (x : DbOrUser) → cmp_db_or_user x x ≡ Ordering.eq
unfolding cmp_db_or_user
cmp_db_or_user_refl (database a) = cmp_list_refl a
cmp_db_or_user_refl (user a) = cmp_list_refl a

instance abbrev pub db_or_user_ord : Ord DbOrUser
db_or_user_ord = record {
  cmp = cmp_db_or_user;
  cmp-eq = cmp_db_or_user-eq;
  cmp_refl = cmp_db_or_user_refl;
}

-- `collect` into a `BTreeMap`, one name after the other.
unfoldable pub check_all :
    {S : Type 0}
    → Session S
    → List DbOrUser
    → List (DbOrUser × Result ValidationError (Unit {0}))
    → List (DbOrUser × Result ValidationError (Unit {0}))
check_all session [] results = results
check_all session (x ∷ xs) results = check_all session xs (insert_at x (validate session x) results)

-- The struct `CheckAuthorizationError` around the error is left out.
unfoldable pub check_authorization :
    {S : Type 0} → Session S → List DbOrUser → List (DbOrUser × Result ValidationError (Unit {0}))
check_authorization session dbs_or_users = check_all session dbs_or_users []

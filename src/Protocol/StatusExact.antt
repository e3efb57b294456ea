-- ===== src/Protocol/StatusExact.antt =====
-- core/protocol/commands.rs: when the status of a response is a success, and when an error.
use muscl.Prelude.{
  ◌≡◌, refl, ◌↔◌, ◌≢◌, ◌<◌, ℕ, ◌+◌, ◌≤◌, true, false, List, [], ◌∷◌, length, Result, ok, err, All,
  arith, keep, sym, ◌∙◌,
}
use muscl.Privileges.Row.{MySqlDatabase, MySqlUser}
use muscl.Server.Grants.{ModifyDatabasePrivilegesError}
use muscl.Protocol.{Response}
use muscl.Protocol.Status.{
  success, error, partial_success, from_counts, is_ok, count_ok, status_of, ok_status,
}

from_counts-success :
    (total succeeded : ℕ) → (from_counts total succeeded ≡ success) ↔ (succeeded ≡ total)
unfolding from_counts
from_counts-success total succeeded = ground arith

from_counts-error :
    (total succeeded : ℕ)
    → (from_counts total succeeded ≡ error) ↔ ((succeeded ≡ 0) × (succeeded ≢ total))
unfolding from_counts
from_counts-error total succeeded = ground arith

from_counts-partial :
    (total succeeded n m : ℕ)
    → from_counts total succeeded ≡ partial_success n m
    → (n ≡ succeeded) × ((m ≡ total) × ((succeeded ≢ 0) × (succeeded ≢ total)))
unfolding from_counts
from_counts-partial total succeeded n m h = ground arith

from_counts-of_partial :
    (total succeeded n m : ℕ)
    → n ≡ succeeded
    → m ≡ total
    → 0 < n
    → n < m
    → from_counts total succeeded ≡ partial_success n m
unfolding from_counts
from_counts-of_partial total succeeded n m same same_total positive fewer = ground arith

module _ {K E A : Type 0} where
  count_ok_bound : (results : List (K × Result E A)) → count_ok results ≤ length results
  count_ok_bound [] = omega arith
  count_ok_bound ((k, r) ∷ results) = ground (arith, count_ok_bound results)

  count_ok-All :
      (results : List (K × Result E A))
      → (count_ok results ≡ length results) ↔ All (λ r. is_ok r.1 ≡ true) results
  count_ok-All [] = (λ _. tt, λ _. refl)
  count_ok-All ((k, ok a) ∷ results) = (
    λ h. (refl, (count_ok-All results).0 (omega (arith, h))),
    λ (e, h). omega (arith, (count_ok-All results).1 h),
  )
  count_ok-All ((k, err e) ∷ results) =
      (λ h. absurd (omega (arith, h, count_ok_bound results)), λ (no_way, h). cc)

  count_ok_none :
      (results : List (K × Result E A))
      → (count_ok results ≡ 0) ↔ All (λ r. is_ok r.1 ≡ false) results
  count_ok_none [] = (λ _. tt, λ _. refl)
  count_ok_none ((k, ok a) ∷ results) = (λ h. absurd (omega (arith, h)), λ (no_way, h). cc)
  count_ok_none ((k, err e) ∷ results) =
      (λ h. (refl, (count_ok_none results).0 h), λ (no_way, h). (count_ok_none results).1 h)

  -- The results that are `Ok`.
  abbrev pub successes : List (K × Result E A) → List (K × Result E A)
  successes results = keep (λ r. is_ok r.1) results

  count_ok-successes :
      (results : List (K × Result E A)) → count_ok results ≡ length (successes results)
  count_ok-successes [] = refl
  count_ok-successes ((k, ok a) ∷ results) =
      let rest = count_ok-successes results in omega (arith, rest)
  count_ok-successes ((k, err e) ∷ results) = count_ok-successes results

  -- The status of a response with a result for every name is a success exactly if all results are;
  -- an error exactly if there is a result and none is a success; and partial, with two numbers,
  -- exactly if these are how many results are `Ok` and how many there are, of which some but not
  -- all are `Ok`.
  pub status_of_exact :
      (results : List (K × Result E A))
      → ((status_of results ≡ success) ↔ All (λ r. is_ok r.1 ≡ true) results)
        × ((status_of results ≡ error)
            ↔ (All (λ r. is_ok r.1 ≡ false) results × (0 < length results)))
        × ((n total : ℕ)
            → (status_of results ≡ partial_success n total) ↔ (
                (n ≡ length (successes results))
                × (total ≡ length results)
                × (0 < n)
                × (n < total)))
  status_of_exact results =
      let total = length results in
      let n = count_ok results in
      let bound = count_ok_bound results in
      let counted = count_ok-successes results in
      let all = count_ok-All results in
      let none = count_ok_none results in
      let is_success = from_counts-success total n in
      let is_error = from_counts-error total n in
      (
        (λ h. all.0 (is_success.0 h), λ h. is_success.1 (all.1 h)),
        (
          λ h. let (zero_ok, differ) = is_error.0 h in (none.0 zero_ok, omega (arith, bound)),
          λ (h, some_there). is_error.1 (none.1 h, λ e. omega (arith, none.1 h)),
        ),
        λ k m. (
          λ h.
              let (same, (same_total, (positive, differ))) = from_counts-partial total n k m h in
              (same ∙ counted, same_total, omega (arith, bound), omega (arith, bound)),
          λ (same, same_total, positive, fewer).
              from_counts-of_partial total n k m (same ∙ sym counted) same_total positive fewer,
        ),
      )

-- With the diffs of one database, the status is a success exactly if one of them has succeeded,
-- however many there are.
pub modify_privileges_status :
    (db : MySqlDatabase)
    (users : List (MySqlUser × Result ModifyDatabasePrivilegesError (Unit {0})))
    → (ok_status (Response.modify_privileges ((db, users) ∷ [])) ≡ success) ↔ (count_ok users ≡ 1)
unfolding ok_status
modify_privileges_status db users =
    let is_success = from_counts-success 1 (count_ok users + 0) in
    (λ h. omega (arith, is_success.0 h), λ h. is_success.1 (omega (arith, h)))

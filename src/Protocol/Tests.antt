-- ===== src/Protocol/Tests.antt =====
-- Examples of core/protocol/commands.rs.
use muscl.Prelude.{◌≡◌, refl, ◌↔◌, ◌<◌, ℕ, true, false, [], ◌∷◌, All, length, ok, err, some}
use muscl.Prelude.Text.{codes}
use muscl.Prelude.Decimal.{decimal}
use muscl.Prelude.Ordered.{text_ord, insert, cmp_list}
use muscl.Server.Databases.{CreateDatabaseError, database_already_exists}
use muscl.Server.Grants.{ModifyDatabasePrivilegesError, user_does_not_exist}
use muscl.Protocol.{Request, Response, Results, command_name, log_summary, affected_users}
use muscl.Protocol.Status.{
  success, error, partial_success, from_counts, is_ok, count_ok, status_of, ok_status,
}
use muscl.Prelude.Words.{join}
use muscl.Validation.{database, authorization_error, denylist_error}
use muscl.Protocol.Messages.{validation_error_message, format_possibly_truncated_list}
use muscl.Protocol.StatusExact.{successes, status_of_exact, modify_privileges_status}

abbrev two_created : Results CreateDatabaseError (Unit {0})
two_created = (codes "a_a", ok tt) ∷ (codes "a_b", err database_already_exists) ∷ []

abbrev one_modified : Results ModifyDatabasePrivilegesError (Unit {0})
one_modified = (codes "a_a", ok tt) ∷ (codes "a_b", err user_does_not_exist) ∷ []

partly_created : ok_status (Response.create_databases two_created) ≡ partial_success 1 2
unfolding ok_status from_counts
partly_created = refl

-- One of two diffs has failed, and the status is a success.
partly_modified :
    ok_status (Response.modify_privileges ((codes "a_d", one_modified) ∷ [])) ≡ success
unfolding ok_status from_counts
partly_modified = refl

summary : log_summary (Request.list_users (some (codes "a_u" ∷ [])) true) ≡ codes "list-users(1)"
unfolding log_summary command_name decimal
summary = refl

affected :
    affected_users (Request.lock_users (codes "a_b" ∷ codes "a_a" ∷ codes "a_b" ∷ []))
    ≡ codes "a_a" ∷ codes "a_b" ∷ []
unfolding affected_users insert cmp_list
affected = refl

status_of_exact_example :
    ((status_of two_created ≡ success) ↔ All (λ r. is_ok r.1 ≡ true) two_created)
    × ((status_of two_created ≡ error)
        ↔ (All (λ r. is_ok r.1 ≡ false) two_created × (0 < length two_created)))
    × ((n total : ℕ)
        → (status_of two_created ≡ partial_success n total) ↔ (
            (n ≡ length (successes two_created))
            × (total ≡ length two_created)
            × (0 < n)
            × (n < total)))
status_of_exact_example = status_of_exact two_created

modify_privileges_status_example :
    (ok_status (Response.modify_privileges ((codes "a_d", one_modified) ∷ [])) ≡ success)
    ↔ (count_ok one_modified ≡ 1)
modify_privileges_status_example = modify_privileges_status (codes "a_d") one_modified

all_items : format_possibly_truncated_list (codes "a" ∷ codes "b" ∷ []) 2 ≡ codes "a\nb"
unfolding format_possibly_truncated_list join
all_items = refl

more_items :
    format_possibly_truncated_list (codes "a" ∷ codes "b" ∷ []) 5 ≡ codes "a\nb\n... (3 more)"
unfolding format_possibly_truncated_list join decimal
more_items = refl

no_items : format_possibly_truncated_list [] 5 ≡ codes "... (5 more)"
unfolding format_possibly_truncated_list join decimal
no_items = refl

denied_message :
    validation_error_message (authorization_error denylist_error) (database (codes "a_b"))
    ≡ codes "'a_b' is denied by the group denylist"
denied_message = refl

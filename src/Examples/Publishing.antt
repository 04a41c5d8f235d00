-- ===== src/Examples/Publishing.antt =====
-- The publish engine on the small table.
use ai_social_brightbean_stu.Common.{◌≡◌, inr, refl, false, some, [], ◌∷◌, All}
use ai_social_brightbean_stu.SocialAccounts.ErrorMessages.{publish_generic}
use ai_social_brightbean_stu.Composer.Status.{◌is◌}
use ai_social_brightbean_stu.Composer.Rows.{find, is_held}
use ai_social_brightbean_stu.Publisher.Store.{Store, default_config}
use ai_social_brightbean_stu.Publisher.Failure.{fail_permanently}
use ai_social_brightbean_stu.Publisher.Failure.Guard.{fail_permanently_spares}
use ai_social_brightbean_stu.Publisher.Publish.{Attempt, raised, delivered, publish_platform_post}
use ai_social_brightbean_stu.Publisher.Publish.Outcome.{IsResolved, undelivered_resolves}
use ai_social_brightbean_stu.Publisher.Cycle.{is_listed, claim, set_publishing, retry_one}
use ai_social_brightbean_stu.Publisher.Cycle.Attempts.{FailedTurn, turn_resolves}
use ai_social_brightbean_stu.Publisher.Cycle.Claim.{claim_once}
use ai_social_brightbean_stu.Examples.Data.{
  out, waiting, retried, table, table-IsKeyed, db, server_error, attempt,
}

out_found : find 1 table ≡ some out
unfolding find
out_found = refl

waiting_found : find 2 table ≡ some waiting
unfolding find
waiting_found = refl

fail_permanently_spares_example :
    (find 2 (fail_permanently 500 waiting publish_generic db).rows ≡ some waiting)
    × ((fail_permanently 500 waiting publish_generic db).told ≡ [])
fail_permanently_spares_example =
    fail_permanently_spares 500 waiting waiting publish_generic db table-IsKeyed waiting_found
      (unfold ◌is◌ in refl)

undelivered_resolves_example :
    IsResolved 500 out (publish_platform_post 500 (attempt (raised server_error)) out db).0
undelivered_resolves_example =
    undelivered_resolves 500 (attempt (raised server_error)) out out db refl table-IsKeyed out_found
      refl (inr tt)

abbrev sending : Attempt
sending = attempt (delivered (some "p1") false)

abbrev unlogged : Attempt
unlogged = record sending { log_written = false }

claim_once_example :
    All
      (λ row.
        is_listed (claim 501 8 (waiting ∷ []) (claim 500 8 (waiting ∷ []) table).1).0 row ≡ false)
      (claim 500 8 (waiting ∷ []) table).0
claim_once_example = claim_once 500 501 8 8 (waiting ∷ []) (waiting ∷ []) table table-IsKeyed

abbrev waiting_again : Store
waiting_again = record db { rows = retried ∷ [] }

failed_turn :
    FailedTurn 500 default_config (λ id. attempt (raised server_error)) retried waiting_again
failed_turn = record {
  keyed = unfold find in (refl, tt);
  waits = unfold find in refl;
  free = unfold is_held ◌is◌ in refl;
  written = refl;
  undelivered = tt;
}

abbrev turn_left :
    IsResolved 500
      (set_publishing 500 retried)
      (retry_one 500 default_config (λ id. attempt (raised server_error)) retried waiting_again)
turn_left =
    turn_resolves 500 default_config (λ id. attempt (raised server_error)) retried waiting_again
      failed_turn

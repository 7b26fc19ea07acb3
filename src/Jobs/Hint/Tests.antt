-- ===== src/Jobs/Hint/Tests.antt =====
-- The routing hint of a tenant on concrete runs.
use reproit_cloud.Jobs.Hint.{
  route_all, Routing, RoutingEvent, IsRouted, mark, count_pending, clear, clear_at_once, insert,
  sweep,
}
use reproit_cloud.Jobs.Hint.Marks.{route_all-IsRouted, forgotten_stays, clear_races}
use reproit_cloud.Jobs.Queue.{job_exists, pending_shard_count, empty_db, with_job}
use reproit_cloud.Jobs.Spec.{is_backend, shards_from, validate, new_job}
use reproit_cloud.Prelude.{◌<◌, ◌≡◌, refl, false, List, [], ◌∷◌, arith}
use reproit_cloud.Text.{text_eq, lit}
use reproit_cloud.Jobs.Queue.Tests.{two_seeds}

abbrev unmarked : Routing
unmarked = record { db = empty_db; marked = false; owed = 0; emptied = 0 }

abbrev undisturbed : List RoutingEvent
undisturbed =
    clear_at_once ∷ insert (lit "j1") (lit "t") two_seeds ∷ mark ∷ sweep 500 ∷ clear_at_once ∷ []

route_all-IsRouted_example : IsRouted (route_all undisturbed unmarked)
unfolding pending_shard_count
route_all-IsRouted_example =
    route_all-IsRouted undisturbed unmarked (tt, (tt, (tt, (tt, (tt, tt)))))
      (λ p. absurd (ground (arith, p)))

clear_races_example :
    let after =
      route_all
        (count_pending ∷ insert (lit "j1") (lit "t") two_seeds ∷ mark ∷ clear ∷ [])
        unmarked in
    (after.marked ≡ false) × ((after.owed ≡ 0) × (0 < pending_shard_count after.db))
unfolding validate is_backend text_eq job_exists pending_shard_count
clear_races_example = clear_races (lit "j1") (lit "t") two_seeds unmarked refl refl refl refl

abbrev forgotten : Routing
forgotten = record {
  db = with_job empty_db (new_job (lit "j1") (lit "t") two_seeds);
  marked = false;
  owed = 0;
  emptied = 0;
}

abbrev routine : List RoutingEvent
routine = sweep 500 ∷ count_pending ∷ clear ∷ sweep 900 ∷ []

forgotten_stays_example :
    ((route_all routine forgotten).marked ≡ false)
    × ((route_all routine forgotten).db ≡ forgotten.db)
unfolding new_job shards_from
forgotten_stays_example =
    forgotten_stays routine forgotten (tt, (tt, (tt, (tt, tt)))) ((refl, (refl, tt)), (refl, refl))

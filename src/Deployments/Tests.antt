-- ===== src/Deployments/Tests.antt =====
-- The theorems on deployments at concrete tables.
use deploygenus.Models.Fixtures.{shop, deployment}
use deploygenus.Models.{queued, building, ready, push, Deployment}
use deploygenus.Text.{codes}
use deploygenus.Retention.{insert_newest, newest_first}
use deploygenus.Database.{Row, Db, check_violation, ◌>>>◌, deployments_of}
use deploygenus.Deployments.{
  NewDeployment, create, claim_next, lease_expired, is_abandoned, reclaim_abandoned, mark_built,
  mark_cancelled, reclaim_candidate, reclaimable,
}
use deploygenus.Deployments.Claims.{Claims, claim_next-Claims}
use deploygenus.Deployments.Queue.{Replaced, supersede_queued-Replaced}
use deploygenus.Deployments.Stoppable.{IsStoppable, reclaim_candidate_exact, reclaimable-Spares}
use deploygenus.Deployments.Lost.{reclaim_abandoned-mark_built, mark_cancelled-mark_built}
use deploygenus.Deployments.Numbering.{Creates, create-Creates}
use deploygenus.Retention.Sorting.{count_from}
use deploygenus.Base.{filter, In, err, ◌<◌, ◌≡◌, refl, inl, inr, true, none, some, List, [], ◌∷◌}

abbrev idle : Deployment → Row
idle d = record { deployment = d; leased_by = none; leased_at = none }

abbrev serving : Row
serving = idle (deployment 10 1 ready (codes "main") (some (codes "c10")) 100)

abbrev older : Row
older = idle (deployment 11 2 ready (codes "main") (some (codes "c11")) 200)

abbrev preview : Row
preview = idle (deployment 12 3 queued (codes "idea") none 300)

abbrev waiting : Row
waiting = idle (deployment 13 4 queued (codes "main") none 400)

abbrev stuck : Row
stuck = record {
  deployment = deployment 14 5 building (codes "main") none 500;
  leased_by = some (codes "worker");
  leased_at = some 500;
}

abbrev tables : Db
tables = record { rows = serving ∷ older ∷ preview ∷ waiting ∷ stuck ∷ []; projects = shop ∷ [] }

abbrev pushed : NewDeployment
pushed = record {
  project_id = 1;
  short_id = codes "shop-new";
  git_sha = codes "fedcba9876543210fedcba9876543210fedcba98";
  git_ref = codes "main";
  trigger = push;
  git_message = none;
  git_author = none;
  rolled_back_from = none;
}

claim_next-Claims_example :
    Claims (codes "w") (12 ∷ []) 600 tables (claim_next (codes "w") (12 ∷ []) 600 tables)
claim_next-Claims_example = claim_next-Claims (codes "w") (12 ∷ []) 600 tables

abbrev newest : Deployment
newest = deployment 16 9 queued (codes "main") none 800

supersede_queued-Replaced_example :
    (ds : List Deployment) × (after : Db) × Replaced newest 900 tables ds after
supersede_queued-Replaced_example = supersede_queued-Replaced newest 900 tables

create-Creates_example : Creates pushed tables (create 3 pushed 15 600 tables)
create-Creates_example = create-Creates 2 pushed 15 600 tables

-- The serving deployment is protected, so only the older one's container may be stopped.
older_reclaimable : In older.deployment (reclaimable 1 0 (10 ∷ []) tables)
unfolding reclaimable filter newest_first insert_newest reclaim_candidate
older_reclaimable = inl refl

reclaimable-Spares_example :
    IsStoppable 1 (10 ∷ []) older.deployment
    × In older.deployment (deployments_of tables.rows)
    × (0
        < count_from older.deployment.number
            (filter (reclaim_candidate 1 (10 ∷ [])) (deployments_of tables.rows)))
reclaimable-Spares_example =
    reclaimable-Spares 1 0 (10 ∷ []) tables (reclaim_candidate 1 (10 ∷ []))
      (reclaim_candidate_exact 1 (10 ∷ [])) older.deployment older_reclaimable

stuck-listed : In stuck tables.rows
stuck-listed = inr (inr (inr (inr (inl refl))))

stuck-expired : is_abandoned 60 1000 stuck ≡ true
unfolding is_abandoned lease_expired
stuck-expired = refl

reclaim_abandoned-mark_built_example :
    (reclaim_abandoned 60 1000 >>> mark_built 14 (codes "i") (codes "static") 80 1100) tables
    ≡ (err check_violation, (reclaim_abandoned 60 1000 tables).1)
reclaim_abandoned-mark_built_example =
    reclaim_abandoned-mark_built 60 1000 14 (codes "i") (codes "static") 80 1100 tables stuck
      stuck-listed refl stuck-expired

mark_cancelled-mark_built_example :
    (mark_cancelled 14 1000 >>> mark_built 14 (codes "i") (codes "static") 80 1100) tables
    ≡ (err check_violation, (mark_cancelled 14 1000 tables).1)
mark_cancelled-mark_built_example =
    mark_cancelled-mark_built 14 1000 (codes "i") (codes "static") 80 1100 tables stuck stuck-listed
      refl

-- ===== src/Deployments/Listing.antt =====
-- What `list_for_project` lists.
use deploygenus.Database.{Db, deployments_of}
use deploygenus.Deployments.{list_for_project}
use deploygenus.Models.{Deployment}
use deploygenus.Retention.Sorting.{count_from, In-take-newest_first}
use deploygenus.Base.{◌==◌, ==_iff, filter, In, In-filter, ℕ, ◌≤◌, ◌≡◌}

-- A deployment of the project that at most `limit` of them reach in number, itself counted.
pub list_for_project-In :
    (project limit : ℕ) (db : Db) (d : Deployment)
    → In d (deployments_of db.rows)
    → d.project_id ≡ project
    → count_from d.number
        (filter (λ (e : Deployment). e.project_id == project) (deployments_of db.rows))
      ≤ limit
    → In d (list_for_project project limit db)
unfolding list_for_project
list_for_project-In project limit db d m e c =
    In-take-newest_first d _ limit
      (In-filter _ d (deployments_of db.rows) m ((==_iff d.project_id project).1 e)) c

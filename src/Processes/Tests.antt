-- ===== src/Processes/Tests.antt =====
-- The workers of a project on a machine whose containers are a dictionary.
use deploygenus.Database.{Db, find_row}
use deploygenus.Deployments.{get}
use deploygenus.Dict.{lookup, removed, put}
use deploygenus.Dict.Laws.{lookup-put, lookup-removed}
use deploygenus.Models.Fixtures.{shop, deployment}
use deploygenus.Models.{ready, worker, Deployment, is_some, Process}
use deploygenus.Processes.{
  WorkerHost, list_long_running, want_replicas, want_all, is_wanted, replica_names, served_by,
  production_deployment, drain_each, make_way, start_each, start_prepared, replace_workers,
  reconcile_workers, start_all, start_missing, resume, resume_served, apply_worker,
}
use deploygenus.Processes.Loops.{Laws}
use deploygenus.Retention.{image_of, text_le}
use deploygenus.Naming
use deploygenus.Processes.Pausing.{Applied, apply_worker-Applied}
use deploygenus.Processes.Workers.{Replicated, reconcile_workers-Replicated}
use deploygenus.Text.{Text, codes, text_eq, text_eq_refl, contains, decimal}
use deploygenus.Base.{
  Bool-cases, filter, insert_by, sort_by, ok, ℕ, ◌≡◌, refl, ◌∙◌, inl, inr, true, false, Option,
  none, some, List, [], ◌∷◌, map,
}

abbrev Containers : Type 0
Containers = List (Text × ℕ)

abbrev machine : WorkerHost Containers
machine = record {
  listed = map (λ (c : Text × ℕ). c.0);
  drain = λ name s. (ok tt, removed name s);
  start = λ d name p s. (ok tt, put name d s);
  is_running = λ s name. is_some (lookup name s);
}

abbrev runs : Containers → Text → Option ℕ
runs s name = lookup name s

seen :
    (s : Containers) (name : Text)
    → contains (map (λ (c : Text × ℕ). c.0) s) name ≡ is_some (lookup name s)
unfolding contains lookup
seen [] name = refl
seen ((k, d) ∷ s) name = elim (Bool-cases (text_eq k name)) [
  | inl e ↦ rw e refl
  | inr e ↦ rw e (seen s name)
]

machine-Laws : Laws machine runs
machine-Laws = record {
  seen = seen;
  drained = λ name s h. lookup-removed name name s ∙ rw (text_eq_refl name) refl;
  drain_apart = λ name other s e. lookup-removed name other s ∙ rw e refl;
  started = λ d name p s h. lookup-put name name d s ∙ rw (text_eq_refl name) refl;
  start_apart = λ d name other p s e. lookup-put name other d s ∙ rw e refl;
}

abbrev mailer : Process
mailer = record {
  id = 1;
  project_id = 1;
  name = codes "mail";
  type = worker;
  command = some (codes "run");
  schedule = none;
  memory_mb = 256;
  replicas = 2;
  timeout_seconds = 60;
  enabled = true;
  created_at = 0;
  updated_at = 0;
}

abbrev released : Deployment
released = record (deployment 20 7 ready (codes "main") none 0) {
  image_tag = some (codes "deploypro/shop:7");
}

abbrev before : Containers
before = (codes "deploypro-shop-old-0", 10) ∷ (codes "deploypro-shop-mail-0", 10) ∷ []

abbrev after : Containers
after = (codes "deploypro-shop-mail-0", 20) ∷ (codes "deploypro-shop-mail-1", 20) ∷ []

rolled : reconcile_workers machine shop released (mailer ∷ []) (ok tt) before ≡ (ok 2, after)
unfolding reconcile_workers replace_workers want_all want_replicas list_long_running
    Naming.worker_container_name decimal is_wanted lookup removed put text_eq contains filter
    sort_by insert_by text_le image_of start_prepared start_each drain_each make_way
rolled = refl

reconcile_workers-Replicated_example : Replicated runs shop (mailer ∷ []) released after
reconcile_workers-Replicated_example =
    reconcile_workers-Replicated machine runs machine-Laws shop released (mailer ∷ []) (ok tt)
      before after 2 rolled

abbrev tables : Db
tables = record {
  rows =
      record { deployment = record released { id = 10 }; leased_by = none; leased_at = none } ∷ [];
  projects = shop ∷ [];
}

abbrev partly : Containers
partly = (codes "deploypro-shop-mail-0", 10) ∷ []

abbrev resumed_both : Containers
resumed_both = (codes "deploypro-shop-mail-0", 10) ∷ (codes "deploypro-shop-mail-1", 10) ∷ []

-- Replica 0 runs, so replica 1 is started on what serves production.
resumed_one : apply_worker machine shop mailer tables (ok tt) partly ≡ (ok 1, resumed_both)
unfolding apply_worker replica_names Naming.worker_container_name decimal resume_served resume
    start_missing start_all production_deployment served_by get find_row image_of lookup put text_eq
    filter
resumed_one = refl

apply_worker-Applied_example : Applied machine runs shop mailer tables partly resumed_both 1
apply_worker-Applied_example =
    apply_worker-Applied machine runs machine-Laws shop mailer tables (ok tt) partly resumed_both 1
      resumed_one

abbrev left : Containers
left = (codes "deploypro-shop-old-0", 10) ∷ []

paused :
    apply_worker machine shop (record mailer { enabled = false }) tables (ok tt) before
    ≡ (ok 2, left)
unfolding apply_worker replica_names Naming.worker_container_name decimal drain_each removed text_eq
paused = refl

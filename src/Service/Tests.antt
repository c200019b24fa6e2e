-- ===== src/Service/Tests.antt =====
-- Queueing at concrete tables.
use deploygenus.Database.{Db}
use deploygenus.Models.Fixtures.{shop, deployment}
use deploygenus.Models.{queued, push}
use deploygenus.Service.{removed, missing, Platform, Request, queue_deploy}
use deploygenus.Service.Queueing.{Queues, queue_deploy-Queues}
use deploygenus.Text.{Text, codes, text_eq}
use deploygenus.Base.{if◌then◌else◌, is_empty, ok, Bool, true, not, ◌&&◌, none, [], ◌∷◌}

abbrev platform : Platform
platform = record {
  clear_route = λ slug. ok tt;
  resolve_head = λ url ref. ok (codes "0123456789abcdef0123456789abcdef01234567");
  explain = λ project said. said;
  is_running = λ container. true;
  installation_containers = (codes "web-1", codes "shop") ∷ (codes "web-2", codes "gone") ∷ [];
  remove = λ name. missing;
}

abbrev request : Request
request = record {
  ref = none;
  sha = none;
  trigger = push;
  message = none;
  author = none;
  rolled_back_from = none;
}

abbrev tables : Db
tables = record {
  rows =
      record {
        deployment = deployment 13 4 queued (codes "main") none 400;
        leased_by = none;
        leased_at = none;
      }
      ∷ [];
  projects = shop ∷ [];
}

queue_deploy-Queues_example :
    Queues shop push tables (queue_deploy platform shop request (codes "shop-1") 14 500 501 tables)
queue_deploy-Queues_example =
    queue_deploy-Queues platform shop request (codes "shop-1") 14 500 501 tables

-- Docker answers that a container is gone, unless it is the orphan's.
abbrev obeying : Platform
obeying = record platform {
  remove = λ name. if text_eq name (codes "web-2") then removed else missing;
}

abbrev is_web_2 : Text × Text → Bool
is_web_2 x = text_eq x.0 (codes "web-2") && not (is_empty x.1) && not (text_eq (codes "shop") x.1)

-- ===== src/Pipeline/Tests.antt =====
-- A promotion and a run of the pipeline at concrete tables, on a host where everything works.
use deploygenus.Models.Fixtures.{shop, deployment}
use deploygenus.Models.{building, ready}
use deploygenus.Database.{Row, Db, find_project}
use deploygenus.Deployments.{clashes}
use deploygenus.Deployments.Consistency.{Unclashing, IsSound}
use deploygenus.Deployments.Steps.{Kept}
use deploygenus.Promotion.{Host, promote}
use deploygenus.Promotion.Production.{Moves, promote-Moves}
use deploygenus.Pipeline.{run_deployment}
use deploygenus.Pipeline.Outcomes.{Concludes, run_deployment-Concludes}
use deploygenus.Text.{codes, text_eq, decimal}
use deploygenus.Base.{ok, ◌≡◌, refl, inl, inr, true, none, some, [], ◌∷◌, arith}

abbrev calm : Host
calm = record {
  room = none;
  checkout = λ p d. ok tt;
  plan = λ p d. ok (codes "static", 80);
  build = λ p d image. ok tt;
  image_exists = λ image. true;
  start = λ p d image. ok (codes "c14");
  is_running = λ c. true;
  publish = λ p d. ok tt;
  drain = λ c. ok tt;
  message = λ e. codes "failed";
}

abbrev serving : Row
serving = record {
  deployment = deployment 10 1 ready (codes "main") (some (codes "c10")) 100;
  leased_by = none;
  leased_at = none;
}

abbrev older : Row
older = record {
  deployment = deployment 11 2 ready (codes "main") (some (codes "c11")) 200;
  leased_by = none;
  leased_at = none;
}

abbrev claimed : Row
claimed = record {
  deployment = deployment 14 5 building (codes "main") none 500;
  leased_by = some (codes "worker");
  leased_at = some 500;
}

abbrev tables : Db
tables = record { rows = serving ∷ older ∷ claimed ∷ []; projects = shop ∷ [] }

tables-IsSound : IsSound tables
unfolding Unclashing clashes text_eq decimal
tables-IsSound = record { unique = ground arith; leased = refl }

older-Kept : Kept 11 (shop ∷ []) tables
older-Kept = record {
  sound = tables-IsSound;
  row = older;
  listed = inr (inl refl);
  named = refl;
  same = refl;
}

claimed-Kept : Kept 14 (shop ∷ []) tables
claimed-Kept = record {
  sound = tables-IsSound;
  row = claimed;
  listed = inr (inr (inl refl));
  named = refl;
  same = refl;
}

shop-found : find_project 1 (shop ∷ []) ≡ some shop
unfolding find_project
shop-found = refl

promote-Moves_example : Moves 11 (shop ∷ []) shop 11 (promote calm shop older.deployment tables)
promote-Moves_example =
    promote-Moves calm 11 (shop ∷ []) (λ c. refl) shop older.deployment shop tables shop-found
      older-Kept

run_deployment-Concludes_example :
    Concludes claimed.deployment.id
      (shop ∷ [])
      shop
      (text_eq (codes "main") (codes "main"))
      (run_deployment calm 600 claimed.deployment tables)
run_deployment-Concludes_example =
    run_deployment-Concludes calm 600 claimed.deployment shop tables (λ c. refl) shop-found
      claimed-Kept

-- ===== src/Alerts/Tests.antt =====
-- The monitor's notices over concrete observations.
use deploygenus.Alerts.{Observation, observe_all}
use deploygenus.Alerts.Strikes.{trailing, expected, Counts, observe_all-Counts, observe_all-Sends}
use deploygenus.Text.{Text, codes}
use deploygenus.Base.{◌≡◌, Option, none, some, List, [], ◌∷◌}

abbrev seen : Option Text → Observation
seen problem = record {
  key = codes "site:shop";
  problem = problem;
  down_title = codes "Shop is down";
  down_detail = codes "not serving";
  up_title = codes "Shop is serving again";
  fields = [];
}

-- One failure, a recovery, three failures and a recovery, the latest first.
abbrev outage : List Observation
outage =
    seen none
    ∷ seen (some (codes "refused"))
    ∷ seen (some (codes "refused"))
    ∷ seen (some (codes "timeout"))
    ∷ seen none
    ∷ seen (some (codes "timeout"))
    ∷ []

observe_all-Counts_example :
    Counts (codes "site:shop") (trailing (codes "site:shop") outage) (observe_all outage)
observe_all-Counts_example = observe_all-Counts outage (codes "site:shop")

observe_all-Sends_example : (observe_all outage).sent ≡ expected outage
observe_all-Sends_example = observe_all-Sends outage

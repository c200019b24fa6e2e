-- ===== src/Service/Reconciling.antt =====
-- Which containers `remove_orphans` removes.
use deploygenus.Database.{Db}
use deploygenus.Models.{Project}
use deploygenus.Service.{removed, Platform, was_removed}
use deploygenus.Text.{Text, text_eq, contains}
use deploygenus.Base.{◌==◌, is_empty, In, ◌≡◌, Bool, false, not, ◌&&◌, List, map}

-- No project of the list has the slug.
abbrev pub Unused : Text → List Project → Type 0
Unused slug ps = (p : Project) → In p ps → text_eq p.slug slug ≡ false

-- The test of `remove_orphans`, on a slug and the projects.
abbrev unclaimed : Text → List Project → Bool
unclaimed slug ps = not (is_empty slug) && not (contains (map (λ (p : Project). p.slug) ps) slug)

-- The test of `remove_orphans` and Docker's answer to the removal.
abbrev gone : Platform → List Project → Text × Text → Bool
gone platform ps x = unclaimed x.1 ps && (was_removed (platform.remove x.0) == 1)

-- A container of a slug that no project of the table has, which Docker removed when it was asked to.
pub record IsRemoved (platform : Platform) (db : Db) (name slug : Text) : Type 0 where
  pub labelled : is_empty slug ≡ false
  pub unused : (p : Project) → In p db.projects → ¬ (p.slug ≡ slug)
  pub done : platform.remove name ≡ removed

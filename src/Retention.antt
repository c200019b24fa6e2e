-- ===== src/Retention.antt =====
-- Which images a host can afford to forget (deploypro/domain/retention.py). A set of tags is a list
-- of which only membership is used; Python's stable sort is an insertion sort.
pub mod Sorting
pub mod Keeping
pub mod Removal
mod Tests
use deploygenus.Models.{is_in_flight, is_queued, is_ready, is_failed, Project, Deployment, is_some}
use deploygenus.Naming
use deploygenus.Text.{Text, codes, text_eq, contains, remove_prefix, partition}
use deploygenus.Base.{
  ltb, leb, ◌==◌, if◌then◌else◌, take, is_empty, ℕ, Bool, true, false, not, ◌&&◌, ◌||◌, Option,
  none, some, List, [], ◌∷◌, ◌++◌,
}

-- `deployment.image_tag`, where an empty tag counts as none.
unfoldable pub image_of : Deployment → Option Text
image_of d = elim d.image_tag [ some t ↦ (if is_empty t then none else some t) | none ↦ none ]

abbrev pub same_id : Option ℕ → ℕ → Bool
same_id none n = false
same_id (some m) n = m == n

-- The three collections that the loop fills, in the order of the loop.
pub record Survey : Type 0 where
  pub kept : List Text
  pub ready : List Deployment
  pub failed : List Deployment

abbrev in_progress : Deployment → Bool
in_progress d = is_queued d.status || is_in_flight d.status

-- What one deployment adds.
visit : Project → Deployment → Survey → Survey
visit project d s =
    if in_progress d
    then record s { kept = Naming.image_tag project.slug d.git_sha ∷ s.kept }
    else elim (image_of d) [
      | none ↦ s
      | some tag ↦ record {
        kept =
            if same_id project.production_deployment_id d.id || is_some d.container_id
            then tag ∷ s.kept
            else s.kept;
        ready = if is_ready d.status then d ∷ s.ready else s.ready;
        failed = if is_failed d.status then d ∷ s.failed else s.failed;
      }
    ]

survey : Project → List Deployment → Survey
survey project [] = record { kept = []; ready = []; failed = [] }
survey project (d ∷ ds) = visit project d (survey project ds)

-- `list.sort(key=lambda d: d.number, reverse=True)`: equal numbers keep their order.
unfoldable pub insert_newest : Deployment → List Deployment → List Deployment
insert_newest d [] = d ∷ []
insert_newest d (e ∷ es) = if leb e.number d.number then d ∷ e ∷ es else e ∷ insert_newest d es

unfoldable pub newest_first : List Deployment → List Deployment
newest_first [] = []
newest_first (d ∷ ds) = insert_newest d (newest_first ds)

add_tag : Option Text → List Text → List Text
add_tag none tags = tags
add_tag (some tag) tags = tag ∷ tags

-- `(d.image_tag for d in ds if d.image_tag)`
tags_of : List Deployment → List Text
unfolding add_tag
tags_of [] = []
tags_of (d ∷ ds) = add_tag (image_of d) (tags_of ds)

pub images_to_keep : Project → List Deployment → ℕ → List Text
images_to_keep project deployments keep =
    let s = survey project deployments in
    s.kept
    ++ (tags_of (take keep (newest_first s.ready)) ++ tags_of (take 1 (newest_first s.failed)))

-- `repository.removeprefix("deploypro/")` of the part before the colon
pub slug_of_tag : Text → Text
slug_of_tag tag = remove_prefix (partition b':' tag).0 (codes "deploypro/")

-- `keep_by_project.get(slug, set())`
pub kept_of : Text → List (Text × List Text) → List Text
kept_of slug [] = []
kept_of slug ((name, tags) ∷ rest) = if text_eq name slug then tags else kept_of slug rest

doomed : List (Text × List Text) → List Text → List Text
doomed keep [] = []
doomed keep (tag ∷ tags) =
    let rest = doomed keep tags in
    if not (contains (kept_of (slug_of_tag tag) keep) tag) then tag ∷ rest else rest

-- `sorted` on texts, by their code points
unfoldable pub text_le : Text → Text → Bool
text_le [] t = true
text_le (c ∷ s) [] = false
text_le (c ∷ s) (d ∷ t) = ltb c d || c == d && text_le s t

insert_sorted : Text → List Text → List Text
insert_sorted t [] = t ∷ []
insert_sorted t (u ∷ us) = if text_le t u then t ∷ u ∷ us else u ∷ insert_sorted t us

sorted : List Text → List Text
sorted [] = []
sorted (t ∷ ts) = insert_sorted t (sorted ts)

pub images_to_remove : List Text → List (Text × List Text) → List Text
images_to_remove present keep = sorted (doomed keep present)

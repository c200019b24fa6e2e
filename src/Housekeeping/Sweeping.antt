-- ===== src/Housekeeping/Sweeping.antt =====
-- The image sweep never asks Docker to remove an image that a project still needs.
use deploygenus.Dict.{lookup, put}
use deploygenus.Dict.Laws.{lookup-put}
use deploygenus.Database.{Db, deployments_of}
use deploygenus.Deployments.{list_for_project}
use deploygenus.Deployments.Listing.{list_for_project-In}
use deploygenus.Models.{ready, is_in_flight, is_queued, is_ready, Project, Deployment}
use deploygenus.Naming
use deploygenus.Retention.{image_of, images_to_keep, slug_of_tag, kept_of, images_to_remove}
use deploygenus.Retention.Sorting.{count_from}
use deploygenus.Retention.Keeping.{
  has_image, is_serving, images_to_keep-unfinished, images_to_keep-serving, images_to_keep-rollback,
}
use deploygenus.Retention.Removal.{images_to_remove_exact, In-contains, kept_of-lookup}
use deploygenus.Housekeeping.{keep_from, sweep_images}
use deploygenus.Service.{by_name, list_all}
use deploygenus.Text.{Text, text_eq, text_eq_iff, contains}
use deploygenus.Base.{
  ◌==◌, Bool-cases, filter, In, filter-In, In-sort_by, sort_by-In, ℕ, ◌≤◌, ◌≡◌, refl, sym, ap, ◌∙◌,
  ◌⊎◌, inl, inr, Bool, true, false, ◌||◌, some, List, [], ◌∷◌,
}

module _ (keep_images : ℕ) (db : Db) (p : Project) where
  -- The images that the loop keeps for the project.
  abbrev needs : List Text
  needs = images_to_keep p (list_for_project p.id 10000 db) keep_images

  keep_from-put :
      (q : Project) (keep : List (Text × List Text))
      → (text_eq q.slug p.slug ≡ true → q ≡ p)
      → (q ≡ p) ⊎ (lookup p.slug keep ≡ some needs)
      → lookup p.slug
          (put q.slug (images_to_keep q (list_for_project q.id 10000 db) keep_images) keep)
        ≡ some needs
  keep_from-put q keep same h =
      lookup-put q.slug p.slug _ keep ∙ elim (Bool-cases (text_eq q.slug p.slug)) [
        | inl e ↦ rw e (
            ap
              (λ (r : Project).
                some (images_to_keep r (list_for_project r.id 10000 db) keep_images))
              (same e))
        | inr e ↦ elim h [
          | inl itself ↦
              let equal : text_eq q.slug p.slug ≡ true =
                (text_eq_iff q.slug p.slug).1 (ap (λ (r : Project). r.slug) itself) in
              cc
          | inr kept ↦ rw e kept
        ]
      ]

  keep_from-lookup :
      (ps : List Project) (keep : List (Text × List Text))
      → ((q : Project) → In q ps → text_eq q.slug p.slug ≡ true → q ≡ p)
      → In p ps ⊎ (lookup p.slug keep ≡ some needs)
      → lookup p.slug (keep_from keep_images db keep ps) ≡ some needs
  unfolding keep_from
  keep_from-lookup [] keep same (inl m) = elim m [ ]
  keep_from-lookup [] keep same (inr h) = h
  keep_from-lookup (q ∷ ps) keep same (inl (inr m)) =
      keep_from-lookup ps _ (λ r k. same r (inr k)) (inl m)
  keep_from-lookup (q ∷ ps) keep same (inl (inl e)) =
      keep_from-lookup ps _ (λ r k. same r (inr k))
        (inr (keep_from-put q keep (same q (inl refl)) (inl (sym e))))
  keep_from-lookup (q ∷ ps) keep same (inr h) =
      keep_from-lookup ps _ (λ r k. same r (inr k))
        (inr (keep_from-put q keep (same q (inl refl)) (inr h)))

-- An image that a deployment of the project needs: the one that an unfinished deployment builds, that
-- of one that serves production or has a container, and that of one of the `keep` newest ready ones.
pub data Needs (keep : ℕ) (p : Project) (ds : List Deployment) (d : Deployment)
    : Text → Type 0 where
  unfinished :
      (is_queued d.status || is_in_flight d.status) ≡ true
      → Needs keep p ds d (Naming.image_tag p.slug d.git_sha)
  in_use :
      (t : Text)
      → (is_queued d.status || is_in_flight d.status) ≡ false
      → image_of d ≡ some t
      → is_serving p d ≡ true
      → Needs keep p ds d t
  rollback_target :
      (t : Text)
      → d.status ≡ ready
      → image_of d ≡ some t
      → count_from d.number (filter (has_image is_ready) ds) ≤ keep
      → Needs keep p ds d t

kept :
    {keep : ℕ} {p : Project} {ds : List Deployment} {d : Deployment} {t : Text}
    → In d ds
    → Needs keep p ds d t
    → In t (images_to_keep p ds keep)
kept {keep} {p} {ds} {d} m (unfinished h) = images_to_keep-unfinished p ds keep d m h
kept {keep} {p} {ds} {d} m (in_use t h e s) = images_to_keep-serving p ds keep d t m h e s
kept {keep} {p} {ds} {d} m (rollback_target t r e c) = images_to_keep-rollback p ds keep d t m r e c

-- The sweep never asks Docker to remove an image that a deployment needs, where the image carries the
-- project's slug, no other project has that slug, and at most 10,000 of the project's deployments,
-- itself counted, have a number as high as the deployment's.
pub sweep_images-Spares :
    (present : List Text) (prune_image : Text → Bool) (keep_images : ℕ) (db : Db) (p : Project)
    (d : Deployment) (t : Text)
    → In p db.projects
    → ((q : Project) → In q db.projects → text_eq q.slug p.slug ≡ true → q ≡ p)
    → In d (deployments_of db.rows)
    → d.project_id ≡ p.id
    → count_from d.number
        (filter (λ (e : Deployment). e.project_id == p.id) (deployments_of db.rows))
      ≤ 10000
    → Needs keep_images p (list_for_project p.id 10000 db) d t
    → slug_of_tag t ≡ p.slug
    → ¬ In t (sweep_images present prune_image keep_images db)
unfolding sweep_images list_all
sweep_images-Spares present prune_image keep_images db p d t here alone m owner recent needed named
      swept =
    let ps = list_all db in
    let keep = keep_from keep_images db [] ps in
    let found : lookup p.slug keep
        ≡ some (images_to_keep p (list_for_project p.id 10000 db) keep_images) =
      keep_from-lookup keep_images db p ps [] (λ q k. alone q (sort_by-In by_name q db.projects k))
        (inl (In-sort_by by_name p db.projects here)) in
    let stays : In t (images_to_keep p (list_for_project p.id 10000 db) keep_images) =
      kept (list_for_project-In p.id 10000 db d m owner recent) needed in
    let listed : contains (kept_of (slug_of_tag t) keep) t ≡ true =
      ap (λ slug. contains (kept_of slug keep) t) named
      ∙ ap (λ tags. contains tags t) (kept_of-lookup p.slug _ keep found)
      ∙ In-contains t _ stays in
    let (k, h) = filter-In prune_image t (images_to_remove present keep) swept in
    let (l, unneeded) = (images_to_remove_exact present keep t).0 k in cc

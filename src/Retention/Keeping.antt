-- ===== src/Retention/Keeping.antt =====
-- Which images `images_to_keep` keeps, and that it keeps no other.
use mathlib.Core.Option.{some-injective}
use deploygenus.Models.{
  DeploymentStatus, ready, failed, is_in_flight, is_queued, is_ready, is_failed, Project,
  Deployment, is_some,
}
use deploygenus.Naming
use deploygenus.Retention.{
  image_of, same_id, Survey, in_progress, visit, survey, newest_first, add_tag, tags_of,
  images_to_keep,
}
use deploygenus.Retention.Sorting.{count_from, In-take-newest_first}
use deploygenus.Text.{Text}
use deploygenus.Base.{
  if◌then◌else◌, Option-cases, take, filter, In, In-append_left, In-append_right, In-filter, ℕ, ◌≤◌,
  ◌≡◌, refl, sym, ap, ◌∙◌, inl, inr, Bool, true, false, ◌&&◌, ◌||◌, Option, none, some, List, [],
  ◌∷◌, arith,
}

-- The deployments of one final status that still have an image.
abbrev pub has_image : (DeploymentStatus → Bool) → Deployment → Bool
has_image p d = p d.status && is_some (image_of d)

visit-ready :
    (project : Project) (d : Deployment) (s : Survey)
    → (visit project d s).ready ≡ (if has_image is_ready d then d ∷ s.ready else s.ready)
unfolding visit
visit-ready project d s = ground arith

visit-failed :
    (project : Project) (d : Deployment) (s : Survey)
    → (visit project d s).failed ≡ (if has_image is_failed d then d ∷ s.failed else s.failed)
unfolding visit
visit-failed project d s = ground arith

survey-ready :
    (project : Project) (ds : List Deployment)
    → (survey project ds).ready ≡ filter (has_image is_ready) ds
unfolding survey filter
survey-ready project [] = refl
survey-ready project (d ∷ ds) =
    visit-ready project d (survey project ds)
    ∙ ap (λ l. if has_image is_ready d then d ∷ l else l) (survey-ready project ds)

survey-failed :
    (project : Project) (ds : List Deployment)
    → (survey project ds).failed ≡ filter (has_image is_failed) ds
unfolding survey filter
survey-failed project [] = refl
survey-failed project (d ∷ ds) =
    visit-failed project d (survey project ds)
    ∙ ap (λ l. if has_image is_failed d then d ∷ l else l) (survey-failed project ds)

-- The deployment serves production, or has a container.
abbrev pub is_serving : Project → Deployment → Bool
is_serving project d = same_id project.production_deployment_id d.id || is_some d.container_id

-- The tag that the loop adds for a deployment.
loop_tag : Project → Deployment → Option Text
loop_tag project d =
    if in_progress d
    then some (Naming.image_tag project.slug d.git_sha)
    else if is_serving project d
    then image_of d
    else none

visit-kept :
    (project : Project) (d : Deployment) (s : Survey)
    → (visit project d s).kept ≡ elim (loop_tag project d) [ some t ↦ t ∷ s.kept | none ↦ s.kept ]
unfolding visit loop_tag
visit-kept project d s = ground arith

survey-kept :
    (project : Project) (ds : List Deployment) (d : Deployment) (t : Text)
    → In d ds
    → loop_tag project d ≡ some t
    → In t (survey project ds).kept
unfolding survey
survey-kept project [] d t h e = elim h [ ]
survey-kept project (x ∷ ds) d t (inl same) e =
    rw (visit-kept project x (survey project ds))
      (rw (ap (loop_tag project) (sym same) ∙ e) (inl refl))
survey-kept project (x ∷ ds) d t (inr m) e =
    rw (visit-kept project x (survey project ds)) (elim (Option-cases (loop_tag project x)) [
      | inl q ↦ rw q (survey-kept project ds d t m e)
      | inr (u, q) ↦ rw q (inr (survey-kept project ds d t m e))
    ])

In-add_tag : (t : Text) (o : Option Text) (ts : List Text) → In t ts → In t (add_tag o ts)
unfolding add_tag
In-add_tag t none ts h = h
In-add_tag t (some u) ts h = inr h

In-add_tag_self : (t : Text) (o : Option Text) (ts : List Text) → o ≡ some t → In t (add_tag o ts)
unfolding add_tag
In-add_tag_self t none ts e = cc
In-add_tag_self t (some u) ts e = inl (sym (some-injective u t e))

tags_of-In :
    (ds : List Deployment) (d : Deployment) (t : Text)
    → In d ds
    → image_of d ≡ some t
    → In t (tags_of ds)
unfolding tags_of
tags_of-In [] d t h e = elim h [ ]
tags_of-In (x ∷ ds) d t (inl same) e =
    In-add_tag_self t (image_of x) (tags_of ds) (ap image_of (sym same) ∙ e)
tags_of-In (x ∷ ds) d t (inr m) e = In-add_tag t (image_of x) (tags_of ds) (tags_of-In ds d t m e)

module _ (project : Project) (ds : List Deployment) (keep : ℕ) where
  loop_kept :
      (d : Deployment) (t : Text)
      → In d ds
      → loop_tag project d ≡ some t
      → In t (images_to_keep project ds keep)
  unfolding images_to_keep
  loop_kept d t h e = In-append_left t (survey project ds).kept _ (survey-kept project ds d t h e)

  -- Of a deployment that waits, builds or is being deployed, the image that its commit gives is kept,
  -- whether or not its row names it yet.
  pub images_to_keep-unfinished :
      (d : Deployment)
      → In d ds
      → (is_queued d.status || is_in_flight d.status) ≡ true
      → In (Naming.image_tag project.slug d.git_sha) (images_to_keep project ds keep)
  unfolding loop_tag
  images_to_keep-unfinished d h e = loop_kept d (Naming.image_tag project.slug d.git_sha) h (rw e)

  -- The image of a deployment that is neither queued nor in flight and that serves production or has a
  -- container is kept, however old it is and whatever number of images is to be kept.
  pub images_to_keep-serving :
      (d : Deployment) (t : Text)
      → In d ds
      → (is_queued d.status || is_in_flight d.status) ≡ false
      → image_of d ≡ some t
      → is_serving project d ≡ true
      → In t (images_to_keep project ds keep)
  unfolding loop_tag
  images_to_keep-serving d t h over e serves = loop_kept d t h (rw (over, serves) e)

  ready_image :
      (d : Deployment) (t : Text)
      → In d (take keep (newest_first (filter (has_image is_ready) ds)))
      → image_of d ≡ some t
      → In t (images_to_keep project ds keep)
  unfolding images_to_keep
  ready_image d t m e = In-append_right t (survey project ds).kept _ (
      In-append_left t (tags_of (take keep (newest_first (survey project ds).ready))) _
        (rw (survey-ready project ds) (tags_of-In _ d t m e)))

  failed_image :
      (d : Deployment) (t : Text)
      → In d (take 1 (newest_first (filter (has_image is_failed) ds)))
      → image_of d ≡ some t
      → In t (images_to_keep project ds keep)
  unfolding images_to_keep
  failed_image d t m e = In-append_right t (survey project ds).kept _ (
      In-append_right t (tags_of (take keep (newest_first (survey project ds).ready)))
        (tags_of (take 1 (newest_first (survey project ds).failed)))
        (rw (survey-failed project ds) (tags_of-In _ d t m e)))

  -- A rollback target's image is kept: that of a ready deployment, if at most `keep` of the ready
  -- deployments with an image, itself counted, have a number as high as its own.
  pub images_to_keep-rollback :
      (d : Deployment) (t : Text)
      → In d ds
      → d.status ≡ ready
      → image_of d ≡ some t
      → count_from d.number (filter (has_image is_ready) ds) ≤ keep
      → In t (images_to_keep project ds keep)
  images_to_keep-rollback d t h r e c =
      ready_image d t
        (In-take-newest_first d (filter (has_image is_ready) ds) keep
          (In-filter (has_image is_ready) d ds h (rw (ap is_ready r, e))) c)
        e

  -- The newest failure's image is kept: that of a failed deployment, if no other failed deployment
  -- with an image has a number as high as its own.
  pub images_to_keep-newest_failure :
      (d : Deployment) (t : Text)
      → In d ds
      → d.status ≡ failed
      → image_of d ≡ some t
      → count_from d.number (filter (has_image is_failed) ds) ≤ 1
      → In t (images_to_keep project ds keep)
  images_to_keep-newest_failure d t h r e c =
      failed_image d t
        (In-take-newest_first d (filter (has_image is_failed) ds) 1
          (In-filter (has_image is_failed) d ds h (rw (ap is_failed r, e))) c)
        e

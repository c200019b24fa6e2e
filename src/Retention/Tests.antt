-- ===== src/Retention/Tests.antt =====
-- The theorems on images at a concrete project.
use deploygenus.Models.Fixtures.{shop, deployment}
use deploygenus.Models.{queued, ready, failed, is_ready, is_failed, Deployment}
use deploygenus.Naming
use deploygenus.Retention.{image_of, images_to_keep}
use deploygenus.Retention.Keeping.{
  has_image, images_to_keep-unfinished, images_to_keep-serving, images_to_keep-rollback,
  images_to_keep-newest_failure,
}
use deploygenus.Retention.Sorting.{count_from}
use deploygenus.Text.{codes}
use deploygenus.Base.{filter, In, ◌≤◌, ◌≡◌, refl, inl, inr, none, some, List, [], ◌∷◌, arith}

abbrev live : Deployment
live = record (deployment 10 1 ready (codes "main") (some (codes "c10")) 100) {
  image_tag = some (codes "deploypro/shop:live");
}

abbrev warm : Deployment
warm = record (deployment 11 2 ready (codes "main") none 200) {
  image_tag = some (codes "deploypro/shop:warm");
}

abbrev broken : Deployment
broken = record (deployment 12 3 failed (codes "main") none 300) {
  image_tag = some (codes "deploypro/shop:broken");
}

abbrev coming : Deployment
coming = deployment 13 4 queued (codes "main") none 400

abbrev history : List Deployment
history = live ∷ warm ∷ broken ∷ coming ∷ []

images_to_keep-unfinished_example :
    In
      (Naming.image_tag (codes "shop") (codes "0123456789abcdef0123456789abcdef01234567"))
      (images_to_keep shop history 1)
images_to_keep-unfinished_example =
    images_to_keep-unfinished shop history 1 coming (inr (inr (inr (inl refl)))) refl

live-image : image_of live ≡ some (codes "deploypro/shop:live")
unfolding image_of
live-image = refl

images_to_keep-serving_example : In (codes "deploypro/shop:live") (images_to_keep shop history 0)
images_to_keep-serving_example =
    images_to_keep-serving shop history 0 live (codes "deploypro/shop:live") (inl refl) refl
      live-image refl

warm-image : image_of warm ≡ some (codes "deploypro/shop:warm")
unfolding image_of
warm-image = refl

warm-newest : count_from 2 (filter (has_image is_ready) history) ≤ 1
unfolding count_from filter image_of
warm-newest = omega arith

images_to_keep-rollback_example : In (codes "deploypro/shop:warm") (images_to_keep shop history 1)
images_to_keep-rollback_example =
    images_to_keep-rollback shop history 1 warm (codes "deploypro/shop:warm") (inr (inl refl)) refl
      warm-image warm-newest

broken-image : image_of broken ≡ some (codes "deploypro/shop:broken")
unfolding image_of
broken-image = refl

broken-newest : count_from 3 (filter (has_image is_failed) history) ≤ 1
unfolding count_from filter image_of
broken-newest = omega arith

images_to_keep-newest_failure_example :
    In (codes "deploypro/shop:broken") (images_to_keep shop history 1)
images_to_keep-newest_failure_example =
    images_to_keep-newest_failure shop history 1 broken (codes "deploypro/shop:broken")
      (inr (inr (inl refl))) refl broken-image broken-newest

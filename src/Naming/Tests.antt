-- ===== src/Naming/Tests.antt =====
-- The theorems on names at concrete texts.
use deploygenus.Naming.{
  max_label, is_plain, slugify, deployment_short_id, worker_container_name, job_container_name,
}
use deploygenus.Naming.Labels.{IsLabel, IsToken, slugify-IsLabel, deployment_short_id-IsLabel}
use deploygenus.Naming.Workers.{worker_container_name_collision}
use deploygenus.Text.{Text, codes, is_digit, is_lower}
use deploygenus.Base.{length, ◌≤◌, ◌≡◌, refl, ◌⊎◌, ◌++◌, arith}

abbrev token : Text
token = codes "0a1b2c3d"

token-IsToken : IsToken token
unfolding is_plain is_lower is_digit
token-IsToken = record { full = refl; chars = ground arith }

shop-IsLabel : IsLabel (codes "my-shop")
unfolding is_plain is_lower is_digit
shop-IsLabel = record { full = refl; chars = ground arith; opens = refl; closes = refl }

slugify-IsLabel_example :
    IsLabel (slugify (λ t. t) (codes "My  Shop!") 39 token)
    × ((length (slugify (λ t. t) (codes "My  Shop!") 39 token) ≤ 39)
        ⊎ (slugify (λ t. t) (codes "My  Shop!") 39 token ≡ codes "app-" ++ token))
slugify-IsLabel_example = slugify-IsLabel (λ t. t) (codes "My  Shop!") 39 token token-IsToken

deployment_short_id-IsLabel_example :
    IsLabel (deployment_short_id (codes "my-shop") token)
    × (length (deployment_short_id (codes "my-shop") token) ≤ max_label)
deployment_short_id-IsLabel_example =
    deployment_short_id-IsLabel (codes "my-shop") token shop-IsLabel token-IsToken refl

worker_container_name_collision_example :
    (worker_container_name (codes "shop-api") (codes "mail") 0
      ≡ worker_container_name (codes "shop") (codes "api-mail") 0)
    × (job_container_name (codes "shop-api") (codes "mail") (codes "202601010300")
        ≡ job_container_name (codes "shop") (codes "api-mail") (codes "202601010300"))
worker_container_name_collision_example =
    worker_container_name_collision (codes "shop") (codes "api") (codes "mail") 0
      (codes "202601010300")

-- ===== src/Housekeeping/Tests.antt =====
-- The sweep at concrete tables.
use deploygenus.Database.{Db, deployments_of}
use deploygenus.Models.Fixtures.{shop, deployment}
use deploygenus.Models.{queued, ready, Project, Deployment}
use deploygenus.Naming
use deploygenus.Housekeeping.{
  sweep_images, is_stale, sweep_build_dirs, Disk, is_short, fullest, fullest_of, short_of_room,
  room_after, ensure_room,
}
use deploygenus.Housekeeping.Sweeping.{Needs, sweep_images-Spares}
use deploygenus.Retention.Removal.{slug_of_tag-image_tag}
use deploygenus.Retention.Sorting.{count_from}
use deploygenus.Text.{codes, text_eq}
use deploygenus.Base.{
  ◌==◌, filter, In, insert_by, sort_by, ℕ, ◌≤◌, ◌≡◌, refl, inl, inr, true, none, some, List, [],
  ◌∷◌, arith,
}

abbrev coming : Deployment
coming = deployment 13 4 queued (codes "main") none 400

abbrev old : Deployment
old = deployment 10 1 ready (codes "main") none 100

abbrev tables : Db
tables = record {
  rows =
      record { deployment = old; leased_by = none; leased_at = none }
      ∷ record { deployment = coming; leased_by = none; leased_at = none }
      ∷ [];
  projects = shop ∷ [];
}

only_shop : (q : Project) → In q (shop ∷ []) → text_eq q.slug shop.slug ≡ true → q ≡ shop
only_shop q (inl e) h = e
only_shop q (inr m) h = elim m [ ]

few :
    count_from 4 (filter (λ (e : Deployment). e.project_id == 1) (deployments_of tables.rows))
    ≤ 10000
unfolding count_from filter
few = omega arith

sweep_images-Spares_example :
    ¬ In (Naming.image_tag (codes "shop") (codes "0123456789abcdef0123456789abcdef01234567")) (
      sweep_images
        (codes "deploypro/shop:0123456789ab" ∷ codes "deploypro/gone:1" ∷ [])
        (λ t. true)
        1
        tables)
sweep_images-Spares_example =
    sweep_images-Spares (codes "deploypro/shop:0123456789ab" ∷ codes "deploypro/gone:1" ∷ [])
      (λ t. true) 1 tables shop coming
      (Naming.image_tag (codes "shop") (codes "0123456789abcdef0123456789abcdef01234567"))
      (inl refl) only_shop (inr (inl refl)) refl few (Needs.unfinished refl)
      (slug_of_tag-image_tag (codes "shop") (codes "0123456789abcdef0123456789abcdef01234567")
        (ground arith))

-- A build directory of an hour and a second is removed; a job's directory of that age stays.
swept :
    sweep_build_dirs
      (some (
        record { name = codes "b1"; is_dir = true; changed = 0 }
        ∷ record { name = codes "jobs"; is_dir = true; changed = 0 }
        ∷ []))
      (some (record { name = codes "j1"; is_dir = true; changed = 0 } ∷ []))
      3601
    ≡ codes "b1" ∷ []
unfolding sweep_build_dirs is_stale filter sort_by insert_by text_eq
swept = refl

abbrev disks : List Disk
disks =
    record { name = codes "/"; free = some 4000000000 }
    ∷ record { name = codes "/data"; free = none }
    ∷ []

abbrev minimum : ℕ
minimum = 5

-- Less than 5 GB is free, so no build starts.
no_room :
    ensure_room minimum disks disks ≡ some (record { name = codes "/"; free = some 4000000000 })
unfolding ensure_room room_after short_of_room is_short fullest_of fullest filter
no_room = refl

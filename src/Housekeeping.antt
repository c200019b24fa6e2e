-- ===== src/Housekeeping.antt =====
-- The hourly tidy-up (deploypro/engine/housekeeping.py). What Docker, the disks and the file system
-- answer is an argument; free space is in bytes, as `shutil.disk_usage` gives it.
pub mod Sweeping
pub mod Room
mod Tests
use deploygenus.Dict.{put}
use deploygenus.Database.{Db}
use deploygenus.Deployments.{list_for_project}
use deploygenus.Models.{Project}
use deploygenus.Retention.{images_to_keep, text_le, images_to_remove}
use deploygenus.Service.{list_all}
use deploygenus.Text.{Text, codes, text_eq}
use deploygenus.Base.{
  ltb, ◌==◌, if◌then◌else◌, filter, sort_by, ◌>>=◌, ℕ, ◌+◌, ◌*◌, Bool, false, not, ◌&&◌, ◌||◌,
  Option, none, some, List, [], ◌∷◌, ◌++◌, map,
}

abbrev pub gb : ℕ
gb = 1073741824

abbrev pub stale_build_dir_seconds : ℕ
stale_build_dir_seconds = 3600

abbrev pub stale_job_dir_seconds : ℕ
stale_job_dir_seconds = 86400

-- The loop of `sweep_images` over the projects.
unfoldable pub keep_from : ℕ → Db → List (Text × List Text) → List Project → List (Text × List Text)
unfolding put
keep_from keep_images db keep [] = keep
keep_from keep_images db keep (p ∷ ps) =
    keep_from keep_images db
      (put p.slug (images_to_keep p (list_for_project p.id 10000 db) keep_images) keep) ps

-- `sweep_images`, by the images on the host and what `prune_image` answers.
pub sweep_images : List Text → (Text → Bool) → ℕ → Db → List Text
unfolding keep_from
sweep_images present prune_image keep_images db =
    filter prune_image (images_to_remove present (keep_from keep_images db [] (list_all db)))

-- An entry of a directory: its name, whether it is a directory, and when it was last changed.
pub record Entry : Type 0 where
  pub name : Text
  pub is_dir : Bool
  pub changed : ℕ

-- `now - entry.stat().st_mtime > age`, in whole seconds
unfoldable pub is_stale : ℕ → ℕ → Entry → Bool
is_stale now age entry = ltb (entry.changed + age) now

-- `sweep_build_dirs`: the paths that are removed. `jobs` are the entries of that directory, if it is
-- there; `root` is `none` where the build root is no directory.
pub sweep_build_dirs : Option (List Entry) → Option (List Entry) → ℕ → List Text
unfolding is_stale
sweep_build_dirs none jobs now = []
sweep_build_dirs (some root) jobs now =
    let builds = filter (λ (e : Entry). e.is_dir && not (text_eq e.name (codes "jobs"))) root in
    let runs =
      filter (λ (e : Entry). e.is_dir) (elim jobs [ none ↦ [] | some entries ↦ entries ]) in
    sort_by text_le (
      map (λ (e : Entry). e.name) (filter (is_stale now stale_build_dir_seconds) builds)
      ++ map (λ (e : Entry). codes "jobs/" ++ e.name)
          (filter (is_stale now stale_job_dir_seconds) runs))

-- A disk: its name, the bytes that are free, if they can be read.
pub record Disk : Type 0 where
  pub name : Text
  pub free : Option ℕ

-- `free < settings.min_free_gb`, in bytes
unfoldable pub is_short : ℕ → Option ℕ → Bool
is_short min_free_gb none = false
is_short min_free_gb (some free) = ltb free (min_free_gb * gb)

abbrev pub bytes_of : Option ℕ → ℕ
bytes_of none = 0
bytes_of (some free) = free

-- `min` of the pairs, by the free space and then the name
abbrev pub fuller : Disk → Disk → Bool
fuller a b =
    ltb (bytes_of a.free) (bytes_of b.free)
    || bytes_of a.free == bytes_of b.free && text_le a.name b.name

unfoldable pub fullest : Disk → List Disk → Disk
fullest a [] = a
fullest a (b ∷ bs) = fullest (if fuller a b then a else b) bs

unfoldable pub fullest_of : List Disk → Option Disk
unfolding fullest
fullest_of [] = none
fullest_of (d ∷ ds) = some (fullest d ds)

unfoldable pub short_of_room : ℕ → List Disk → Option Disk
unfolding is_short fullest_of filter
short_of_room min_free_gb disks =
    fullest_of (filter (λ (d : Disk). is_short min_free_gb d.free) disks)

-- What is left to do where a disk was short: look again.
unfoldable pub room_after : Option Disk → Option Disk → Option Disk
room_after none later = none
room_after (some short) later = later

-- `ensure_room` by the disks before and after `run` has cleared what it can: `none` where a build may
-- start, else the fullest disk, which the reason names.
unfoldable pub ensure_room : ℕ → List Disk → List Disk → Option Disk
unfolding short_of_room room_after
ensure_room min_free_gb before after =
    if min_free_gb == 0
    then none
    else room_after (short_of_room min_free_gb before) (short_of_room min_free_gb after)

-- ===== src/Storage/Tests.antt =====
-- The theorems on volumes at concrete texts.
use deploygenus.Storage.{
  bad_volume_name, relative, bad_character, dot_segment, whole_filesystem, inside_reserved,
  validate_volume_name, is_path_char, path_parts, check_parts, normalise_mount_path, draining_name,
  without_newline, deadline_at, deadline_after, draining_deadline,
}
use deploygenus.Storage.Paths.{
  IsCanonical, normalise_mount_path-IsCanonical, normalise_mount_path_idem,
}
use deploygenus.Storage.Names.{docker_volume_name-injective, draining_deadline-draining_name}
use deploygenus.Text.{codes, text_eq, starts_with, lstrip_by, strip, isdigit, int_of}
use deploygenus.Base.{ok, err, ◌≡◌, refl, none, some, arith}

normalise_example :
    normalise_mount_path (codes " /data//recordings/ ") ≡ ok (codes "/data/recordings")
unfolding normalise_mount_path is_path_char path_parts check_parts strip starts_with text_eq
normalise_example = refl

normalise_errors :
    (normalise_mount_path (codes "data") ≡ err relative)
    × (normalise_mount_path (codes "/a,b") ≡ err bad_character)
    × (normalise_mount_path (codes "/a/../etc") ≡ err dot_segment)
    × (normalise_mount_path (codes "//") ≡ err whole_filesystem)
    × (normalise_mount_path (codes "/usr//lib")
        ≡ err (inside_reserved (codes "/usr/lib") (codes "/usr")))
unfolding normalise_mount_path is_path_char path_parts check_parts strip starts_with text_eq
normalise_errors = (refl, refl, refl, refl, refl)

draining_example :
    (draining_deadline (codes "/web.draining.17.draining.42") ≡ some 42)
    × (draining_deadline (codes ".draining.42") ≡ none)
    × (draining_deadline (codes "web.draining.4x") ≡ none)
    × (validate_volume_name (codes " Recordings") ≡ ok (codes "recordings"))
    × (validate_volume_name (codes "rec-") ≡ err bad_volume_name)
unfolding draining_deadline deadline_after deadline_at without_newline validate_volume_name
    lstrip_by starts_with isdigit int_of
draining_example = (refl, refl, refl, refl, refl)

normalise_mount_path-IsCanonical_example : IsCanonical (codes "/data/recordings")
normalise_mount_path-IsCanonical_example =
    normalise_mount_path-IsCanonical (codes " /data//recordings/ ") (codes "/data/recordings")
      normalise_example

normalise_mount_path_idem_example :
    normalise_mount_path (codes "/data/recordings") ≡ ok (codes "/data/recordings")
normalise_mount_path_idem_example =
    normalise_mount_path_idem (codes " /data//recordings/ ") (codes "/data/recordings")
      normalise_example

docker_volume_name-injective_example : (codes "a-b" ≡ codes "a-b") × (codes "c_d" ≡ codes "c_d")
docker_volume_name-injective_example =
    docker_volume_name-injective (codes "a-b") (codes "a-b") (codes "c_d") (codes "c_d")
      (ground arith) (ground arith) refl

draining_deadline-draining_name_example :
    draining_deadline (draining_name (codes "web") 42) ≡ some 42
draining_deadline-draining_name_example =
    draining_deadline-draining_name b'w' (codes "eb") 42 refl (ground arith)

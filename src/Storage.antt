-- ===== src/Storage.antt =====
-- Volume names, mount paths and the names of draining containers (deploypro/domain/storage.py).
pub mod Paths
pub mod Names
mod Tests
use deploygenus.Text.{
  Text, codes, text_eq, starts_with, is_digit, is_lower, is_upper, lower, lstrip_by, strip,
  nonempty, split_by, join, isdigit, int_of, decimal,
}
use deploygenus.Base.{
  leb, ◌==◌, if◌then◌else◌, length, drop, filter, any, all, is_empty, guard, ◌>>=◌, ◌>>◌, Result,
  ok, err, ℕ, Bool, true, false, not, ◌&&◌, ◌||◌, Option, none, some, List, [], ◌∷◌, ◌++◌,
}

pub record Mount : Type 0 where
  pub volume : Text
  pub path : Text

-- `InvalidRequest`, by the rule that was broken.
pub data InvalidStorage : Type 0 where
  bad_volume_name : InvalidStorage
  relative : InvalidStorage
  bad_character : InvalidStorage
  dot_segment : InvalidStorage
  whole_filesystem : InvalidStorage
  inside_reserved : Text → Text → InvalidStorage

abbrev pub Checked : Type 0 → Type 0
Checked A = Result InvalidStorage A

is_name_char : ℕ → Bool
unfolding is_lower is_digit
is_name_char c = is_lower c || is_digit c

-- The characters after the first of `_VOLUME_NAME`: `-` and the class, the last of the class.
name_rest : Text → Bool
name_rest [] = true
name_rest (c ∷ []) = is_name_char c
name_rest (c ∷ d ∷ s) = (is_name_char c || c == b'-') && name_rest (d ∷ s)

-- `^[a-z0-9]([a-z0-9-]{0,30}[a-z0-9])?$` on a text that `strip` has left without a newline
is_volume_name : Text → Bool
unfolding is_name_char name_rest
is_volume_name [] = false
is_volume_name (c ∷ s) = is_name_char c && name_rest s && leb (length s) 31

unfoldable pub validate_volume_name : Text → Checked Text
unfolding is_volume_name lower strip
validate_volume_name name =
    let cleaned = lower (strip name) in
    if not (is_volume_name cleaned) then err bad_volume_name else ok cleaned

-- `[A-Za-z0-9._/-]`
unfoldable pub is_path_char : ℕ → Bool
unfolding is_lower is_upper is_digit
is_path_char c =
    is_lower c || is_upper c || is_digit c || c == b'.' || c == b'_' || c == b'/' || c == b'-'

abbrev pub is_slash : ℕ → Bool
is_slash c = c == b'/'

unfoldable pub is_dots : Text → Bool
unfolding text_eq
is_dots part = text_eq part (codes ".") || text_eq part (codes "..")

abbrev pub reserved_paths : List Text
reserved_paths =
    codes "/proc"
    ∷ codes "/sys"
    ∷ codes "/dev"
    ∷ codes "/etc"
    ∷ codes "/bin"
    ∷ codes "/sbin"
    ∷ codes "/lib"
    ∷ codes "/usr"
    ∷ []

-- `[part for part in cleaned.split("/") if part]`
path_parts : Text → List Text
unfolding split_by filter
path_parts s = filter nonempty (split_by is_slash s)

-- The loop over `_RESERVED`.
check_reserved : Text → List Text → Checked Text
check_reserved canonical [] = ok canonical
check_reserved canonical (reserved ∷ rest) =
    let others = check_reserved canonical rest in
    if text_eq canonical reserved || starts_with canonical (reserved ++ codes "/")
    then err (inside_reserved canonical reserved)
    else others

check_parts : List Text → Checked Text
unfolding is_dots check_reserved join
check_parts parts = do
  guard (not (any is_dots parts)) dot_segment
  guard (not (is_empty parts)) whole_filesystem
  check_reserved (b'/' ∷ join b'/' parts) reserved_paths

-- The rules for the stripped text.
normalise_cleaned : Text → Checked Text
normalise_cleaned cleaned = do
  guard (starts_with cleaned (codes "/")) relative
  guard (all is_path_char cleaned) bad_character
  check_parts (path_parts cleaned)

pub normalise_mount_path : Text → Checked Text
unfolding normalise_cleaned
normalise_mount_path path = normalise_cleaned (strip path)

unfoldable pub docker_volume_name : Text → Text → Text
docker_volume_name project_slug volume = codes "deploypro_" ++ (project_slug ++ (b'_' ∷ volume))

abbrev draining_infix : Text
draining_infix = codes ".draining."

unfoldable pub draining_name : Text → ℕ → Text
draining_name name deadline = name ++ (draining_infix ++ decimal deadline)

-- `$` also matches before a newline that ends the text.
without_newline : Text → Text
without_newline [] = []
without_newline (c ∷ []) = if c == 10 then [] else c ∷ []
without_newline (c ∷ d ∷ s) = c ∷ without_newline (d ∷ s)

-- `\.draining\.(\d+)$`
deadline_at : Text → Option ℕ
deadline_at s =
    let digits = without_newline (drop (length draining_infix) s) in
    if starts_with s draining_infix && isdigit digits then some (int_of digits) else none

-- `^.+` before it: greedy, at least one character, no newline.
deadline_after : Text → Option ℕ
deadline_after [] = none
deadline_after (c ∷ s) =
    if c == 10 then none else elim (deadline_after s) [ some d ↦ some d | none ↦ deadline_at s ]

pub draining_deadline : Text → Option ℕ
draining_deadline name = deadline_after (lstrip_by is_slash name)

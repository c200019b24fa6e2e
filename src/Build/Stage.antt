-- ===== src/Build/Stage.antt =====
-- A reference reader of Dockerfiles, line by line: what the last stage sets. Lines that continue
-- another are read as lines of their own.
use deploygenus.Text.{Text, codes, text_eq, starts_with, split_on, partition}
use deploygenus.Base.{
  if◌then◌else◌, drop, is_empty, ◌≡◌, refl, Bool, false, not, ◌||◌, Option, none, some, List, [],
  ◌∷◌, ◌++◌,
}

pub record Stage : Type 0 where
  pub user : Option Text
  pub command : Option Text

abbrev pub no_stage : Stage
no_stage = record { user = none; command = none }

unfoldable pub read_line : Stage → Text → Stage
unfolding starts_with
read_line stage line =
    if starts_with line (codes "FROM ")
    then no_stage
    else if starts_with line (codes "USER ")
    then record { user = some (drop 5 line); command = stage.command }
    else if starts_with line (codes "CMD ")
    then record { user = stage.user; command = some (drop 4 line) }
    else stage

unfoldable pub read_lines : List Text → Stage → Stage
unfolding read_line
read_lines [] stage = stage
read_lines (line ∷ lines) stage = read_lines lines (read_line stage line)

unfoldable pub last_stage : Text → Stage
unfolding read_lines split_on
last_stage dockerfile = read_lines (split_on 10 dockerfile) no_stage

-- A user that is set and is not root, with or without a group.
unfoldable pub is_unprivileged : Option Text → Bool
unfolding partition text_eq
is_unprivileged none = false
is_unprivileged (some user) =
    let name = (partition b':' user).0 in
    not (text_eq name (codes "root") || text_eq name (codes "0") || is_empty name)

pub read_lines-append :
    (before after : List Text) (stage : Stage)
    → read_lines (before ++ after) stage ≡ read_lines after (read_lines before stage)
unfolding read_lines
read_lines-append [] after stage = refl
read_lines-append (line ∷ before) after stage =
    read_lines-append before after (read_line stage line)

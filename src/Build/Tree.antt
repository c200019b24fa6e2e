-- ===== src/Build/Tree.antt =====
-- A checked-out directory and what is read from it (deploypro/domain/detect.py). A directory is a
-- dictionary from relative paths to texts, with the names of its own folders; it has no symbolic
-- links. What `json.loads` gives is as deep as the code looks: a document's fields, and the values
-- in a field that is an object.
use deploygenus.Build.Readers.Comments.{first_of}
use deploygenus.Build.Readers.Ports.{is_port}
use deploygenus.Dict.{lookup}
use deploygenus.Text.{Text, codes, text_eq, strip}
use deploygenus.Base.{
  if◌then◌else◌, any, is_empty, Result, ok, err, ℕ, zero, suc, Bool, true, false, Option, none,
  some, List, [], ◌∷◌,
}

pub record Tree : Type 0 where
  pub files : List (Text × Text)
  pub folders : List Text

abbrev pub is_there : Option Text → Bool
is_there none = false
is_there (some text) = true

-- `(app_dir / path).is_file()`
unfoldable pub is_file : Tree → Text → Bool
unfolding lookup
is_file tree path = is_there (lookup path tree.files)

unfoldable pub has_any : Tree → List Text → Bool
unfolding is_file
has_any tree names = any (is_file tree) names

unfoldable pub read_first : Tree → List Text → Option Text
unfolding lookup
read_first tree [] = none
read_first tree (name ∷ names) = first_of (lookup name tree.files) (read_first tree names)

-- What detection raises; `not_text` stands for the exception of shlex.split on a value that is no text.
pub data DetectionFailed : Type 0 where
  nothing_found : DetectionFailed
  no_start : DetectionFailed
  not_text : DetectionFailed
  no_application : ℕ → DetectionFailed
  not_json : Text → DetectionFailed
  not_a_file : Text → DetectionFailed

-- A value that no rule looks into; an integer is not negative. Of the others those that Python takes for
-- false (null, false, an empty array or object) are `blank`, and `true` is `unread`.
pub data Leaf : Type 0 where
  string : Text → Leaf
  integer : ℕ → Leaf
  unread : Leaf
  blank : Leaf

pub data Field : Type 0 where
  leaf : Leaf → Field
  object : List (Text × Leaf) → Field

pub data Document : Type 0 where
  members : List (Text × Field) → Document
  no_object : Document

abbrev pub Fields : Type 0
Fields = List (Text × Field)

-- `json.loads` raises on `none`.
unfoldable pub parsed : Text → Option Document → Result DetectionFailed (Option Fields)
parsed name none = err (not_json name)
parsed name (some (members fields)) = ok (some fields)
parsed name (some no_object) = ok none

unfoldable pub read_text_json :
    (Text → Option Document) → Text → Option Text → Result DetectionFailed (Option Fields)
unfolding parsed
read_text_json loads name none = ok none
read_text_json loads name (some text) = parsed name (loads text)

unfoldable pub read_json :
    (Text → Option Document) → Tree → Text → Result DetectionFailed (Option Fields)
unfolding read_text_json lookup
read_json loads tree name = read_text_json loads name (lookup name tree.files)

-- `a or b` on texts that may be missing: an empty text counts as missing.
unfoldable pub or_text : Option Text → Option Text → Option Text
or_text none b = b
or_text (some []) b = b
or_text (some (c ∷ s)) b = some (c ∷ s)

unfoldable pub text_or : Option Text → Text → Text
text_or none b = b
text_or (some []) b = b
text_or (some (c ∷ s)) b = c ∷ s

unfoldable pub or_port : Option ℕ → Option ℕ → Option ℕ
or_port none b = b
or_port (some zero) b = b
or_port (some (suc n)) b = some (suc n)

abbrev pub equals : Option Text → Text → Bool
equals none s = false
equals (some t) s = text_eq t s

unfoldable pub port_or : Option ℕ → ℕ → ℕ
port_or none b = b
port_or (some zero) b = b
port_or (some (suc n)) b = suc n

-- `_str`
unfoldable pub str : Option Field → Option Text
unfolding strip
str (some (leaf (string s))) = if is_empty (strip s) then none else some s
str other = none

-- `_port`
unfoldable pub port_of : Option Field → Option ℕ
unfolding is_port
port_of (some (leaf (integer n))) = if is_port n then some n else none
port_of other = none

pub record Overrides : Type 0 where
  pub framework : Option Text
  pub install_command : Option Text
  pub build_command : Option Text
  pub start_command : Option Text
  pub port : Option ℕ

unfoldable pub merge_manifest : Overrides → Fields → Overrides
unfolding lookup or_text or_port str port_of
merge_manifest over manifest = record {
  framework = or_text over.framework (str (lookup (codes "framework") manifest));
  install_command = or_text over.install_command (str (lookup (codes "installCommand") manifest));
  build_command = or_text over.build_command (str (lookup (codes "buildCommand") manifest));
  start_command = or_text over.start_command (str (lookup (codes "startCommand") manifest));
  port = or_port over.port (port_of (lookup (codes "port") manifest));
}

-- ===== src/Build/Plan.antt =====
-- What a build is (deploypro/domain/buildplan.py).
use deploygenus.Text.{Text, codes, join}
use deploygenus.Base.{ℕ, Bool, List, [], ◌∷◌, ◌++◌}

abbrev pub node_image : Text
node_image = codes "node:22-alpine"

abbrev pub python_image : Text
python_image = codes "python:3.12-slim"

abbrev pub go_image : Text
go_image = codes "golang:1.23-alpine"

abbrev pub static_image : Text
static_image = codes "caddy:2-alpine"

abbrev pub default_port : ℕ
default_port = 8080

pub record BuildPlan : Type 0 where
  pub framework : Text
  pub reason : Text
  pub dockerfile : Text
  pub port : ℕ
  pub from_repo : Bool
  pub notes : List Text
  pub context_files : List (Text × Text)

-- The parts of an f-string, one after the other.
unfoldable pub parts : List Text → Text
parts [] = []
parts (t ∷ ts) = t ++ parts ts

-- `"\n".join(lines) + "\n"`
unfoldable pub file_of : List Text → Text
unfolding join
file_of lines = join b'\n' lines ++ (b'\n' ∷ [])

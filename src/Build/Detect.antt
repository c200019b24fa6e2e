-- ===== src/Build/Detect.antt =====
-- The order of the rules (deploypro/domain/detect.py). `loads` is `json.loads`, `none` where it raises.
use deploygenus.Build.Plan.{default_port, BuildPlan, parts}
use deploygenus.Build.Dockerfiles.Servers.{go_server}
use deploygenus.Build.Dockerfiles.Static.{plain_static}
use deploygenus.Build.Readers.Ports.{exposed_port}
use deploygenus.Build.Tree.{
  Tree, is_file, has_any, DetectionFailed, nothing_found, not_a_file, Document, Fields, read_json,
  or_port, port_or, Overrides, merge_manifest,
}
use deploygenus.Build.Node.{detect_node}
use deploygenus.Build.Python.{dependency_files, detect_python}
use deploygenus.Dict.{lookup}
use deploygenus.Text.{Text, codes, decimal}
use deploygenus.Base.{
  if◌then◌else◌, ◌>>=◌, Result, ok, err, ℕ, true, Option, none, some, List, [], ◌∷◌,
}

-- The note on a port that was neither set nor exposed.
unfoldable pub port_notes : Option ℕ → Option ℕ → ℕ → List Text
unfolding parts
port_notes none none detected =
    parts (
      codes "No EXPOSE in the Dockerfile — assuming the app listens on "
      ∷ decimal detected
      ∷ codes ". Set the project's port if that is wrong."
      ∷ [])
    ∷ []
port_notes none (some exposed) detected = []
port_notes (some port) exposed detected = []

unfoldable pub from_repo_dockerfile : Text → Option ℕ → BuildPlan
unfolding port_notes exposed_port port_or or_port
from_repo_dockerfile text port =
    let detected = port_or (or_port port (exposed_port text)) default_port in
    record {
      framework = codes "dockerfile";
      reason = codes "Dockerfile in the repository — building it unchanged";
      dockerfile = text;
      port = detected;
      from_repo = true;
      notes = port_notes port (exposed_port text) detected;
      context_files = [];
    }

-- `replace(plan, reason=...)`
unfoldable pub with_reason : Text → BuildPlan → BuildPlan
with_reason reason plan = record {
  framework = plan.framework;
  reason = reason;
  dockerfile = plan.dockerfile;
  port = plan.port;
  from_repo = plan.from_repo;
  notes = plan.notes;
  context_files = plan.context_files;
}

unfoldable pub explicit_plan : Text → Option ℕ → Option Text → Result DetectionFailed BuildPlan
unfolding with_reason from_repo_dockerfile parts
explicit_plan path port none = err (not_a_file path)
explicit_plan path port (some text) = ok (
    with_reason (parts (path ∷ codes " in the repository — building it unchanged" ∷ []))
      (from_repo_dockerfile text port))

-- The path is one that `normalise_dockerfile_path` gave.
unfoldable pub explicit_dockerfile : Tree → Text → Option ℕ → Result DetectionFailed BuildPlan
unfolding explicit_plan lookup
explicit_dockerfile tree path port = explicit_plan path port (lookup path tree.files)

-- `if manifest:`
unfoldable pub described : Overrides → Option Fields → Overrides
unfolding merge_manifest
described over none = over
described over (some []) = over
described over (some (field ∷ fields)) = merge_manifest over (field ∷ fields)

-- What the remaining files say, a `package.json` first.
unfoldable pub by_files : Tree → Overrides → ℕ → Option Fields → Result DetectionFailed BuildPlan
unfolding detect_node detect_python has_any is_file go_server plain_static
by_files tree over port (some pkg) = detect_node tree pkg over port
by_files tree over port none =
    if has_any tree dependency_files
    then detect_python tree over port
    else if is_file tree (codes "go.mod")
    then ok (go_server port [])
    else if is_file tree (codes "index.html")
    then ok (plain_static port [])
    else err nothing_found

module _ (loads : Text → Option Document) where
  -- The rules after the Dockerfile.
  unfoldable pub detect_described : Tree → Overrides → Result DetectionFailed BuildPlan
  unfolding read_json described by_files port_or
  detect_described tree over = read_json loads tree (codes "deploypro.json") >>= λ manifest.
      read_json loads tree (codes "package.json")
      >>= by_files tree (described over manifest)
          (port_or (described over manifest).port default_port)

  unfoldable pub by_dockerfile : Tree → Overrides → Option Text → Result DetectionFailed BuildPlan
  unfolding from_repo_dockerfile detect_described
  by_dockerfile tree over (some text) = ok (from_repo_dockerfile text over.port)
  by_dockerfile tree over none = detect_described tree over

  unfoldable pub detect : Tree → Overrides → Result DetectionFailed BuildPlan
  unfolding by_dockerfile lookup
  detect tree over = by_dockerfile tree over (lookup (codes "Dockerfile") tree.files)

-- ===== src/Build/Plans.antt =====
-- Every plan that the generators and the rules make.
use deploygenus.Build.Plan.{BuildPlan}
use deploygenus.Build.Dockerfiles.Stages.{NodeToolchain, header}
use deploygenus.Build.Dockerfiles.Static.{
  static_end, node_static_lines, node_static, plain_static_lines, plain_static,
}
use deploygenus.Build.Dockerfiles.Servers.{
  next_standalone_lines, next_standalone_end, next_standalone, exec_form, node_server_lines,
  node_server_end, node_server, python_lines, python_end, python_server, go_lines, go_end,
  go_server,
}
use deploygenus.Build.Readers.Ports.{is_port}
use deploygenus.Build.Stage.{is_unprivileged}
use deploygenus.Build.Tree.{DetectionFailed}
use deploygenus.Build.Quoting.{exec_form-Free}
use deploygenus.Build.Serving.{ServesOn, port_first-ServesOn, user_first-ServesOn}
use deploygenus.Text.{Text, codes, text_eq, partition}
use deploygenus.Base.{
  if◌then◌else◌, Result, ok, err, ℕ, ◌≡◌, refl, Bool, true, false, Option, List, arith,
}

-- A plan that was generated, with an image that serves on the plan's port.
unfoldable pub Serves : BuildPlan → Type 0
Serves plan =
    (plan.from_repo ≡ false) × (is_port plan.port ≡ true) × ServesOn plan.port plan.dockerfile

-- What a call that succeeds gives satisfies a predicate.
abbrev pub Gives : (BuildPlan → Type 0) → Result DetectionFailed BuildPlan → Type 0
Gives P (ok plan) = P plan
Gives P (err failure) = Unit

pub if-Gives :
    (P : BuildPlan → Type 0) (b : Bool) (r q : Result DetectionFailed BuildPlan)
    → Gives P r
    → Gives P q
    → Gives P (if b then r else q)
if-Gives P true r q h k = h
if-Gives P false r q h k = k

pub if-Serves : (b : Bool) (p q : BuildPlan) → Serves p → Serves q → Serves (if b then p else q)
if-Serves true p q h k = h
if-Serves false p q h k = k

module _ (port : ℕ) (valid : is_port port ≡ true) where
  pub node_static-Serves :
      (framework reason : Text) (tc : NodeToolchain) (build_script output_dir : Text) (spa : Bool)
      (notes : List Text)
      → Serves (node_static framework reason tc build_script output_dir spa port notes)
  unfolding Serves node_static node_static_lines static_end header is_unprivileged partition text_eq
  node_static-Serves framework reason tc build_script output_dir spa notes = (
    refl,
    valid,
    port_first-ServesOn port (codes "1000:1000") _ valid (ground arith) refl (ground arith)
        (node_static_lines framework tc build_script output_dir port) refl,
  )

  pub next_standalone-Serves :
      (tc : NodeToolchain) (notes : List Text) → Serves (next_standalone tc port notes)
  unfolding Serves next_standalone next_standalone_lines next_standalone_end header is_unprivileged
      partition text_eq
  next_standalone-Serves tc notes = (
    refl,
    valid,
    port_first-ServesOn port (codes "node") _ valid (ground arith) refl (ground arith)
        (next_standalone_lines tc port) refl,
  )

  pub node_server-Serves :
      (framework reason : Text) (tc : NodeToolchain) (build_script : Option Text) (start : Text)
      (prune : Bool) (notes : List Text)
      → Serves (node_server framework reason tc build_script start port prune notes)
  unfolding Serves node_server node_server_lines node_server_end header is_unprivileged partition
      text_eq
  node_server-Serves framework reason tc build_script start prune notes = (
    refl,
    valid,
    port_first-ServesOn port (codes "node") (exec_form start) valid (ground arith) refl
        (exec_form-Free start) (node_server_lines framework tc build_script port prune) refl,
  )

  pub python_server-Serves :
      (framework reason start install : Text) (notes : List Text)
      → Serves (python_server framework reason start install port notes)
  unfolding Serves python_server python_lines python_end header is_unprivileged partition text_eq
  python_server-Serves framework reason start install notes = (
    refl,
    valid,
    user_first-ServesOn port (codes "10001") (exec_form start) valid (ground arith) refl
        (exec_form-Free start) (python_lines framework install port) refl,
  )

  pub go_server-Serves : (notes : List Text) → Serves (go_server port notes)
  unfolding Serves go_server go_lines go_end header is_unprivileged partition text_eq
  go_server-Serves notes = (
    refl,
    valid,
    port_first-ServesOn port (codes "65532:65532") (codes "[\"/server\"]") valid (ground arith) refl
        (ground arith) (go_lines port) refl,
  )

  pub plain_static-Serves : (notes : List Text) → Serves (plain_static port notes)
  unfolding Serves plain_static plain_static_lines static_end header is_unprivileged partition
      text_eq
  plain_static-Serves notes = (
    refl,
    valid,
    port_first-ServesOn port (codes "1000:1000") _ valid (ground arith) refl (ground arith)
        (plain_static_lines port) refl,
  )

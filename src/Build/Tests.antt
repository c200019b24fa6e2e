-- ===== src/Build/Tests.antt =====
-- Detection and its readers at concrete directories.
use deploygenus.Build.Plan.{default_port}
use deploygenus.Build.Dockerfiles.Servers.{go_server}
use deploygenus.Build.Readers.Ports.{
  leading_digits, is_port, port_of_digits, exposed_value, exposed_here, exposed_from, exposed_port,
}
use deploygenus.Build.Readers.Comments.{next_output_mode}
use deploygenus.Build.Readers.Uncommented.{between_stars, next_output_mode-comment}
use deploygenus.Build.Tree.{
  Tree, is_file, has_any, integer, leaf, Document, members, parsed, read_text_json, read_json,
  or_port, port_or, port_of, Overrides, merge_manifest,
}
use deploygenus.Build.Detect.{described, by_files, detect_described, by_dockerfile, detect}
use deploygenus.Build.Plans.{Serves}
use deploygenus.Build.Decided.{IsRepository, detect-Serves}
use deploygenus.Dict.{lookup}
use deploygenus.Text.{Text, codes, text_eq, starts_with, is_digit, is_space, lstrip_by, int_of}
use deploygenus.Base.{ok, ◌≡◌, refl, ◌⊎◌, true, Option, none, some, [], ◌∷◌, ◌++◌, arith}

abbrev loads : Text → Option Document
loads s = some (members ((codes "port", leaf (integer 9000)) ∷ []))

abbrev go_tree : Tree
go_tree = record {
  files = (codes "go.mod", codes "module x") ∷ (codes "deploypro.json", codes "{}") ∷ [];
  folders = [];
}

abbrev no_overrides : Overrides
no_overrides = record {
  framework = none;
  install_command = none;
  build_command = none;
  start_command = none;
  port = none;
}

detect_go : detect loads go_tree no_overrides ≡ ok (go_server 9000 [])
unfolding detect by_dockerfile detect_described read_json read_text_json parsed described
    merge_manifest by_files has_any is_file lookup text_eq port_or or_port port_of is_port
detect_go = refl

no_dockerfile : is_port (port_or no_overrides.port default_port) ≡ true
unfolding is_port port_or
no_dockerfile = refl

detect-Serves_example :
    IsRepository go_tree (go_server 9000 [])
    ⊎ ((lookup (codes "Dockerfile") go_tree.files ≡ none) × Serves (go_server 9000 []))
detect-Serves_example =
    detect-Serves loads go_tree no_overrides (go_server 9000 []) no_dockerfile detect_go

exposed_twice :
    exposed_port (codes "FROM x\nEXPOSE 80\n  EXPOSE 9090/tcp\nRUN echo EXPOSE 7\n") ≡ some 9090
unfolding exposed_port exposed_from exposed_here exposed_value port_of_digits leading_digits is_port
    is_digit is_space lstrip_by starts_with int_of
exposed_twice = refl

next_output_mode-comment_example :
    next_output_mode
      (codes "module.exports = { " ++ (codes "/* output: 'standalone' */" ++ codes " }"))
    ≡ next_output_mode (codes "module.exports = { " ++ ([] ++ codes " }"))
next_output_mode-comment_example =
    next_output_mode-comment (codes "module.exports = { ") (codes " }") (ground arith)
      (between_stars (codes " output: 'standalone' ") (ground arith))

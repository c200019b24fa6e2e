-- ===== src/Build/Detected.antt =====
-- Every plan that detection makes.
use deploygenus.Build.Plan.{BuildPlan}
use deploygenus.Build.Dockerfiles.Stages.{NodeToolchain}
use deploygenus.Build.Readers.Ports.{is_port}
use deploygenus.Build.Tree.{Tree, is_file, has_any, DetectionFailed, Fields, equals, Overrides}
use deploygenus.Build.Node.{
  Dependencies, has_key, next_plan, detect_next, detect_astro, detect_sveltekit, remix_plan,
  by_framework, by_start, detect_node,
}
use deploygenus.Build.Python.{
  occurs, dependency_files, dependency_blob, py_entry_candidates, Kind, asgi, wsgi, find_asgi_app,
  find_python_module, app_plan, django_plan, python_start, python_rules, detect_python,
}
use deploygenus.Build.Detect.{by_files}
use deploygenus.Build.Plans.{
  Serves, Gives, if-Gives, if-Serves, node_static-Serves, next_standalone-Serves,
  node_server-Serves, python_server-Serves, go_server-Serves, plain_static-Serves,
}
use deploygenus.Text.{Text, codes}
use deploygenus.Base.{Result, ok, err, ℕ, ◌≡◌, true, Option, none, some, List, [], ◌∷◌}

module _ (port : ℕ) (valid : is_port port ≡ true) where
  next_plan-Serves :
      (mode : Option Text) (tc : NodeToolchain) (notes : List Text)
      → Serves (next_plan mode tc port notes)
  unfolding next_plan
  next_plan-Serves mode tc notes =
      if-Serves (equals mode (codes "export")) _ _
        (node_static-Serves port valid _ _ tc _ _ _ notes)
        (if-Serves (equals mode (codes "standalone")) _ _
          (next_standalone-Serves port valid tc notes) (search (node_server-Serves port valid)))

  detect_astro-Serves :
      (deps : Dependencies) (tc : NodeToolchain) (notes : List Text)
      → Serves (detect_astro deps tc port notes)
  unfolding detect_astro
  detect_astro-Serves deps tc notes =
      if-Serves (has_key (codes "@astrojs/node") deps) _ _ (search (node_server-Serves port valid))
        (node_static-Serves port valid _ _ tc _ _ _ notes)

  detect_sveltekit-Serves :
      (deps : Dependencies) (tc : NodeToolchain) (notes : List Text)
      → Serves (detect_sveltekit deps tc port notes)
  unfolding detect_sveltekit
  detect_sveltekit-Serves deps tc notes =
      if-Serves (has_key (codes "@sveltejs/adapter-static") deps) _ _
        (node_static-Serves port valid _ _ tc _ _ _ notes) (search (node_server-Serves port valid))

  remix_plan-Serves :
      (start : Result DetectionFailed (Option Text)) (tc : NodeToolchain)
      (build_script : Option Text) (notes : List Text)
      → Gives Serves (remix_plan start tc build_script port notes)
  unfolding remix_plan
  remix_plan-Serves (err e) tc build_script notes = tt
  remix_plan-Serves (ok start) tc build_script notes = search (node_server-Serves port valid)

  by_framework-Serves :
      (tree : Tree) (deps scripts : Dependencies) (tc : NodeToolchain)
      (framework build_script : Option Text) (notes : List Text)
      → Gives Serves (by_framework tree deps scripts tc framework build_script port notes)
  unfolding by_framework detect_next
  by_framework-Serves tree deps scripts tc framework build_script notes =
      if-Gives Serves (equals framework (codes "next")) _ _ (next_plan-Serves _ tc notes) (
        if-Gives Serves (equals framework (codes "astro")) _ _ (detect_astro-Serves deps tc notes) (
          if-Gives Serves (equals framework (codes "nuxt")) _ _
            (search (node_server-Serves port valid))
            (if-Gives Serves (equals framework (codes "sveltekit")) _ _
              (detect_sveltekit-Serves deps tc notes)
              (if-Gives Serves (equals framework (codes "remix")) _ _
                (remix_plan-Serves _ tc build_script notes)
                (if-Gives Serves (equals framework (codes "vite")) _ _
                  (node_static-Serves port valid _ _ tc _ _ _ notes)
                  (if-Gives Serves (equals framework (codes "cra")) _ _
                    (node_static-Serves port valid _ _ tc _ _ _ notes)
                    (if-Gives Serves (has_key (codes "start") scripts) _ _
                      (search (node_server-Serves port valid)) tt)))))))

  by_start-Serves :
      (start : Option Text) (tc : NodeToolchain) (framework build_script : Option Text)
      (notes : List Text) (rest : Result DetectionFailed BuildPlan)
      → Gives Serves rest
      → Gives Serves (by_start start tc framework build_script port notes rest)
  unfolding by_start
  by_start-Serves none tc framework build_script notes rest h = h
  by_start-Serves (some []) tc framework build_script notes rest h = h
  by_start-Serves (some (c ∷ s)) tc framework build_script notes rest h =
      search (node_server-Serves port valid)

  detect_node-Serves :
      (tree : Tree) (pkg : Fields) (over : Overrides)
      → Gives Serves (detect_node tree pkg over port)
  unfolding detect_node
  detect_node-Serves tree pkg over =
      by_start-Serves over.start_command _ _ _ _ _ (by_framework-Serves tree _ _ _ _ _ _)

  app_plan-Serves :
      (install : Text) (found : Option (Text × Kind)) → Gives Serves (app_plan install port found)
  unfolding app_plan
  app_plan-Serves install none = tt
  app_plan-Serves install (some (path, asgi)) = search (python_server-Serves port valid)
  app_plan-Serves install (some (path, wsgi)) = search (python_server-Serves port valid)

  django_plan-Serves :
      (install : Text) (found : Option Text) (rest : Result DetectionFailed BuildPlan)
      → Gives Serves rest
      → Gives Serves (django_plan install port found rest)
  unfolding django_plan
  django_plan-Serves install none rest h = h
  django_plan-Serves install (some path) rest h = search (python_server-Serves port valid)

  python_start-Serves :
      (start framework : Option Text) (install : Text) (rest : Result DetectionFailed BuildPlan)
      → Gives Serves rest
      → Gives Serves (python_start start framework install port rest)
  unfolding python_start
  python_start-Serves none framework install rest h = h
  python_start-Serves (some []) framework install rest h = h
  python_start-Serves (some (c ∷ s)) framework install rest h =
      search (python_server-Serves port valid)

  python_rules-Serves :
      (tree : Tree) (install : Text) → Gives Serves (python_rules tree install port)
  unfolding python_rules
  python_rules-Serves tree install =
      let by_app = app_plan-Serves install (find_asgi_app tree py_entry_candidates) in
      if-Gives Serves (occurs (codes "django") (dependency_blob tree))
        (django_plan install port (find_python_module tree (codes "wsgi.py"))
          (app_plan install port (find_asgi_app tree py_entry_candidates)))
        (app_plan install port (find_asgi_app tree py_entry_candidates))
        (django_plan-Serves install (find_python_module tree (codes "wsgi.py")) _ by_app) by_app

  detect_python-Serves :
      (tree : Tree) (over : Overrides) → Gives Serves (detect_python tree over port)
  unfolding detect_python
  detect_python-Serves tree over =
      python_start-Serves over.start_command over.framework _ _ (python_rules-Serves tree _)

  pub by_files-Serves :
      (tree : Tree) (over : Overrides) (pkg : Option Fields)
      → Gives Serves (by_files tree over port pkg)
  unfolding by_files
  by_files-Serves tree over (some pkg) = detect_node-Serves tree pkg over
  by_files-Serves tree over none =
      if-Gives Serves (has_any tree dependency_files) _ _ (detect_python-Serves tree over) (
        if-Gives Serves (is_file tree (codes "go.mod")) _ _ (go_server-Serves port valid []) (
          if-Gives Serves (is_file tree (codes "index.html")) _ _
            (plain_static-Serves port valid []) tt))

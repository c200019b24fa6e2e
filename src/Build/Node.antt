-- ===== src/Build/Node.antt =====
-- The rules for a Node project (deploypro/domain/detect.py).
use deploygenus.Build.Plan.{BuildPlan, parts}
use deploygenus.Build.Dockerfiles.Stages.{
  NodeToolchain, npm_cache, run_prefix, npm, npm_no_lock, pnpm, yarn, bun,
}
use deploygenus.Build.Dockerfiles.Static.{node_static}
use deploygenus.Build.Dockerfiles.Servers.{next_standalone, node_server}
use deploygenus.Build.Readers.Comments.{next_output_mode}
use deploygenus.Build.Tree.{
  Tree, is_file, has_any, read_first, DetectionFailed, no_start, not_text, Leaf, string, integer,
  unread, blank, Field, object, Fields, or_text, text_or, equals, Overrides,
}
use deploygenus.Dict.{lookup, put}
use deploygenus.Text.{Text, codes, text_eq, starts_with, decimal}
use deploygenus.Base.{
  if◌then◌else◌, Result, ok, err, ℕ, zero, suc, Bool, true, false, not, ◌&&◌, ◌||◌, Option, none,
  some, List, [], ◌∷◌, ◌++◌,
}

abbrev pub next_configs : List Text
next_configs =
    codes "next.config.js"
    ∷ codes "next.config.mjs"
    ∷ codes "next.config.cjs"
    ∷ codes "next.config.ts"
    ∷ []

abbrev pub astro_configs : List Text
astro_configs = codes "astro.config.mjs" ∷ codes "astro.config.js" ∷ codes "astro.config.ts" ∷ []

abbrev pub nuxt_configs : List Text
nuxt_configs = codes "nuxt.config.ts" ∷ codes "nuxt.config.js" ∷ codes "nuxt.config.mjs" ∷ []

abbrev pub svelte_configs : List Text
svelte_configs = codes "svelte.config.js" ∷ codes "svelte.config.mjs" ∷ []

abbrev pub vite_configs : List Text
vite_configs = codes "vite.config.js" ∷ codes "vite.config.mjs" ∷ codes "vite.config.ts" ∷ []

abbrev pub Dependencies : Type 0
Dependencies = List (Text × Leaf)

unfoldable pub has_key : {A : Type 0} → Text → List (Text × A) → Bool
has_key key [] = false
has_key key ((k, a) ∷ d) = text_eq k key || has_key key d

-- `merged.update(section)`
unfoldable pub updated : Dependencies → Dependencies → Dependencies
unfolding put
updated merged [] = merged
updated merged ((k, a) ∷ section) = updated (put k a merged) section

unfoldable pub with_section : Dependencies → Option Field → Dependencies
unfolding updated
with_section merged (some (object section)) = updated merged section
with_section merged other = merged

unfoldable pub dependencies : Fields → Dependencies
unfolding with_section lookup
dependencies pkg =
    with_section
      (with_section (with_section [] (lookup (codes "dependencies") pkg))
        (lookup (codes "devDependencies") pkg))
      (lookup (codes "peerDependencies") pkg)

-- `pkg.get("scripts") or {}`, which is an object when it is there.
unfoldable pub scripts_of : Option Field → Dependencies
scripts_of (some (object scripts)) = scripts
scripts_of other = []

-- `scripts.get(key)`, where what Python takes for false counts as absent, and what is no text makes
-- the generator's shlex.split raise.
unfoldable pub script : Option Leaf → Result DetectionFailed (Option Text)
script none = ok none
script (some (string command)) = ok (some command)
script (some (integer zero)) = ok none
script (some (integer (suc n))) = err not_text
script (some unread) = err not_text
script (some blank) = ok none

-- `any(d.startswith(prefix) for d in deps)`
unfoldable pub any_starts : Text → Dependencies → Bool
unfolding starts_with
any_starts prefix [] = false
any_starts prefix ((k, a) ∷ d) = starts_with k prefix || any_starts prefix d

unfoldable pub node_framework : Tree → Dependencies → Option Text
unfolding has_any has_key any_starts
node_framework tree deps =
    if has_any tree next_configs || has_key (codes "next") deps
    then some (codes "next")
    else if has_any tree nuxt_configs || has_key (codes "nuxt") deps
    then some (codes "nuxt")
    else if has_any tree astro_configs || has_key (codes "astro") deps
    then some (codes "astro")
    else if has_any tree svelte_configs || has_key (codes "@sveltejs/kit") deps
    then some (codes "sveltekit")
    else if any_starts (codes "@remix-run/") deps
    then some (codes "remix")
    else if has_key (codes "react-scripts") deps
    then some (codes "cra")
    else if has_any tree vite_configs || has_key (codes "vite") deps
    then some (codes "vite")
    else none

abbrev pub has_lockfile : Tree → Option Text → Bool
has_lockfile tree none = false
has_lockfile tree (some path) = is_file tree path

-- The loop over the toolchains, with its `else`.
unfoldable pub first_toolchain : Tree → List NodeToolchain → NodeToolchain
unfolding is_file
first_toolchain tree [] = npm_no_lock
first_toolchain tree (tc ∷ tcs) =
    if has_lockfile tree tc.lockfile then tc else first_toolchain tree tcs

-- `if over.install_command:`
unfoldable pub with_install : NodeToolchain → Option Text → NodeToolchain
with_install tc none = tc
with_install tc (some []) = tc
with_install tc (some (c ∷ s)) = record {
  name = tc.name;
  lockfile = tc.lockfile;
  install = c ∷ s;
  setup = tc.setup;
  cache_dir = npm_cache;
}

unfoldable pub toolchain : Tree → Overrides → NodeToolchain
unfolding first_toolchain with_install
toolchain tree over =
    with_install (first_toolchain tree (pnpm ∷ yarn ∷ bun ∷ npm ∷ [])) over.install_command

-- The note on a missing lockfile.
unfoldable pub lockfile_notes : Option Text → List Text
lockfile_notes (some path) = []
lockfile_notes none =
    codes
      "No lockfile found, so dependency versions are resolved at build time and two deploys of the same commit can differ. Commit a lockfile."
    ∷ []

-- `_detect_next`, by the mode that its configuration sets
unfoldable pub next_plan : Option Text → NodeToolchain → ℕ → List Text → BuildPlan
unfolding node_server parts
next_plan mode tc port notes =
    if equals mode (codes "export")
    then node_static (codes "next-export")
        (codes "Next.js with output: 'export' — serving the exported site") tc (codes "build")
        (codes "out") false port notes
    else if equals mode (codes "standalone")
    then next_standalone tc port notes
    else node_server (codes "next") (codes "Next.js — running `next start`") tc
        (some (codes "build"))
        (parts (codes "npx next start -p " ∷ decimal port ∷ codes " -H 0.0.0.0" ∷ [])) port false
        (notes
          ++ (codes
                "Setting `output: 'standalone'` in next.config would cut this image from roughly 1 GB to under 200 MB and start it faster. DeployPro switches automatically once it is set."
              ∷ []))

unfoldable pub detect_next : Tree → NodeToolchain → ℕ → List Text → BuildPlan
unfolding next_plan next_output_mode read_first text_or
detect_next tree tc port notes =
    next_plan (next_output_mode (text_or (read_first tree next_configs) [])) tc port notes

unfoldable pub detect_astro : Dependencies → NodeToolchain → ℕ → List Text → BuildPlan
unfolding has_key
detect_astro deps tc port notes =
    if has_key (codes "@astrojs/node") deps
    then node_server (codes "astro-node")
        (codes "Astro with the Node adapter — running its server entry") tc (some (codes "build"))
        (codes "node ./dist/server/entry.mjs") port false notes
    else node_static (codes "astro") (codes "Astro with no server adapter — serving the built site")
        tc (codes "build") (codes "dist") false port notes

-- The notes of a SvelteKit server.
unfoldable pub adapter_notes : Dependencies → List Text → List Text
unfolding has_key
adapter_notes deps notes =
    if has_key (codes "@sveltejs/adapter-auto") deps
      && not (has_key (codes "@sveltejs/adapter-node") deps)
    then notes
      ++ (codes
            "SvelteKit is using adapter-auto, which only works on hosts it recognises and will fail here. Install @sveltejs/adapter-node and set it in svelte.config.js."
          ∷ [])
    else notes

unfoldable pub detect_sveltekit : Dependencies → NodeToolchain → ℕ → List Text → BuildPlan
unfolding has_key adapter_notes
detect_sveltekit deps tc port notes =
    if has_key (codes "@sveltejs/adapter-static") deps
    then node_static (codes "sveltekit-static")
        (codes "SvelteKit with adapter-static — serving the built site") tc (codes "build")
        (codes "build") false port notes
    else node_server (codes "sveltekit")
        (codes "SvelteKit with the Node adapter — running the built server") tc
        (some (codes "build")) (codes "node build/index.js") port true (adapter_notes deps notes)

unfoldable pub remix_plan :
    Result DetectionFailed (Option Text)
    → NodeToolchain
    → Option Text
    → ℕ
    → List Text
    → Result DetectionFailed BuildPlan
unfolding node_server text_or
remix_plan (err e) tc build_script port notes = err e
remix_plan (ok start) tc build_script port notes = ok (
    node_server (codes "remix") (codes "Remix detected — running its own server") tc
      (some (text_or build_script (codes "build")))
      (text_or start (codes "npx remix-serve build/server/index.js")) port true notes)

-- `match framework:`, and what follows it
unfoldable pub by_framework :
    Tree
    → Dependencies
    → Dependencies
    → NodeToolchain
    → Option Text
    → Option Text
    → ℕ
    → List Text
    → Result DetectionFailed BuildPlan
unfolding detect_next detect_astro detect_sveltekit node_server remix_plan script text_or lookup
    has_key run_prefix
by_framework tree deps scripts tc framework build_script port notes =
    if equals framework (codes "next")
    then ok (detect_next tree tc port notes)
    else if equals framework (codes "astro")
    then ok (detect_astro deps tc port notes)
    else if equals framework (codes "nuxt")
    then ok (
        node_server (codes "nuxt") (codes "Nuxt config found — serving the Nitro server bundle") tc
          (some (text_or build_script (codes "build"))) (codes "node .output/server/index.mjs") port
          false notes)
    else if equals framework (codes "sveltekit")
    then ok (detect_sveltekit deps tc port notes)
    else if equals framework (codes "remix")
    then remix_plan (script (lookup (codes "start") scripts)) tc build_script port notes
    else if equals framework (codes "vite")
    then ok (
        node_static (codes "vite")
          (codes "Vite config with no SSR adapter — serving the built assets") tc
          (text_or build_script (codes "build")) (codes "dist") true port notes)
    else if equals framework (codes "cra")
    then ok (
        node_static (codes "cra") (codes "react-scripts detected — serving the built assets") tc
          (text_or build_script (codes "build")) (codes "build") true port notes)
    else if has_key (codes "start") scripts
    then ok (
        node_server (codes "node") (codes "package.json has a start script — running it") tc
          build_script (run_prefix tc ++ codes " start") port true notes)
    else err no_start

-- `if over.start_command:`, and otherwise the rest
unfoldable pub by_start :
    Option Text
    → NodeToolchain
    → Option Text
    → Option Text
    → ℕ
    → List Text
    → Result DetectionFailed BuildPlan
    → Result DetectionFailed BuildPlan
unfolding node_server text_or
by_start none tc framework build_script port notes rest = rest
by_start (some []) tc framework build_script port notes rest = rest
by_start (some (c ∷ s)) tc framework build_script port notes rest = ok (
    node_server (text_or framework (codes "node"))
      (codes "Start command set on the project: " ++ (c ∷ s)) tc build_script (c ∷ s) port true
      notes)

unfoldable pub detect_node : Tree → Fields → Overrides → ℕ → Result DetectionFailed BuildPlan
unfolding toolchain dependencies scripts_of or_text has_key lockfile_notes node_framework by_start
    by_framework lookup
detect_node tree pkg over port =
    let tc = toolchain tree over in
    let deps = dependencies pkg in
    let scripts = scripts_of (lookup (codes "scripts") pkg) in
    let build_script =
      or_text over.build_command
        (if has_key (codes "build") scripts then some (codes "build") else none) in
    let notes = lockfile_notes tc.lockfile in
    let framework = or_text over.framework (node_framework tree deps) in
    by_start over.start_command tc framework build_script port notes
      (by_framework tree deps scripts tc framework build_script port notes)

-- ===== src/Build/Dockerfiles/Servers.antt =====
-- Applications that run their own server (deploypro/domain/dockerfiles.py).
use deploygenus.Build.Dockerfiles.Stages.{
  cache_mount, NodeToolchain, cache, run_prefix, build_env_mount, header, from_line, install_stage,
  expose_line,
}
use deploygenus.Build.Json.{json_texts}
use deploygenus.Build.Plan.{node_image, python_image, go_image, BuildPlan, parts, file_of}
use deploygenus.Text.{Text, codes, text_eq, words, decimal}
use deploygenus.Base.{
  ◌==◌, if◌then◌else◌, any, is_empty, ℕ, Bool, false, ◌||◌, Option, none, some, List, [], ◌∷◌, ◌++◌,
}

unfoldable pub next_standalone_lines : NodeToolchain → ℕ → List Text
unfolding header install_stage from_line build_env_mount run_prefix
next_standalone_lines tc port =
    header (codes "Next.js (standalone)")
    ++ (install_stage tc
        ++ (from_line node_image (codes "build")
            ∷ codes "WORKDIR /app"
            ∷ codes "COPY --from=deps /app/node_modules ./node_modules"
            ∷ codes "COPY . ."
            ∷ codes "ENV NODE_ENV=production NEXT_TELEMETRY_DISABLED=1"
            ∷ build_env_mount (run_prefix tc ++ codes " build") []
            ∷ codes "# `public` is optional in Next but not optional for the COPY below."
            ∷ codes "RUN mkdir -p public"
            ∷ []
            ∷ from_line node_image (codes "run")
            ∷ codes "WORKDIR /app"
            ∷ codes "ENV NODE_ENV=production NEXT_TELEMETRY_DISABLED=1"
            ∷ codes "# Next's server binds to localhost unless told otherwise, which from"
            ∷ codes "# outside the container looks exactly like a crashed app."
            ∷ (codes "ENV HOSTNAME=0.0.0.0 PORT=" ++ decimal port)
            ∷ codes "COPY --from=build /app/public ./public"
            ∷ codes "COPY --from=build /app/.next/standalone ./"
            ∷ codes "COPY --from=build /app/.next/static ./.next/static"
            ∷ []))

unfoldable pub next_standalone_end : ℕ → List Text
unfolding expose_line
next_standalone_end port =
    expose_line port ∷ codes "USER node" ∷ codes "CMD [\"node\", \"server.js\"]" ∷ []

unfoldable pub next_standalone : NodeToolchain → ℕ → List Text → BuildPlan
unfolding next_standalone_lines next_standalone_end file_of
next_standalone tc port notes = record {
  framework = codes "next-standalone";
  reason = codes "Next.js with output: 'standalone' — serving the traced server bundle";
  dockerfile = file_of (next_standalone_lines tc port ++ next_standalone_end port);
  port = port;
  from_repo = false;
  notes = notes;
  context_files = [];
}

-- `ch in "|&;<>$*?`"`
unfoldable pub is_shell_char : ℕ → Bool
is_shell_char c =
    c == b'|'
    || c == b'&'
    || c == b';'
    || c == b'<'
    || c == b'>'
    || c == b'$'
    || c == b'*'
    || c == b'?'
    || c == b'`'

unfoldable pub exec_form : Text → Text
unfolding is_shell_char json_texts words
exec_form command =
    if any is_shell_char command
    then json_texts (codes "/bin/sh" ∷ codes "-c" ∷ (codes "exec " ++ command) ∷ [])
    else json_texts (words command)

-- The command that prunes, by the name of the tool; the source raises on another name.
unfoldable pub prune_command : Text → Option Text
prune_command name =
    if text_eq name (codes "npm")
    then some (codes "npm prune --omit=dev")
    else if text_eq name (codes "pnpm")
    then some (codes "pnpm prune --prod")
    else if text_eq name (codes "yarn")
    then some (codes "yarn install --production --ignore-scripts --prefer-offline")
    else if text_eq name (codes "bun")
    then some (codes "bun install --production")
    else none

unfoldable pub prune_line : NodeToolchain → Option Text → List Text
unfolding parts cache
prune_line tc none = []
prune_line tc (some command) =
    parts (codes "RUN " ∷ cache tc ∷ codes " " ∷ command ∷ codes " || true" ∷ []) ∷ []

-- `if build_script:`
unfoldable pub build_line : NodeToolchain → Option Text → List Text
unfolding build_env_mount run_prefix parts
build_line tc none = []
build_line tc (some script) =
    if is_empty script
    then []
    else build_env_mount (parts (run_prefix tc ∷ codes " " ∷ script ∷ [])) [] ∷ []

unfoldable pub node_server_lines : Text → NodeToolchain → Option Text → ℕ → Bool → List Text
unfolding header install_stage from_line build_line prune_line prune_command
node_server_lines framework tc build_script port prune =
    header framework
    ++ (install_stage tc
        ++ (from_line node_image (codes "build")
            ∷ codes "WORKDIR /app"
            ∷ codes "COPY --from=deps /app/node_modules ./node_modules"
            ∷ codes "COPY . ."
            ∷ codes "ENV NODE_ENV=production"
            ∷ (build_line tc build_script
                ++ ((if prune then prune_line tc (prune_command tc.name) else [])
                    ++ ([]
                        ∷ from_line node_image (codes "run")
                        ∷ codes "WORKDIR /app"
                        ∷ (codes "ENV NODE_ENV=production HOST=0.0.0.0 HOSTNAME=0.0.0.0 PORT="
                            ++ decimal port)
                        ∷ codes "COPY --from=build /app ./"
                        ∷ [])))))

unfoldable pub node_server_end : ℕ → Text → List Text
unfolding expose_line exec_form
node_server_end port start =
    expose_line port ∷ codes "USER node" ∷ (codes "CMD " ++ exec_form start) ∷ []

unfoldable pub node_server :
    Text → Text → NodeToolchain → Option Text → Text → ℕ → Bool → List Text → BuildPlan
unfolding node_server_lines node_server_end file_of
node_server framework reason tc build_script start port prune notes = record {
  framework = framework;
  reason = reason;
  dockerfile =
      file_of
        (node_server_lines framework tc build_script port prune ++ node_server_end port start);
  port = port;
  from_repo = false;
  notes = notes;
  context_files = [];
}

unfoldable pub python_lines : Text → Text → ℕ → List Text
unfolding header from_line cache_mount parts
python_lines framework install port =
    header framework
    ++ (from_line python_image (codes "build")
        ∷ codes "WORKDIR /app"
        ∷ codes "ENV PIP_DISABLE_PIP_VERSION_CHECK=1"
        ∷ codes "RUN python -m venv /opt/venv"
        ∷ codes "ENV PATH=\"/opt/venv/bin:$PATH\""
        ∷ codes "COPY . ."
        ∷ parts (
            codes "RUN "
            ∷ cache_mount (codes "/root/.cache") (codes "python")
            ∷ codes " "
            ∷ install
            ∷ [])
        ∷ []
        ∷ from_line python_image (codes "run")
        ∷ codes "WORKDIR /app"
        ∷ codes "ENV PATH=\"/opt/venv/bin:$PATH\" PYTHONUNBUFFERED=1"
        ∷ (codes "ENV PORT=" ++ decimal port)
        ∷ codes "COPY --from=build /opt/venv /opt/venv"
        ∷ codes "COPY --from=build /app /app"
        ∷ codes "RUN useradd --uid 10001 --no-create-home --shell /usr/sbin/nologin app"
        ∷ [])

unfoldable pub python_end : ℕ → Text → List Text
unfolding expose_line exec_form
python_end port start =
    codes "USER 10001" ∷ expose_line port ∷ (codes "CMD " ++ exec_form start) ∷ []

unfoldable pub python_server : Text → Text → Text → Text → ℕ → List Text → BuildPlan
unfolding python_lines python_end file_of
python_server framework reason start install port notes = record {
  framework = framework;
  reason = reason;
  dockerfile = file_of (python_lines framework install port ++ python_end port start);
  port = port;
  from_repo = false;
  notes = notes;
  context_files = [];
}

unfoldable pub go_lines : ℕ → List Text
unfolding header from_line cache_mount build_env_mount parts
go_lines port =
    header (codes "Go")
    ++ (from_line go_image (codes "build")
        ∷ codes "WORKDIR /src"
        ∷ codes "COPY go.mod go.su[m] ./"
        ∷ parts (
            codes "RUN "
            ∷ cache_mount (codes "/go/pkg/mod") (codes "go-mod")
            ∷ codes " go mod download"
            ∷ [])
        ∷ codes "COPY . ."
        ∷ codes "ENV CGO_ENABLED=0 GOOS=linux"
        ∷ build_env_mount (codes "go build -trimpath -ldflags='-s -w' -o /out/server ./...") (
            cache_mount (codes "/go/pkg/mod") (codes "go-mod")
            ∷ cache_mount (codes "/root/.cache/go-build") (codes "go-build")
            ∷ [])
        ∷ []
        ∷ codes "FROM gcr.io/distroless/base-debian12 AS run"
        ∷ codes "COPY --from=build /out/server /server"
        ∷ (codes "ENV PORT=" ++ decimal port)
        ∷ [])

unfoldable pub go_end : ℕ → List Text
unfolding expose_line
go_end port = expose_line port ∷ codes "USER 65532:65532" ∷ codes "CMD [\"/server\"]" ∷ []

unfoldable pub go_server : ℕ → List Text → BuildPlan
unfolding go_lines go_end file_of
go_server port notes = record {
  framework = codes "go";
  reason = codes "go.mod found — building a static binary on a distroless base";
  dockerfile = file_of (go_lines port ++ go_end port);
  port = port;
  from_repo = false;
  notes = notes;
  context_files = [];
}

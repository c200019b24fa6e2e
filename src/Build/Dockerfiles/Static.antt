-- ===== src/Build/Dockerfiles/Static.antt =====
-- Sites that a file server serves (deploypro/domain/dockerfiles.py).
use deploygenus.Build.Dockerfiles.Stages.{
  NodeToolchain, run_prefix, build_env_mount, header, from_line, install_stage, expose_line,
}
use deploygenus.Build.Plan.{node_image, static_image, BuildPlan, parts, file_of}
use deploygenus.Text.{Text, codes, join, decimal}
use deploygenus.Base.{ℕ, Bool, true, false, List, [], ◌∷◌, ◌++◌}

-- The two files of a static site: the lines of its stage, and its Caddyfile.
unfoldable pub fallback : Bool → Text
fallback true = codes "try_files {path} {path}/ {path}.html /index.html"
fallback false = codes "try_files {path} {path}.html {path}/index.html"

unfoldable pub not_found : Bool → List Text
not_found true = []
not_found false =
    []
    ∷ codes "\thandle_errors {"
    ∷ codes "\t\t@404 expression {err.status_code} == 404"
    ∷ codes "\t\trewrite @404 /404.html"
    ∷ codes "\t\tfile_server"
    ∷ codes "\t}"
    ∷ []

unfoldable pub caddyfile : Bool → ℕ → Text
unfolding fallback not_found parts
caddyfile spa port = join b'\n' (
    codes "{"
    ∷ codes "\tauto_https off"
    ∷ codes "\tadmin off"
    ∷ codes "}"
    ∷ []
    ∷ parts (codes ":" ∷ decimal port ∷ codes " {" ∷ [])
    ∷ codes "\troot * /srv"
    ∷ codes "\tencode zstd gzip"
    ∷ (b'\t' ∷ fallback spa)
    ∷ codes "\tfile_server"
    ∷ []
    ∷ codes "\t# Baseline headers for every static site on the platform. See the"
    ∷ codes "\t# docstring for why they live here and not in the project."
    ∷ codes "\theader {"
    ∷ codes "\t\tX-Content-Type-Options nosniff"
    ∷ codes "\t\tReferrer-Policy strict-origin-when-cross-origin"
    ∷ codes "\t\tX-Frame-Options DENY"
    ∷ codes "\t\t# Naming the server and its version only helps whoever is"
    ∷ codes "\t\t# looking for hosts running a version with a known bug."
    ∷ codes "\t\t-Server"
    ∷ codes "\t}"
    ∷ []
    ∷ codes "\t# Immutable build output is safe to cache hard; HTML is not,"
    ∷ codes "\t# because the next deploy must be visible on the next request."
    ∷ codes "\t@immutable path /_next/static/* /assets/* /static/*"
    ∷ codes "\theader @immutable Cache-Control \"public, max-age=31536000, immutable\""
    ∷ codes "\t@html path *.html /"
    ∷ codes "\theader @html Cache-Control \"public, max-age=0, must-revalidate\""
    ∷ (not_found spa ++ (codes "}" ∷ [] ∷ [])))

-- `_static_runtime`: the stage up to its EXPOSE line.
unfoldable pub static_stage : Text → Text → ℕ → List Text
unfolding from_line parts
static_stage source_stage output_dir port =
    from_line static_image (codes "run")
    ∷ codes "COPY Caddyfile /etc/caddy/Caddyfile"
    ∷ parts (codes "COPY --from=" ∷ source_stage ∷ codes " /app/" ∷ output_dir ∷ codes " /srv" ∷ [])
    ∷ codes "# The image ships caddy with the cap_net_bind_service file capability"
    ∷ codes "# so an unprivileged user can bind :80. Every container here runs with"
    ∷ codes "# no-new-privileges, and the kernel refuses to exec a file carrying"
    ∷ codes "# capabilities under that flag: the container dies with"
    ∷ codes "# 'exec /usr/bin/caddy: operation not permitted' before it reads a line"
    ∷ codes "# of config, which looks like a broken image and is a run-time flag."
    ∷ parts (
        codes "# Nothing here binds below 1024 — this listens on "
        ∷ decimal port
        ∷ codes " — so the"
        ∷ [])
    ∷ codes "# capability buys nothing and removing it is the whole fix."
    ∷ codes "RUN apk add --no-cache --virtual .setcap libcap \\"
    ∷ codes "    && setcap -r /usr/bin/caddy \\"
    ∷ codes "    && apk del .setcap"
    ∷ []

-- What starts a static site.
unfoldable pub static_end : ℕ → List Text
unfolding expose_line
static_end port =
    expose_line port
    ∷ codes "USER 1000:1000"
    ∷ codes
        "CMD [\"caddy\", \"run\", \"--adapter\", \"caddyfile\", \"--config\", \"/etc/caddy/Caddyfile\"]"
    ∷ []

-- `node_static`: the lines up to the EXPOSE line.
unfoldable pub node_static_lines : Text → NodeToolchain → Text → Text → ℕ → List Text
unfolding header install_stage from_line build_env_mount run_prefix static_stage parts
node_static_lines framework tc build_script output_dir port =
    header framework
    ++ (install_stage tc
        ++ (from_line node_image (codes "build")
            ∷ codes "WORKDIR /app"
            ∷ codes "COPY --from=deps /app/node_modules ./node_modules"
            ∷ codes "COPY . ."
            ∷ codes "ENV NODE_ENV=production"
            ∷ build_env_mount (parts (run_prefix tc ∷ codes " " ∷ build_script ∷ [])) []
            ∷ []
            ∷ static_stage (codes "build") output_dir port))

unfoldable pub node_static :
    Text → Text → NodeToolchain → Text → Text → Bool → ℕ → List Text → BuildPlan
unfolding node_static_lines static_end caddyfile file_of
node_static framework reason tc build_script output_dir spa port notes = record {
  framework = framework;
  reason = reason;
  dockerfile =
      file_of (node_static_lines framework tc build_script output_dir port ++ static_end port);
  port = port;
  from_repo = false;
  notes = notes;
  context_files = (codes "Caddyfile", caddyfile spa port) ∷ [];
}

unfoldable pub plain_static_lines : ℕ → List Text
unfolding header from_line static_stage
plain_static_lines port =
    header (codes "static site")
    ++ (from_line static_image (codes "source")
        ∷ codes "WORKDIR /app"
        ∷ codes "COPY . ./"
        ∷ []
        ∷ static_stage (codes "source") (codes ".") port)

unfoldable pub plain_static : ℕ → List Text → BuildPlan
unfolding plain_static_lines static_end caddyfile file_of
plain_static port notes = record {
  framework = codes "static";
  reason = codes "index.html with no build manifest — serving the directory as-is";
  dockerfile = file_of (plain_static_lines port ++ static_end port);
  port = port;
  from_repo = false;
  notes = notes;
  context_files = (codes "Caddyfile", caddyfile false port) ∷ [];
}

-- ===== src/Build/Dockerfiles/Stages.antt =====
-- The toolchains and the lines that the generated files share (deploypro/domain/dockerfiles.py).
use deploygenus.Build.Plan.{node_image, parts}
use deploygenus.Text.{Text, codes, text_eq, decimal}
use deploygenus.Base.{if◌then◌else◌, ℕ, Option, none, some, List, [], ◌∷◌, ◌++◌, map}

abbrev pub env_secret_id : Text
env_secret_id = codes "env"

abbrev pub env_secret_path : Text
env_secret_path = codes "/run/secrets/env"

unfoldable pub cache_mount : Text → Text → Text
unfolding parts
cache_mount target name = parts (
    codes "--mount=type=cache,id=deploypro-"
    ∷ name
    ∷ codes ",target="
    ∷ target
    ∷ codes ",sharing=locked"
    ∷ [])

pub record NodeToolchain : Type 0 where
  pub name : Text
  pub lockfile : Option Text
  pub install : Text
  pub setup : List Text
  pub cache_dir : Text

-- The default of the field `cache_dir`.
abbrev pub npm_cache : Text
npm_cache = codes "/root/.npm"

unfoldable pub cache : NodeToolchain → Text
unfolding cache_mount
cache tc = cache_mount tc.cache_dir tc.name

unfoldable pub run_prefix : NodeToolchain → Text
run_prefix tc = if text_eq tc.name (codes "npm") then codes "npm run" else tc.name ++ codes " run"

abbrev pub npm : NodeToolchain
npm = record {
  name = codes "npm";
  lockfile = some (codes "package-lock.json");
  install = codes "npm ci --no-audit --no-fund";
  setup = [];
  cache_dir = npm_cache;
}

abbrev pub npm_no_lock : NodeToolchain
npm_no_lock = record {
  name = codes "npm";
  lockfile = none;
  install = codes "npm install --no-audit --no-fund";
  setup = [];
  cache_dir = npm_cache;
}

abbrev pub pnpm : NodeToolchain
pnpm = record {
  name = codes "pnpm";
  lockfile = some (codes "pnpm-lock.yaml");
  install = codes "pnpm install --frozen-lockfile";
  setup = codes "corepack enable pnpm" ∷ [];
  cache_dir = codes "/root/.local/share/pnpm/store";
}

abbrev pub yarn : NodeToolchain
yarn = record {
  name = codes "yarn";
  lockfile = some (codes "yarn.lock");
  install = codes "yarn install --frozen-lockfile";
  setup = codes "corepack enable yarn" ∷ [];
  cache_dir = codes "/usr/local/share/.cache/yarn";
}

abbrev pub bun : NodeToolchain
bun = record {
  name = codes "bun";
  lockfile = some (codes "bun.lockb");
  install = codes "bun install --frozen-lockfile";
  setup = codes "npm install -g bun@1" ∷ [];
  cache_dir = codes "/root/.bun/install/cache";
}

-- `"".join(f"{mount} \\\n    " for mount in mounts)`
unfoldable pub extra_mounts : List Text → Text
extra_mounts [] = []
extra_mounts (m ∷ ms) = m ++ (codes " \\\n    " ++ extra_mounts ms)

unfoldable pub build_env_mount : Text → List Text → Text
unfolding extra_mounts parts
build_env_mount command mounts = parts (
    codes "RUN "
    ∷ extra_mounts mounts
    ∷ codes "--mount=type=secret,id="
    ∷ env_secret_id
    ∷ codes " \\\n    set -a; [ -f "
    ∷ env_secret_path
    ∷ codes " ] && . "
    ∷ env_secret_path
    ∷ codes "; set +a; \\\n    "
    ∷ command
    ∷ [])

unfoldable pub header : Text → List Text
header framework =
    codes "# syntax=docker/dockerfile:1.7"
    ∷ codes "#"
    ∷ (codes "# Generated by DeployPro for a " ++ (framework ++ codes " project."))
    ∷ codes "# Not committed to the repository: it is regenerated on every deploy,"
    ∷ codes "# so a fix to the platform reaches this project without a commit here."
    ∷ []
    ∷ []

-- `f"FROM {image} AS {stage}"`
unfoldable pub from_line : Text → Text → Text
unfolding parts
from_line image stage = parts (codes "FROM " ∷ image ∷ codes " AS " ∷ stage ∷ [])

unfoldable pub manifests : Option Text → Text
manifests none = codes "package.json"
manifests (some lockfile) = codes "package.json " ++ lockfile

-- The stage is `deps` in every call.
unfoldable pub install_stage : NodeToolchain → List Text
unfolding from_line manifests cache parts
install_stage tc =
    from_line node_image (codes "deps")
    ∷ codes "WORKDIR /app"
    ∷ (map (λ cmd. codes "RUN " ++ cmd) tc.setup
        ++ (parts (codes "COPY " ∷ manifests tc.lockfile ∷ codes " ./" ∷ [])
            ∷ parts (codes "RUN " ∷ cache tc ∷ codes " " ∷ tc.install ∷ [])
            ∷ []
            ∷ []))

-- `f"EXPOSE {port}"`
unfoldable pub expose_line : ℕ → Text
expose_line port = codes "EXPOSE " ++ decimal port

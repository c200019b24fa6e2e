-- ===== src/Build/Python.antt =====
-- The rules for a Python project (deploypro/domain/detect.py).
use deploygenus.Build.Plan.{BuildPlan, parts}
use deploygenus.Build.Dockerfiles.Servers.{python_server}
use deploygenus.Build.Readers.Apps.{has_asgi_app, has_wsgi_app}
use deploygenus.Build.Tree.{Tree, is_file, DetectionFailed, no_application, text_or, Overrides}
use deploygenus.Dict.{lookup}
use deploygenus.Retention.{text_le}
use deploygenus.Text.{Text, codes, starts_with, lower, join, decimal}
use deploygenus.Base.{
  ◌==◌, if◌then◌else◌, length, take, sort_by, Result, ok, err, ℕ, ◌-◌, Bool, ◌||◌, Option, none,
  some, List, [], ◌∷◌, ◌++◌, map,
}

-- `needle in s`
unfoldable pub occurs : Text → Text → Bool
unfolding starts_with
occurs needle [] = starts_with [] needle
occurs needle (c ∷ s) = let later = occurs needle s in starts_with (c ∷ s) needle || later

abbrev pub dependency_files : List Text
dependency_files = codes "requirements.txt" ∷ codes "pyproject.toml" ∷ codes "Pipfile" ∷ []

abbrev pub and_text : Option Text → List Text → List Text
and_text none texts = texts
and_text (some text) texts = text ∷ texts

unfoldable pub texts_of : Tree → List Text → List Text
unfolding lookup
texts_of tree [] = []
texts_of tree (name ∷ names) = and_text (lookup name tree.files) (texts_of tree names)

unfoldable pub dependency_blob : Tree → Text
unfolding texts_of join lower
dependency_blob tree = lower (join b'\n' (texts_of tree dependency_files))

abbrev pub py_entry_candidates : List Text
py_entry_candidates =
    codes "main.py"
    ∷ codes "app.py"
    ∷ codes "asgi.py"
    ∷ codes "wsgi.py"
    ∷ codes "src/main.py"
    ∷ codes "app/main.py"
    ∷ codes "api/main.py"
    ∷ codes "src/app.py"
    ∷ codes "application.py"
    ∷ []

-- `relative[: -len(".py")]`
unfoldable pub without_py : Text → Text
without_py path = take (length path - 3) path

-- `.replace("/", ".")`
unfoldable pub dotted : Text → Text
dotted path = map (λ c. if c == b'/' then b'.' else c) path

pub data Kind : Type 0 where
  asgi : Kind
  wsgi : Kind

-- What a file constructs; `none` where it is not there.
unfoldable pub kind_of : Option Text → Option Kind
unfolding has_asgi_app has_wsgi_app
kind_of none = none
kind_of (some source) =
    if has_asgi_app source
    then some Kind.asgi
    else if has_wsgi_app source
    then some Kind.wsgi
    else none

abbrev pub found_app : Text → Option Kind → Option (Text × Kind) → Option (Text × Kind)
found_app path none later = later
found_app path (some kind) later = some (path, kind)

unfoldable pub find_asgi_app : Tree → List Text → Option (Text × Kind)
unfolding kind_of without_py dotted lookup
find_asgi_app tree [] = none
find_asgi_app tree (path ∷ paths) =
    found_app (dotted (without_py path)) (kind_of (lookup path tree.files))
      (find_asgi_app tree paths)

-- The search among the folders in order.
unfoldable pub first_module : Tree → Text → List Text → Option Text
unfolding is_file parts without_py
first_module tree filename [] = none
first_module tree filename (folder ∷ folders) =
    if is_file tree (parts (folder ∷ codes "/" ∷ filename ∷ []))
    then some (parts (folder ∷ codes "." ∷ without_py filename ∷ []))
    else first_module tree filename folders

unfoldable pub find_python_module : Tree → Text → Option Text
unfolding first_module sort_by
find_python_module tree filename = first_module tree filename (sort_by text_le tree.folders)

-- The plan for the application object that was found.
unfoldable pub app_plan : Text → ℕ → Option (Text × Kind) → Result DetectionFailed BuildPlan
unfolding python_server parts
app_plan install port none = err (no_application port)
app_plan install port (some (path, Kind.asgi)) = ok (
    python_server (codes "python-asgi")
      (parts (codes "ASGI app found at " ∷ path ∷ codes ":app — serving it with uvicorn" ∷ []))
      (parts (
        codes "uvicorn "
        ∷ path
        ∷ codes ":app --host 0.0.0.0 --port "
        ∷ decimal port
        ∷ codes " --proxy-headers --forwarded-allow-ips=*"
        ∷ []))
      (install ++ codes " && pip install 'uvicorn[standard]'") port [])
app_plan install port (some (path, Kind.wsgi)) = ok (
    python_server (codes "python-wsgi")
      (parts (codes "WSGI app found at " ∷ path ∷ codes ":app — serving it with gunicorn" ∷ []))
      (parts (
        codes "gunicorn "
        ∷ path
        ∷ codes ":app --bind 0.0.0.0:"
        ∷ decimal port
        ∷ codes " --workers 3 --access-logfile -"
        ∷ []))
      (install ++ codes " && pip install gunicorn") port [])

-- `if module:`, and otherwise the rest
unfoldable pub django_plan :
    Text → ℕ → Option Text → Result DetectionFailed BuildPlan → Result DetectionFailed BuildPlan
unfolding python_server parts
django_plan install port none rest = rest
django_plan install port (some path) rest = ok (
    python_server (codes "django")
      (parts (codes "Django detected — serving " ∷ path ∷ codes ":application with gunicorn" ∷ []))
      (parts (
        codes "gunicorn "
        ∷ path
        ∷ codes ":application --bind 0.0.0.0:"
        ∷ decimal port
        ∷ codes " --workers 3 --access-logfile -"
        ∷ []))
      (install ++ codes " && pip install gunicorn") port
      (codes
          "Static files are served by the app. Run collectstatic in the build, or put WhiteNoise in the middleware stack."
        ∷ []))

-- `if over.start_command:`, and otherwise the rest
unfoldable pub python_start :
    Option Text
    → Option Text
    → Text
    → ℕ
    → Result DetectionFailed BuildPlan
    → Result DetectionFailed BuildPlan
unfolding python_server text_or
python_start none framework install port rest = rest
python_start (some []) framework install port rest = rest
python_start (some (c ∷ s)) framework install port rest = ok (
    python_server (text_or framework (codes "python"))
      (codes "Start command set on the project: " ++ (c ∷ s)) (c ∷ s) install port [])

-- The rules that read the project's files.
unfoldable pub python_rules : Tree → Text → ℕ → Result DetectionFailed BuildPlan
unfolding occurs dependency_blob django_plan find_python_module app_plan find_asgi_app
python_rules tree install port =
    let by_app = app_plan install port (find_asgi_app tree py_entry_candidates) in
    if occurs (codes "django") (dependency_blob tree)
    then django_plan install port (find_python_module tree (codes "wsgi.py")) by_app
    else by_app

unfoldable pub detect_python : Tree → Overrides → ℕ → Result DetectionFailed BuildPlan
unfolding text_or is_file python_start python_rules
detect_python tree over port =
    let install = text_or over.install_command (
      if is_file tree (codes "requirements.txt")
      then codes "pip install -r requirements.txt"
      else codes "pip install .") in
    python_start over.start_command over.framework install port (python_rules tree install port)

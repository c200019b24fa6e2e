-- ===== src/Build/Readers/Apps.antt =====
-- The application object of a Python file (deploypro/domain/detect.py).
use deploygenus.Build.Readers.Comments.{word_at}
use deploygenus.Text.{Text, codes, starts_with, is_space, lstrip_by}
use deploygenus.Base.{
  ◌==◌, if◌then◌else◌, length, drop, is_empty, Bool, true, false, not, ◌&&◌, ◌||◌, List, [], ◌∷◌,
}

unfoldable pub skip_spaces : Text → Text
unfolding is_space lstrip_by
skip_spaces = lstrip_by is_space

-- After a name: `\s*\(`
unfoldable pub is_called : Text → Bool
unfolding skip_spaces starts_with
is_called s = starts_with (skip_spaces s) (codes "(")

-- `(A|B)\s*\(`, where no name is a prefix of another
unfoldable pub calls_one_of : List Text → Text → Bool
unfolding starts_with is_called
calls_one_of [] s = false
calls_one_of (name ∷ names) s =
    starts_with s name && is_called (drop (length name) s) || calls_one_of names s

-- After the word and its annotation: `=\s*(A|B)\s*\(`
unfoldable pub is_assigned : List Text → Text → Bool
unfolding skip_spaces calls_one_of
is_assigned names [] = false
is_assigned names (c ∷ s) = c == b'=' && calls_one_of names (skip_spaces s)

-- After the colon: `\s*\w+\s*=\s*(A|B)\s*\(`
unfoldable pub is_annotated : List Text → Text × Text → Bool
unfolding skip_spaces is_assigned
is_annotated names (word, rest) = not (is_empty word) && is_assigned names (skip_spaces rest)

-- After the word and white space: `(?::\s*\w+\s*)?=\s*(A|B)\s*\(`
unfoldable pub is_set : List Text → Text → Bool
unfolding skip_spaces is_assigned is_annotated word_at
is_set names [] = false
is_set names (c ∷ s) =
    if c == b':' then is_annotated names (word_at (skip_spaces s)) else is_assigned names (c ∷ s)

unfoldable pub app_here : List Text → Text → Bool
unfolding starts_with skip_spaces is_set
app_here names s = starts_with s (codes "app") && is_set names (skip_spaces (drop 3 s))

-- `^\s*app...` on any line, with whether only white space stands before the position on its line
unfoldable pub app_from : List Text → Bool → Text → Bool
unfolding app_here is_space
app_from names fresh [] = false
app_from names fresh (c ∷ s) =
    let later = app_from names (c == 10 || fresh && is_space c) s in
    fresh && app_here names (c ∷ s) || later

unfoldable pub has_asgi_app : Text → Bool
unfolding app_from
has_asgi_app = app_from (codes "FastAPI" ∷ codes "Starlette" ∷ []) true

unfoldable pub has_wsgi_app : Text → Bool
unfolding app_from
has_wsgi_app = app_from (codes "Flask" ∷ []) true

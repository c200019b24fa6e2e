-- ===== src/Build/Readers/Comments.antt =====
-- `output:` in a configuration of Next.js, read without its comments (deploypro/domain/detect.py).
use deploygenus.Text.{Text, codes, starts_with, is_digit, is_lower, is_upper, is_space, lstrip_by}
use deploygenus.Base.{
  ◌==◌, if◌then◌else◌, drop, is_empty, ℕ, Bool, true, false, not, ◌&&◌, ◌||◌, Option, none, some,
  [], ◌∷◌,
}

-- Where the scan for comments stands before a character: in the code, in a comment to the end of the
-- line, on the second character of `/*`, in such a comment, or on the second character of `*/`.
pub data Place : Type 0 where
  code : Place
  line : Place
  opening : Place
  block : Place
  closing : Place

-- Whether `*/` comes.
unfoldable pub closes : Text → Bool
unfolding starts_with
closes [] = false
closes (c ∷ s) = c == b'*' && starts_with s (codes "/") || closes s

-- Whether a character is kept, and where the scan stands after it. The text is what follows.
unfoldable pub step : Place → ℕ → Text → Bool × Place
unfolding starts_with closes
step Place.code c s =
    if c == b'/' && starts_with s (codes "/")
    then (false, Place.line)
    else if c == b'/' && starts_with s (codes "*") && closes (drop 1 s)
    then (false, Place.opening)
    else (true, Place.code)
step Place.line c s = if c == 10 then (true, Place.code) else (false, Place.line)
step Place.opening c s = (false, Place.block)
step Place.block c s =
    if c == b'*' && starts_with s (codes "/") then (false, Place.closing) else (false, Place.block)
step Place.closing c s = (false, Place.code)

abbrev pub keep : Bool → ℕ → Text → Text
keep true c s = c ∷ s
keep false c s = s

-- `re.sub(r"//[^\n]*|/\*.*?\*/", "", config)`, where `.` is any character. An open `/*` stays.
unfoldable pub uncommented : Place → Text → Text
unfolding step
uncommented from [] = []
uncommented from (c ∷ s) = let (kept, to) = step from c s in keep kept c (uncommented to s)

unfoldable pub is_word : ℕ → Bool
unfolding is_lower is_upper is_digit
is_word c = is_lower c || is_upper c || is_digit c || c == b'_'

-- `\w*` and what follows it
unfoldable pub word_at : Text → Text × Text
unfolding is_word
word_at [] = ([], [])
word_at (c ∷ s) =
    let (word, rest) = word_at s in if is_word c then (c ∷ word, rest) else ([], c ∷ s)

unfoldable pub is_quote : ℕ → Bool
is_quote c = c == b'\'' || c == b'"'

-- The word, if there is one and a quotation mark follows.
unfoldable pub quoted : Text × Text → Option Text
unfolding is_quote
quoted (word, []) = none
quoted (word, c ∷ s) = if is_quote c && not (is_empty word) then some word else none

-- After the white space behind the colon: `['"](\w+)['"]`
unfoldable pub value_at : Text → Option Text
unfolding is_quote quoted word_at
value_at [] = none
value_at (c ∷ s) = if is_quote c then quoted (word_at s) else none

-- After the white space behind the word: `:\s*['"](\w+)['"]`
unfoldable pub setting_at : Text → Option Text
unfolding is_space lstrip_by value_at
setting_at [] = none
setting_at (c ∷ s) = if c == b':' then value_at (lstrip_by is_space s) else none

unfoldable pub output_here : Text → Option Text
unfolding starts_with is_space lstrip_by setting_at
output_here s =
    if starts_with s (codes "output") then setting_at (lstrip_by is_space (drop 6 s)) else none

abbrev pub first_of : Option Text → Option Text → Option Text
first_of none later = later
first_of (some found) later = some found

-- `re.search`, with whether the character before is one of a word
unfoldable pub output_from : Bool → Text → Option Text
unfolding output_here is_word
output_from inside [] = none
output_from inside (c ∷ s) =
    let later = output_from (is_word c) s in
    if inside then later else first_of (output_here (c ∷ s)) later

unfoldable pub next_output_mode : Text → Option Text
unfolding uncommented output_from
next_output_mode config = output_from false (uncommented Place.code config)

-- ===== src/Naming.antt =====
-- Names that end up in DNS and in Docker (deploypro/domain/naming.py). `fold` is
-- `unicodedata.normalize("NFKD", ...)` with everything outside ASCII dropped, and a text that
-- `secrets.token_hex` draws is an argument.
pub mod Labels
pub mod Workers
mod Tests
use deploygenus.Text.{Text, codes, is_digit, is_lower, lower, strip_by, decimal}
use deploygenus.Base.{
  ◌==◌, if◌then◌else◌, take, is_empty, ℕ, ◌-◌, Bool, true, false, ◌||◌, [], ◌∷◌, ◌++◌,
}

abbrev pub max_label : ℕ
max_label = 63

abbrev pub suffix_length : ℕ
suffix_length = 8

abbrev pub max_slug : ℕ
max_slug = 39

-- A character of `[a-z0-9]`.
unfoldable pub is_plain : ℕ → Bool
unfolding is_lower is_digit
is_plain c = is_lower c || is_digit c

abbrev pub is_hyphen : ℕ → Bool
is_hyphen c = c == b'-'

-- `_NOT_LABEL.sub("-", s)`: every run of other characters becomes one hyphen. The flag says that
-- the run's hyphen is already there.
hyphenate : Bool → Text → Text
hyphenate in_run [] = []
hyphenate in_run (c ∷ s) =
    let after_plain = hyphenate false s in
    let after_other = hyphenate true s in
    if is_plain c then c ∷ after_plain else if in_run then after_other else b'-' ∷ after_other

module _ (fold : Text → Text) where
  unfoldable pub slugify : Text → ℕ → Text → Text
  unfolding hyphenate is_plain lower strip_by
  slugify value limit token =
      let slug = strip_by is_hyphen (hyphenate false (lower (fold value))) in
      let short = strip_by is_hyphen (take limit slug) in
      if is_empty short then codes "app-" ++ token else short

-- `suffix` is `secrets.token_hex(SUFFIX_LENGTH // 2)`.
unfoldable pub deployment_short_id : Text → Text → Text
unfolding strip_by
deployment_short_id project_slug suffix =
    strip_by is_hyphen (take (max_label - suffix_length - 1) project_slug) ++ (b'-' ∷ suffix)

unfoldable pub container_name : Text → Text
container_name short_id = codes "deploypro-" ++ short_id

unfoldable pub image_tag : Text → Text → Text
image_tag project_slug git_sha = codes "deploypro/" ++ (project_slug ++ (b':' ∷ take 12 git_sha))

unfoldable pub router_id : Text → Bool → Text
router_id short_id production = if production then short_id ++ codes "-prod" else short_id

unfoldable pub worker_container_name : Text → Text → ℕ → Text
worker_container_name project_slug process replica =
    codes "deploypro-" ++ (project_slug ++ (b'-' ∷ (process ++ (b'-' ∷ decimal replica))))

unfoldable pub job_container_name : Text → Text → Text → Text
job_container_name project_slug process slot =
    codes "deploypro-job-" ++ (project_slug ++ (b'-' ∷ (process ++ (b'-' ∷ slot))))

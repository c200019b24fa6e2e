-- ===== src/Environment/Tests.antt =====
-- The theorems on variables at concrete values.
use deploygenus.Models.{production, preview, all_targets}
use deploygenus.Dict.{lookup, put}
use deploygenus.Text.{Text, codes, text_eq}
use deploygenus.Environment.{
  EnvVar, general_first, assign_secret, after_assign, assign_all, resolve, shell_quote,
}
use deploygenus.Environment.Delivery.{
  bare, unquote, unquote-shell_quote, is_own, is_for_all, latest, resolve-latest,
}
use deploygenus.Base.{filter, ◌≡◌, refl, some, List, [], ◌∷◌}

unquote-shell_quote_example :
    unquote bare (shell_quote (codes "it's; rm -rf /")) ≡ some (codes "it's; rm -rf /")
unquote-shell_quote_example = unquote-shell_quote (codes "it's; rm -rf /")

abbrev key_line : Text × Text
key_line = (codes "KEY", 65 ∷ 10 ∷ 66 ∷ [])

abbrev stored : List EnvVar
stored =
    record { key = codes "URL"; target = production; value_encrypted = codes "live" }
    ∷ record { key = codes "URL"; target = preview; value_encrypted = codes "test" }
    ∷ record { key = codes "URL"; target = all_targets; value_encrypted = codes "any" }
    ∷ []

-- The production value wins over the general one, though its row comes first.
production_wins : resolve some stored production [] ≡ some ((codes "URL", codes "live") ∷ [])
unfolding resolve general_first assign_all after_assign assign_secret put filter text_eq
production_wins = refl

resolve-latest_example :
    lookup (codes "URL") ((codes "URL", codes "live") ∷ [])
    ≡ latest some (codes "URL") (filter (λ v. is_own production v.target) stored) (
        latest some
          (codes "URL")
          (filter (λ v. is_for_all v.target) stored)
          (lookup (codes "URL") []))
resolve-latest_example =
    resolve-latest some (codes "URL") stored production [] ((codes "URL", codes "live") ∷ [])
      production_wins

-- ===== src/Environment.antt =====
-- A deployment's variables (deploypro/engine/environment.py). A dictionary is an association list;
-- decryption is an argument that gives nothing where the source raises.
pub mod Delivery
mod Tests
use deploygenus.Models.{EnvTarget, all_targets, covers}
use deploygenus.Dict.{put}
use deploygenus.Text.{Text, codes}
use deploygenus.Base.{
  ◌==◌, if◌then◌else◌, filter, any, Bool, true, false, not, ◌||◌, Option, none, some, List, [], ◌∷◌,
  ◌++◌,
}

pub record EnvVar : Type 0 where
  pub key : Text
  pub target : EnvTarget
  pub value_encrypted : Text

abbrev pub Variables : Type 0
Variables = List (Text × Text)

abbrev pub is_general : EnvVar → Bool
is_general v = elim v.target [ all_targets ↦ true | _ ↦ false ]

-- The stable sort of `collect`, whose key is false for the general variables.
general_first : List EnvVar → List EnvVar
general_first vars = filter is_general vars ++ filter (λ v. not (is_general v)) vars

-- An assignment whose value is decrypted.
assign_secret : Text → Option Text → Variables → Option Variables
assign_secret key none d = none
assign_secret key (some value) d = some (put key value d)

module _ (decrypt : Text → Option Text) where
  after_assign : Option Variables → (Variables → Option Variables) → Option Variables
  after_assign none rest = none
  after_assign (some d) rest = rest d

  assign_all : List EnvVar → Variables → Option Variables
  unfolding after_assign assign_secret
  assign_all [] d = some d
  assign_all (v ∷ vs) d =
      after_assign (assign_secret v.key (decrypt v.value_encrypted) d) (λ e. assign_all vs e)

  -- `collect` up to `_split`.
  pub resolve : List EnvVar → EnvTarget → Variables → Option Variables
  unfolding assign_all general_first
  resolve stored target injected =
      assign_all (general_first (filter (λ v. covers v.target target) stored)) injected

pub record Delivered : Type 0 where
  pub file_safe : Variables
  pub inline : Variables

-- `"\n" in value or "\r" in value`
abbrev pub breaks_line : Text → Bool
breaks_line value = any (λ c. c == 10 || c == 13) value

-- `_split`
pub split : Variables → Delivered
split resolved = record {
  file_safe = filter (λ (x : Text × Text). not (breaks_line x.1)) resolved;
  inline = filter (λ (x : Text × Text). breaks_line x.1) resolved;
}

-- `value.replace("'", "'\\''")`
escape_quotes : Text → Text
escape_quotes [] = []
escape_quotes (c ∷ s) =
    let rest = escape_quotes s in if c == b'\'' then codes "'\\''" ++ rest else c ∷ rest

pub shell_quote : Text → Text
unfolding escape_quotes
shell_quote value = b'\'' ∷ (escape_quotes value ++ (b'\'' ∷ []))

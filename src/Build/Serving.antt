-- ===== src/Build/Serving.antt =====
-- What the images of generated Dockerfiles serve, by the lines that those end in.
use deploygenus.Build.Plan.{file_of}
use deploygenus.Build.Readers.Ports.{is_port, exposed_from, exposed_port}
use deploygenus.Build.Dockerfiles.Stages.{expose_line}
use deploygenus.Build.Stage.{Stage, read_line, read_lines, last_stage, is_unprivileged}
use deploygenus.Build.Tree.{is_there}
use deploygenus.Build.Lines.{is_newline, last_stage-file_of, exposed_port-file_of, file_of_three}
use deploygenus.Build.Tails.{
  expose_line-Free, exposed_from-expose_line, exposed_from-user, exposed_from-command,
}
use deploygenus.Text.{Text, codes, starts_with, Free}
use deploygenus.Base.{
  All-append, is_empty, ℕ, ◌≡◌, ap, ◌∙◌, true, false, Option, some, List, [], ◌∷◌, ◌++◌, arith,
}

-- The image of this file states the port, and starts a command as a user without privileges.
abbrev pub ServesOn : ℕ → Text → Type 0
ServesOn port dockerfile =
    (exposed_port dockerfile ≡ some port)
    × (is_unprivileged (last_stage dockerfile).user ≡ true)
    × (is_there (last_stage dockerfile).command ≡ true)

abbrev pub user_line : Text → Text
user_line user = codes "USER " ++ user

abbrev pub command_line : Text → Text
command_line command = codes "CMD " ++ command

module _ (port : ℕ) (user command : Text) (valid : is_port port ≡ true)
    (named : Free is_newline user) (unprivileged : is_unprivileged (some user) ≡ true)
    (written : Free is_newline command) where
  user_line-Free : Free is_newline (user_line user)
  user_line-Free = All-append (λ d. is_newline d ≡ false) (codes "USER ") user (ground arith) named

  command_line-Free : Free is_newline (command_line command)
  command_line-Free =
      All-append (λ d. is_newline d ≡ false) (codes "CMD ") command (ground arith) written

  port_first-exposed :
      (found : Option ℕ)
      → exposed_from true
          (file_of (expose_line port ∷ user_line user ∷ command_line command ∷ []))
          found
        ≡ some port
  port_first-exposed found =
      ap (λ s. exposed_from true s found)
        (file_of_three (expose_line port) (user_line user) (command_line command))
      ∙ exposed_from-expose_line port (user_line user ++ 10 ∷ (command_line command ++ 10 ∷ []))
          found valid
      ∙ exposed_from-user user (command_line command ++ 10 ∷ []) (some port) named
      ∙ exposed_from-command command (some port) written

  user_first-exposed :
      (found : Option ℕ)
      → exposed_from true
          (file_of (user_line user ∷ expose_line port ∷ command_line command ∷ []))
          found
        ≡ some port
  user_first-exposed found =
      ap (λ s. exposed_from true s found)
        (file_of_three (user_line user) (expose_line port) (command_line command))
      ∙ exposed_from-user user (expose_line port ++ 10 ∷ (command_line command ++ 10 ∷ [])) found
          named
      ∙ exposed_from-expose_line port (command_line command ++ 10 ∷ []) found valid
      ∙ exposed_from-command command (some port) written

  -- EXPOSE, USER and CMD, whatever stands above them.
  pub port_first-ServesOn :
      (before : List Text)
      → is_empty before ≡ false
      → ServesOn port
          (file_of (before ++ (expose_line port ∷ user_line user ∷ command_line command ∷ [])))
  unfolding read_lines read_line starts_with expose_line
  port_first-ServesOn [] h = cc
  port_first-ServesOn (l ∷ ls) h =
      let (found, e) =
        exposed_port-file_of l ls (expose_line port) (user_line user ∷ command_line command ∷ []) in
      let (stage, d) =
        last_stage-file_of l ls (expose_line port) (user_line user ∷ command_line command ∷ [])
          (expose_line-Free port, (user_line-Free, (command_line-Free, tt))) in
      (
        e ∙ port_first-exposed found,
        ap (λ (s : Stage). is_unprivileged s.user) d ∙ unprivileged,
        ap (λ (s : Stage). is_there s.command) d,
      )

  -- USER, EXPOSE and CMD
  pub user_first-ServesOn :
      (before : List Text)
      → is_empty before ≡ false
      → ServesOn port
          (file_of (before ++ (user_line user ∷ expose_line port ∷ command_line command ∷ [])))
  unfolding read_lines read_line starts_with expose_line
  user_first-ServesOn [] h = cc
  user_first-ServesOn (l ∷ ls) h =
      let (found, e) =
        exposed_port-file_of l ls (user_line user) (expose_line port ∷ command_line command ∷ []) in
      let (stage, d) =
        last_stage-file_of l ls (user_line user) (expose_line port ∷ command_line command ∷ [])
          (user_line-Free, (expose_line-Free port, (command_line-Free, tt))) in
      (
        e ∙ user_first-exposed found,
        ap (λ (s : Stage). is_unprivileged s.user) d ∙ unprivileged,
        ap (λ (s : Stage). is_there s.command) d,
      )

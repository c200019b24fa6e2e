-- ===== src/Build/Decided.antt =====
-- What detection decides, from its settings to the plan.
use deploygenus.Build.Plan.{default_port, BuildPlan}
use deploygenus.Build.Readers.Ports.{
  leading_digits, is_port, port_of_digits, exposed_value, exposed_here, update, still_fresh,
  exposed_from, exposed_port,
}
use deploygenus.Build.Tree.{
  Tree, DetectionFailed, string, integer, unread, blank, Field, leaf, object, Document, Fields,
  read_json, or_port, port_or, port_of, Overrides, merge_manifest,
}
use deploygenus.Build.Detected.{by_files-Serves}
use deploygenus.Build.Detect.{
  from_repo_dockerfile, described, by_files, detect_described, by_dockerfile, detect,
}
use deploygenus.Build.Plans.{Serves, Gives}
use deploygenus.Dict.{lookup}
use deploygenus.Text.{Text, codes, starts_with, is_space, lstrip_by, int_of}
use deploygenus.Base.{
  Bool-cases, Option-cases, drop, is_empty, ok-injective, >>=-eq-ok, Result, ok, ℕ, zero, suc, ◌≡◌,
  refl, sym, ap, ◌∙◌, subst, ◌⊎◌, inl, inr, Bool, true, false, Option, none, some, [], ◌∷◌,
}

-- A port, if there is one, is a port of TCP.
abbrev IsValid : Option ℕ → Type 0
IsValid none = Unit
IsValid (some port) = is_port port ≡ true

port_of_digits-IsValid : (digits : Text) → IsValid (port_of_digits digits)
unfolding port_of_digits
port_of_digits-IsValid digits = elim (Bool-cases (is_empty digits)) [
  | inl e ↦ rw e tt
  | inr e ↦ elim (Bool-cases (is_port (int_of digits))) [
    | inl v ↦ rw (e, v) v
    | inr v ↦ rw (e, v) tt
  ]
]

exposed_value-IsValid : (s : Text) → IsValid (exposed_value s)
unfolding exposed_value
exposed_value-IsValid [] = tt
exposed_value-IsValid (c ∷ s) = elim (Bool-cases (is_space c)) [
  | inl e ↦ rw e (port_of_digits-IsValid (leading_digits 5 (lstrip_by is_space s)))
  | inr e ↦ rw e tt
]

exposed_here-IsValid : (s : Text) → IsValid (exposed_here s)
unfolding exposed_here
exposed_here-IsValid s = elim (Bool-cases (starts_with s (codes "EXPOSE"))) [
  | inl e ↦ rw e (exposed_value-IsValid (drop 6 s))
  | inr e ↦ rw e tt
]

update-IsValid :
    (found later : Option ℕ) → IsValid found → IsValid later → IsValid (update found later)
update-IsValid found none h k = h
update-IsValid found (some port) h k = k

exposed_from-IsValid :
    (fresh : Bool) (s : Text) (found : Option ℕ)
    → IsValid found
    → IsValid (exposed_from fresh s found)
unfolding exposed_from
exposed_from-IsValid fresh [] found h = h
exposed_from-IsValid true (c ∷ s) found h =
    exposed_from-IsValid (still_fresh true c) s (update found (exposed_here (c ∷ s)))
      (update-IsValid found (exposed_here (c ∷ s)) h (exposed_here-IsValid (c ∷ s)))
exposed_from-IsValid false (c ∷ s) found h = exposed_from-IsValid (still_fresh false c) s found h

port_or-valid : (o : Option ℕ) → IsValid o → is_port (port_or o default_port) ≡ true
unfolding port_or is_port
port_or-valid none h = refl
port_or-valid (some zero) h = refl
port_or-valid (some (suc n)) h = h

or_port-valid :
    (o later : Option ℕ)
    → is_port (port_or o default_port) ≡ true
    → IsValid later
    → is_port (port_or (or_port o later) default_port) ≡ true
unfolding or_port
or_port-valid none later h k = port_or-valid later k
or_port-valid (some zero) later h k = port_or-valid later k
or_port-valid (some (suc n)) later h k = h

port_of-IsValid : (value : Option Field) → IsValid (port_of value)
unfolding port_of
port_of-IsValid none = tt
port_of-IsValid (some (object d)) = tt
port_of-IsValid (some (leaf (string s))) = tt
port_of-IsValid (some (leaf unread)) = tt
port_of-IsValid (some (leaf blank)) = tt
port_of-IsValid (some (leaf (integer n))) = elim (Bool-cases (is_port n)) [
  | inl e ↦ rw e e
  | inr e ↦ rw e tt
]

described-valid :
    (over : Overrides) (manifest : Option Fields)
    → is_port (port_or over.port default_port) ≡ true
    → is_port (port_or (described over manifest).port default_port) ≡ true
unfolding described merge_manifest
described-valid over none h = h
described-valid over (some []) h = h
described-valid over (some (field ∷ fields)) h =
    or_port-valid over.port (port_of (lookup (codes "port") (field ∷ fields))) h
      (port_of-IsValid (lookup (codes "port") (field ∷ fields)))

Gives-ok :
    (P : BuildPlan → Type 0) (r : Result DetectionFailed BuildPlan) {plan : BuildPlan}
    → Gives P r
    → r ≡ ok plan
    → P plan
Gives-ok P r h e = subst (Gives P) e h

-- The repository's own Dockerfile, unchanged, with a port of TCP.
abbrev pub IsRepository : Tree → BuildPlan → Type 0
IsRepository tree plan =
    (plan.from_repo ≡ true)
    × (lookup (codes "Dockerfile") tree.files ≡ some plan.dockerfile)
    × (is_port plan.port ≡ true)

module _ (loads : Text → Option Document) (tree : Tree) (over : Overrides) (plan : BuildPlan)
    (valid : is_port (port_or over.port default_port) ≡ true) where
  detect_described-Serves : detect_described loads tree over ≡ ok plan → Serves plan
  unfolding detect_described
  detect_described-Serves e =
      let (manifest, read, rest) = >>=-eq-ok (read_json loads tree (codes "deploypro.json")) _ e in
      let (pkg, found, made) = >>=-eq-ok (read_json loads tree (codes "package.json")) _ rest in
      Gives-ok Serves
        (by_files tree (described over manifest)
          (port_or (described over manifest).port default_port) pkg)
        (by_files-Serves (port_or (described over manifest).port default_port)
          (described-valid over manifest valid) tree (described over manifest) pkg)
        made

  repo_dockerfile-IsRepository :
      (text : Text)
      → lookup (codes "Dockerfile") tree.files ≡ some text
      → from_repo_dockerfile text over.port ≡ plan
      → IsRepository tree plan
  unfolding from_repo_dockerfile exposed_port
  repo_dockerfile-IsRepository text there made = subst (IsRepository tree) made (
    refl,
    there,
    or_port-valid over.port (exposed_port text) valid (exposed_from-IsValid true text none tt),
  )

  -- Every plan that detection makes, where the port that the settings give, if any, is one of TCP: the
  -- directory has a Dockerfile, and the plan is that file unchanged, with a port of TCP; or it has none,
  -- and the plan is a generated file, whose EXPOSE lines read as the plan's port, which is one of TCP,
  -- and whose last stage sets a command and a user that is not root.
  pub detect-Serves :
      detect loads tree over ≡ ok plan
      → IsRepository tree plan ⊎ ((lookup (codes "Dockerfile") tree.files ≡ none) × Serves plan)
  unfolding detect by_dockerfile
  detect-Serves e = elim (Option-cases (lookup (codes "Dockerfile") tree.files)) [
    | inl absent ↦
        inr (absent, detect_described-Serves (sym (ap (by_dockerfile loads tree over) absent) ∙ e))
    | inr (text, there) ↦ inl (
        repo_dockerfile-IsRepository text there
          (ok-injective (sym (ap (by_dockerfile loads tree over) there) ∙ e)))
  ]

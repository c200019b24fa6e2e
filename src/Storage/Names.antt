-- ===== src/Storage/Names.antt =====
-- Names of volumes and of draining containers.
use deploygenus.Storage.{
  is_slash, docker_volume_name, draining_infix, draining_name, without_newline, deadline_at,
  deadline_after, draining_deadline,
}
use deploygenus.Text.{
  Text, codes, starts_with, is_digit, lstrip_by, lstrip_by-head, lstrip_by-All, Free, partition,
  partition_at, isdigit, decimal, int_of-decimal, decimal-All, decimal-nonempty,
}
use deploygenus.Base.{
  ◌==◌, Bool-cases, drop, All, All→all, ℕ, ◌≡◌, refl, sym, ap, ◌∙◌, inl, inr, Bool, true, false,
  none, some, [], ◌∷◌, ◌++◌, arith,
}

abbrev AllDigits : Text → Type 0
AllDigits s = All (λ c. is_digit c ≡ true) s

abbrev is_underscore : ℕ → Bool
is_underscore c = c == b'_'

abbrev is_newline : ℕ → Bool
is_newline c = c == 10

-- Two projects never share a Docker volume: a volume's name determines both the slug and the
-- volume, for slugs without an underscore.
pub docker_volume_name-injective :
    (slug slug' volume volume' : Text)
    → Free is_underscore slug
    → Free is_underscore slug'
    → docker_volume_name slug volume ≡ docker_volume_name slug' volume'
    → (slug ≡ slug') × (volume ≡ volume')
unfolding docker_volume_name
docker_volume_name-injective slug slug' volume volume' f f' h =
    let e : slug ++ (b'_' ∷ volume) ≡ slug' ++ (b'_' ∷ volume') = ap (drop 10) h in
    let parts =
      sym (partition_at b'_' slug volume f)
      ∙ ap (partition b'_') e
      ∙ partition_at b'_' slug' volume' f' in
    (ap (λ (t : Text × Bool × Text). t.0) parts, ap (λ (t : Text × Bool × Text). t.2) parts)

-- One more character before a text that shows no deadline.
deadline_after_step :
    (c : ℕ) (s : Text)
    → is_newline c ≡ false
    → starts_with s draining_infix ≡ false
    → deadline_after s ≡ none
    → deadline_after (c ∷ s) ≡ none
unfolding deadline_after
deadline_after_step c s line start rest = rw (line, rest) (no_deadline start)
  where
    no_deadline : starts_with s draining_infix ≡ false → deadline_at s ≡ none
    no_deadline e = unfold deadline_at in rw e

digits-starts_with : (s : Text) → AllDigits s → starts_with s draining_infix ≡ false
unfolding starts_with is_digit
digits-starts_with [] h = refl
digits-starts_with (c ∷ s) h = ground arith

dot_digits-starts_with : (s : Text) → AllDigits s → starts_with (b'.' ∷ s) draining_infix ≡ false
unfolding starts_with is_digit
dot_digits-starts_with [] h = refl
dot_digits-starts_with (c ∷ s) h = ground arith

digits-deadline_after : (s : Text) → AllDigits s → deadline_after s ≡ none
unfolding is_digit
digits-deadline_after [] h = unfold deadline_after in refl
digits-deadline_after (c ∷ s) h =
    deadline_after_step c s (ground arith) (digits-starts_with s h.1) (digits-deadline_after s h.1)

-- The suffix of a draining name holds no later deadline.
suffix-deadline_after : (s : Text) → AllDigits s → deadline_after (draining_infix ++ s) ≡ none
unfolding starts_with
suffix-deadline_after s h = deadline_after_step b'.' (codes "draining." ++ s) refl refl (
    deadline_after_step b'd' (codes "raining." ++ s) refl refl (
      deadline_after_step b'r' (codes "aining." ++ s) refl refl (
        deadline_after_step b'a' (codes "ining." ++ s) refl refl (
          deadline_after_step b'i' (codes "ning." ++ s) refl refl (
            deadline_after_step b'n' (codes "ing." ++ s) refl refl (
              deadline_after_step b'i' (codes "ng." ++ s) refl refl (
                deadline_after_step b'n' (codes "g." ++ s) refl refl (
                  deadline_after_step b'g' (codes "." ++ s) refl (dot_digits-starts_with s h) (
                    deadline_after_step b'.' s refl (digits-starts_with s h)
                      (digits-deadline_after s h))))))))))

without_newline_digits : (s : Text) → AllDigits s → without_newline s ≡ s
unfolding without_newline is_digit
without_newline_digits [] h = refl
without_newline_digits (c ∷ []) h = ground arith
without_newline_digits (c ∷ d ∷ s) h = ap (λ (t : Text). c ∷ t) (without_newline_digits (d ∷ s) h.1)

decimal-isdigit : (n : ℕ) → isdigit (decimal n) ≡ true
unfolding isdigit is_digit
decimal-isdigit n = rw (decimal-nonempty n) (All→all is_digit (decimal n) (decimal-All n))

suffix-deadline_at : (n : ℕ) → deadline_at (draining_infix ++ decimal n) ≡ some n
unfolding deadline_at starts_with
suffix-deadline_at n =
    rw (without_newline_digits (decimal n) (decimal-All n), decimal-isdigit n, int_of-decimal n)

-- Any characters but newlines before a place where the deadline can be read, and only there.
deadline_after-append :
    (c : ℕ) (s t : Text) (d : ℕ)
    → Free is_newline (c ∷ s)
    → deadline_after t ≡ none
    → deadline_at t ≡ some d
    → deadline_after (c ∷ s ++ t) ≡ some d
unfolding deadline_after
deadline_after-append c [] t d f later here = rw (f.0, later, here)
deadline_after-append c (e ∷ s) t d f later here =
    rw (f.0) (unfold deadline_after in rw (deadline_after-append e s t d f.1 later here))

-- The deadline in a draining container's name is read back, whatever stands before it: the name may
-- itself hold dots, digits or an earlier `.draining.` suffix, but no newline and no leading slash,
-- and it is not empty.
pub draining_deadline-draining_name :
    (c : ℕ) (name : Text) (deadline : ℕ)
    → is_slash c ≡ false
    → Free is_newline (c ∷ name)
    → draining_deadline (draining_name (c ∷ name) deadline) ≡ some deadline
unfolding draining_deadline draining_name
draining_deadline-draining_name c name deadline slash f =
    rw (lstrip_by-head is_slash c (name ++ (draining_infix ++ decimal deadline)) slash) (
      deadline_after-append c name (draining_infix ++ decimal deadline) deadline f
        (suffix-deadline_after (decimal deadline) (decimal-All deadline))
        (suffix-deadline_at deadline))

abbrev is_dot : ℕ → Bool
is_dot c = c == b'.'

dotless-starts_with : (s : Text) → Free is_dot s → starts_with s draining_infix ≡ false
unfolding starts_with
dotless-starts_with [] h = refl
dotless-starts_with (c ∷ s) h = ground arith

dotless-deadline_after : (s : Text) → Free is_dot s → deadline_after s ≡ none
dotless-deadline_after [] h = unfold deadline_after in refl
dotless-deadline_after (c ∷ s) h = elim (Bool-cases (is_newline c)) [
  | inl e ↦ unfold deadline_after in rw e
  | inr e ↦ deadline_after_step c s e (dotless-starts_with s h.1) (dotless-deadline_after s h.1)
]

-- A container whose name holds no dot, as those of deployments, workers and jobs, is never taken for
-- a draining one.
pub draining_deadline-none : (name : Text) → Free is_dot name → draining_deadline name ≡ none
unfolding draining_deadline
draining_deadline-none name h =
    dotless-deadline_after (lstrip_by is_slash name)
      (lstrip_by-All is_slash (λ c. is_dot c ≡ false) name h)

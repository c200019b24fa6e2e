-- ===== src/Build/Tails.antt =====
-- The lines that the generated files end in, as the readers take them.
use deploygenus.Build.Readers.Ports.{
  leading_digits, is_port, port_of_digits, exposed_value, exposed_here, update, still_fresh,
  exposed_from,
}
use deploygenus.Build.Dockerfiles.Stages.{expose_line}
use deploygenus.Build.Lines.{is_newline}
use deploygenus.Text.{
  Text, codes, starts_with, is_digit, is_space, lstrip_by, Free, decimal, int_of-decimal,
  decimal-All, decimal-nonempty, length-decimal,
}
use deploygenus.Base.{
  ltb, ltb→lt, &&-parts, length, All, All-append, All-map_of, is_empty, ℕ, zero, suc, ◌≤◌, ◌<◌, ◌≡◌,
  refl, ap, ◌∙◌, ◌⊎◌, inl, inr, Bool, true, false, Option, some, [], ◌∷◌, ◌++◌, arith,
}

leading_digits_all :
    (n : ℕ) (w : Text) (c : ℕ) (t : Text)
    → length w ≤ n
    → All (λ d. is_digit d ≡ true) w
    → is_digit c ≡ false
    → leading_digits n (w ++ c ∷ t) ≡ w
unfolding leading_digits
leading_digits_all zero [] c t le h e = refl
leading_digits_all zero (d ∷ w) c t le h e = elim le [ ]
leading_digits_all (suc n) [] c t le h e = rw e
leading_digits_all (suc n) (d ∷ w) c t le h e =
    rw (h.0, leading_digits_all n w c t (omega arith) h.1 e)

digit-not-space : (c : ℕ) → is_digit c ≡ true → is_space c ≡ false
unfolding is_digit is_space
digit-not-space c h = ground arith

lstrip_by-digits :
    (w t : Text)
    → is_empty w ≡ false
    → All (λ d. is_digit d ≡ true) w
    → lstrip_by is_space (w ++ t) ≡ w ++ t
unfolding lstrip_by
lstrip_by-digits [] t e h = cc
lstrip_by-digits (c ∷ w) t e h = rw (digit-not-space c h.0)

port_of_digits-decimal :
    (port : ℕ) → is_port port ≡ true → port_of_digits (decimal port) ≡ some port
unfolding port_of_digits
port_of_digits-decimal port h = rw (decimal-nonempty port, int_of-decimal port, h)

is_port-short : (n : ℕ) → is_port n ≡ true → n < 100000
unfolding is_port
is_port-short n e = below (ltb→lt n 65536 (&&-parts (ltb 0 n) (ltb n 65536) e).1)
  where
    below : n < 65536 → n < 100000
    below h = omega arith

exposed_here-expose_line :
    (port : ℕ) (t : Text)
    → is_port port ≡ true
    → exposed_here (expose_line port ++ 10 ∷ t) ≡ some port
unfolding exposed_here exposed_value expose_line
exposed_here-expose_line port t h =
    ap (λ s. port_of_digits (leading_digits 5 s))
      (lstrip_by-digits (decimal port) (10 ∷ t) (decimal-nonempty port) (decimal-All port))
    ∙ ap port_of_digits (
        leading_digits_all 5 (decimal port) 10 t (length-decimal 4 port (is_port-short port h))
          (decimal-All port) refl)
    ∙ port_of_digits-decimal port h

still_fresh-printed :
    (fresh : Bool) (c : ℕ)
    → is_newline c ≡ false
    → (fresh ≡ false) ⊎ (is_space c ≡ false)
    → still_fresh fresh c ≡ false
still_fresh-printed fresh c h other = ground arith

-- The rest of a line where no match can begin.
exposed_from_rest :
    (w t : Text) (found : Option ℕ)
    → Free is_newline w
    → exposed_from false (w ++ 10 ∷ t) found ≡ exposed_from true t found
unfolding exposed_from
exposed_from_rest [] t found h = refl
exposed_from_rest (c ∷ w) t found h =
    ap (λ fresh. exposed_from fresh (w ++ 10 ∷ t) found)
      (still_fresh-printed false c h.0 (inl refl))
    ∙ exposed_from_rest w t found h.1

-- A line that opens with something else than white space.
exposed_from_line :
    (c : ℕ) (w t : Text) (found : Option ℕ)
    → is_space c ≡ false
    → Free is_newline (c ∷ w)
    → exposed_from true ((c ∷ w) ++ 10 ∷ t) found
      ≡ exposed_from true t (update found (exposed_here ((c ∷ w) ++ 10 ∷ t)))
unfolding exposed_from
exposed_from_line c w t found e h =
    ap (λ fresh. exposed_from fresh (w ++ 10 ∷ t) (update found (exposed_here ((c ∷ w) ++ 10 ∷ t))))
      (still_fresh-printed true c h.0 (inr e))
    ∙ exposed_from_rest w t _ h.1

digit-not-newline : (c : ℕ) → is_digit c ≡ true → is_newline c ≡ false
unfolding is_digit
digit-not-newline c h = ground arith

pub expose_line-Free : (port : ℕ) → Free is_newline (expose_line port)
unfolding expose_line
expose_line-Free port =
    All-append (λ d. is_newline d ≡ false) (codes "EXPOSE ") (decimal port) (ground arith)
      (All-map_of (λ d. is_digit d ≡ true) (λ d. is_newline d ≡ false) (decimal port)
        digit-not-newline (decimal-All port))

-- The port that an EXPOSE line gives is found whatever was found before.
pub exposed_from-expose_line :
    (port : ℕ) (t : Text) (found : Option ℕ)
    → is_port port ≡ true
    → exposed_from true (expose_line port ++ 10 ∷ t) found ≡ exposed_from true t (some port)
unfolding expose_line is_space
exposed_from-expose_line port t found h =
    exposed_from_line b'E' (codes "XPOSE " ++ decimal port) t found refl (expose_line-Free port)
    ∙ ap (λ e. exposed_from true t (update found e)) (exposed_here-expose_line port t h)

-- A `USER` line.
pub exposed_from-user :
    (u t : Text) (found : Option ℕ)
    → Free is_newline u
    → exposed_from true ((codes "USER " ++ u) ++ 10 ∷ t) found ≡ exposed_from true t found
unfolding is_space exposed_here starts_with
exposed_from-user u t found h =
    exposed_from_line b'U' (codes "SER " ++ u) t found refl
      (All-append (λ d. is_newline d ≡ false) (codes "USER ") u (ground arith) h)

-- A `CMD` line, whose text has no line break.
pub exposed_from-command :
    (w : Text) (found : Option ℕ)
    → Free is_newline w
    → exposed_from true ((codes "CMD " ++ w) ++ 10 ∷ []) found ≡ found
unfolding is_space exposed_from exposed_here starts_with
exposed_from-command w found h =
    exposed_from_line b'C' (codes "MD " ++ w) [] found refl
      (All-append (λ d. is_newline d ≡ false) (codes "CMD ") w (ground arith) h)

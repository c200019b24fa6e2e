-- ===== src/Build/Readers/Uncommented.antt =====
-- What a comment in a configuration hides.
use deploygenus.Build.Readers.Comments.{
  code, line, block, closes, step, uncommented, output_from, next_output_mode,
}
use deploygenus.Text.{Text, codes, starts_with, Free}
use deploygenus.Base.{
  ◌==◌, ℕ, ◌≡◌, refl, sym, ap, ◌∙◌, Bool, true, false, [], ◌∷◌, ◌++◌, append_assoc, arith,
}

abbrev pub is_slash : ℕ → Bool
is_slash c = c == b'/'

abbrev pub is_star : ℕ → Bool
is_star c = c == b'*'

uncommented-code :
    (a s : Text) → Free is_slash a → uncommented code (a ++ s) ≡ a ++ uncommented code s
unfolding uncommented step
uncommented-code [] s h = refl
uncommented-code (c ∷ a) s h = rw h.0 (ap (λ (t : Text). c ∷ t) (uncommented-code a s h.1))

uncommented-line :
    (w s : Text)
    → Free (λ c. c == 10) w
    → uncommented line (w ++ 10 ∷ s) ≡ uncommented code (10 ∷ s)
unfolding uncommented step
uncommented-line [] s h = refl
uncommented-line (c ∷ w) s h = rw h.0 (uncommented-line w s h.1)

uncommented-block :
    (w s : Text) → Free is_star w → uncommented block (w ++ codes "*/" ++ s) ≡ uncommented code s
unfolding uncommented step starts_with
uncommented-block [] s h = refl
uncommented-block (c ∷ w) s h = rw h.0 (uncommented-block w s h.1)

closes-end : (w s : Text) → closes (w ++ codes "*/" ++ s) ≡ true
unfolding closes starts_with
closes-end [] s = refl
closes-end (c ∷ w) s = rw (closes-end w s) (ground arith)

-- A comment, and what the reader puts in its place: the break of its line, or nothing.
pub data Remark : Text → Text → Type 0 where
  to_the_break :
      (w : Text) → Free (λ c. c == 10) w → Remark (codes "//" ++ (w ++ (10 ∷ []))) (10 ∷ [])
  between_stars : (w : Text) → Free is_star w → Remark (codes "/*" ++ (w ++ codes "*/")) []

uncommented-comment :
    {c left : Text} (s : Text)
    → Remark c left
    → uncommented code (c ++ s) ≡ uncommented code (left ++ s)
unfolding step starts_with uncommented
uncommented-comment s (to_the_break w h) =
    ap (uncommented line) (append_assoc w (10 ∷ []) s) ∙ uncommented-line w s h
uncommented-comment s (between_stars w h) = rw (closes-end w s) (uncommented-block w s h)

-- A setting that stands in a comment is not read, and the rest of the file is read as if the comment
-- were not there: a comment with no star inside it, or one to the end of its line, can be taken out of
-- any configuration, where no slash stands before it.
pub next_output_mode-comment :
    {c left : Text} (a s : Text)
    → Free is_slash a
    → Remark c left
    → next_output_mode (a ++ (c ++ s)) ≡ next_output_mode (a ++ (left ++ s))
unfolding next_output_mode
next_output_mode-comment {c} {left} a s h comment = ap (output_from false) (
    uncommented-code a (c ++ s) h
    ∙ ap (λ t. a ++ t) (uncommented-comment s comment)
    ∙ sym (uncommented-code a (left ++ s) h))

-- ===== src/Build/Lines.antt =====
-- A file that is written line by line, and how its last lines are read.
use deploygenus.Build.Plan.{file_of}
use deploygenus.Build.Readers.Ports.{still_fresh, exposed_from, exposed_port}
use deploygenus.Build.Stage.{Stage, no_stage, read_lines, last_stage, read_lines-append}
use deploygenus.Text.{Text, Free, split_by, split_by_more, split_by-append, join, split_on}
use deploygenus.Base.{
  ◌==◌, All, ℕ, ◌≡◌, refl, sym, ap, ◌∙◌, Bool, true, Option, none, List, [], ◌∷◌, ◌++◌,
  append_assoc,
}

abbrev pub is_newline : ℕ → Bool
is_newline c = c == 10

pub file_of_more : (l m : Text) (ls : List Text) → file_of (l ∷ m ∷ ls) ≡ l ++ 10 ∷ file_of (m ∷ ls)
unfolding file_of join
file_of_more l m ls = append_assoc l (10 ∷ join 10 (m ∷ ls)) (10 ∷ [])

-- The last lines of a file stand behind a line break.
pub file_of-append :
    (l : Text) (ls : List Text) (m : Text) (ms : List Text)
    → file_of ((l ∷ ls) ++ (m ∷ ms)) ≡ join 10 (l ∷ ls) ++ 10 ∷ file_of (m ∷ ms)
unfolding join
file_of-append l [] m ms = file_of_more l m ms
file_of-append l (k ∷ ks) m ms =
    file_of_more l k (ks ++ (m ∷ ms))
    ∙ ap (λ s. l ++ 10 ∷ s) (file_of-append k ks m ms)
    ∙ sym (append_assoc l (10 ∷ join 10 (k ∷ ks)) (10 ∷ file_of (m ∷ ms)))

split_on-file_of :
    (m : Text) (ms : List Text)
    → All (Free is_newline) (m ∷ ms)
    → split_on 10 (file_of (m ∷ ms)) ≡ (m ∷ ms) ++ ([] ∷ [])
unfolding split_on file_of join split_by
split_on-file_of m [] h = split_by_more is_newline m 10 [] h.0 refl
split_on-file_of m (k ∷ ms) h =
    ap (split_by is_newline) (file_of_more m k ms)
    ∙ split_by_more is_newline m 10 (file_of (k ∷ ms)) h.0 refl
    ∙ ap (λ (lines : List Text). m ∷ lines) (split_on-file_of k ms h.1)

-- What a stage reads like depends on the last lines alone, up to what stood before them.
pub last_stage-file_of :
    (l : Text) (ls : List Text) (m : Text) (ms : List Text)
    → All (Free is_newline) (m ∷ ms)
    → (stage : Stage) × (last_stage (file_of ((l ∷ ls) ++ (m ∷ ms)))
        ≡ read_lines ((m ∷ ms) ++ ([] ∷ [])) stage)
unfolding last_stage split_on
last_stage-file_of l ls m ms h =
    let before = split_on 10 (join 10 (l ∷ ls)) in
    (
      read_lines before no_stage,
      ap (λ s. read_lines (split_on 10 s) no_stage) (file_of-append l ls m ms)
          ∙ ap (λ lines. read_lines lines no_stage)
              (split_by-append is_newline (join 10 (l ∷ ls)) 10 (file_of (m ∷ ms)) refl
                ∙ ap (λ lines. before ++ lines) (split_on-file_of m ms h))
          ∙ read_lines-append before ((m ∷ ms) ++ ([] ∷ [])) no_stage,
    )

exposed_from_break :
    (s t : Text) (fresh : Bool) (found : Option ℕ)
    → (later : Option ℕ) × (exposed_from fresh (s ++ 10 ∷ t) found ≡ exposed_from true t later)
unfolding exposed_from
exposed_from_break [] t fresh found = (_, refl)
exposed_from_break (c ∷ s) t fresh found = exposed_from_break s t (still_fresh fresh c) _

pub exposed_port-file_of :
    (l : Text) (ls : List Text) (m : Text) (ms : List Text)
    → (found : Option ℕ) × (exposed_port (file_of ((l ∷ ls) ++ (m ∷ ms)))
        ≡ exposed_from true (file_of (m ∷ ms)) found)
unfolding exposed_port
exposed_port-file_of l ls m ms =
    let (found, e) = exposed_from_break (join 10 (l ∷ ls)) (file_of (m ∷ ms)) true none in
    (found, ap exposed_port (file_of-append l ls m ms) ∙ e)

pub file_of_three : (a b c : Text) → file_of (a ∷ b ∷ c ∷ []) ≡ a ++ 10 ∷ (b ++ 10 ∷ (c ++ 10 ∷ []))
unfolding file_of join
file_of_three a b c = file_of_more a b (c ∷ []) ∙ ap (λ s. a ++ 10 ∷ s) (file_of_more b c [])

-- ===== src/Build/Quoting.antt =====
-- A command in Docker's exec form stays on its line.
use deploygenus.Build.Json.{
  hex_digit, hex_escape, json_char, json_chars, json_text, json_more, json_texts,
}
use deploygenus.Build.Dockerfiles.Servers.{is_shell_char, exec_form}
use deploygenus.Build.Lines.{is_newline}
use deploygenus.Text.{Text, codes, Free, words}
use deploygenus.Base.{
  ltb, leb, ◌==◌, if◌then◌else◌, Bool-cases, All-append, any, ℕ, ◌+◌, ◌-◌, ◌/◌, ◌%◌, ◌≡◌, refl, inl,
  inr, Bool, true, false, ◌&&◌, List, [], ◌∷◌, ◌++◌, arith,
}

hex_digit-printed : (n : ℕ) → is_newline (hex_digit n) ≡ false
unfolding hex_digit
hex_digit-printed n = ground arith

hex_escape-Free : (n : ℕ) → Free is_newline (hex_escape n)
unfolding hex_escape
hex_escape-Free n = (
  refl,
  (
    refl,
    (
      hex_digit-printed (n / 4096 % 16),
      (
        hex_digit-printed (n / 256 % 16),
        (hex_digit-printed (n / 16 % 16), (hex_digit-printed (n % 16), tt)),
      ),
    ),
  ),
)

if-Free :
    (b : Bool) (s t : Text)
    → (b ≡ true → Free is_newline s)
    → Free is_newline t
    → Free is_newline (if b then s else t)
if-Free true s t h k = h refl
if-Free false s t h k = k

json_char-Free : (c : ℕ) → Free is_newline (json_char c)
unfolding json_char
json_char-Free c =
    if-Free (c == b'"') _ _ (λ e. ground arith)
      (if-Free (c == b'\\') _ _ (λ e. ground arith)
        (if-Free (leb 32 c && leb c 126) _ _ (λ e. (ground arith, tt))
          (if-Free (c == 10) _ _ (λ e. ground arith)
            (if-Free (c == 13) _ _ (λ e. ground arith)
              (if-Free (c == 9) _ _ (λ e. ground arith)
                (if-Free (c == 8) _ _ (λ e. ground arith)
                  (if-Free (c == 12) _ _ (λ e. ground arith)
                    (if-Free (ltb c 65536) _ _ (λ e. hex_escape-Free c)
                      (All-append (λ c. is_newline c ≡ false)
                        (hex_escape (55296 + (c - 65536) / 1024 % 1024))
                        (hex_escape (56320 + (c - 65536) % 1024))
                        (hex_escape-Free (55296 + (c - 65536) / 1024 % 1024))
                        (hex_escape-Free (56320 + (c - 65536) % 1024)))))))))))

json_chars-Free : (s : Text) → Free is_newline (json_chars s)
unfolding json_chars
json_chars-Free [] = tt
json_chars-Free (c ∷ s) =
    All-append (λ c. is_newline c ≡ false) (json_char c) (json_chars s) (json_char-Free c)
      (json_chars-Free s)

json_text-Free : (s : Text) → Free is_newline (json_text s)
unfolding json_text
json_text-Free s = (
  ground arith,
  All-append (λ c. is_newline c ≡ false) (json_chars s) (b'"' ∷ []) (json_chars-Free s)
      (ground arith),
)

json_more-Free : (ss : List Text) → Free is_newline (json_more ss)
unfolding json_more
json_more-Free [] = ground arith
json_more-Free (s ∷ ss) =
    All-append (λ c. is_newline c ≡ false) (codes ", ") (json_text s ++ json_more ss) (ground arith)
      (All-append (λ c. is_newline c ≡ false) (json_text s) (json_more ss) (json_text-Free s)
        (json_more-Free ss))

json_texts-Free : (ss : List Text) → Free is_newline (json_texts ss)
unfolding json_texts
json_texts-Free [] = ground arith
json_texts-Free (s ∷ ss) = (
  ground arith,
  All-append (λ c. is_newline c ≡ false) (json_text s) (json_more ss) (json_text-Free s)
      (json_more-Free ss),
)

pub exec_form-Free : (command : Text) → Free is_newline (exec_form command)
unfolding exec_form
exec_form-Free command = elim (Bool-cases (any is_shell_char command)) [
  | inl e ↦ rw e (json_texts-Free (codes "/bin/sh" ∷ codes "-c" ∷ (codes "exec " ++ command) ∷ []))
  | inr e ↦ rw e (json_texts-Free (words command))
]

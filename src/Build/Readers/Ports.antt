-- ===== src/Build/Readers/Ports.antt =====
-- The port that a Dockerfile exposes (deploypro/domain/detect.py).
use deploygenus.Text.{Text, codes, starts_with, is_digit, is_space, lstrip_by, int_of}
use deploygenus.Base.{
  ltb, ◌==◌, if◌then◌else◌, drop, is_empty, ℕ, zero, suc, Bool, true, ◌&&◌, ◌||◌, Option, none,
  some, [], ◌∷◌,
}

-- At most so many digits, from the beginning of a text: `\d{1,5}` where there is one.
unfoldable pub leading_digits : ℕ → Text → Text
unfolding is_digit
leading_digits zero s = []
leading_digits (suc n) [] = []
leading_digits (suc n) (c ∷ s) =
    let rest = leading_digits n s in if is_digit c then c ∷ rest else []

-- `0 < value < 65536`
unfoldable pub is_port : ℕ → Bool
is_port n = ltb 0 n && ltb n 65536

unfoldable pub port_of_digits : Text → Option ℕ
unfolding int_of is_port
port_of_digits digits =
    if is_empty digits then none else if is_port (int_of digits) then some (int_of digits) else none

-- After the word: `\s+(\d{1,5})`
unfoldable pub exposed_value : Text → Option ℕ
unfolding is_space lstrip_by leading_digits port_of_digits
exposed_value [] = none
exposed_value (c ∷ s) =
    if is_space c then port_of_digits (leading_digits 5 (lstrip_by is_space s)) else none

unfoldable pub exposed_here : Text → Option ℕ
unfolding starts_with exposed_value
exposed_here s = if starts_with s (codes "EXPOSE") then exposed_value (drop 6 s) else none

-- `found` after a match.
abbrev pub update : Option ℕ → Option ℕ → Option ℕ
update found none = found
update found (some port) = some port

-- Whether only white space stands between the beginning of a line and the next position.
abbrev pub still_fresh : Bool → ℕ → Bool
still_fresh fresh c = c == 10 || fresh && is_space c

-- The scan, with whether only white space stands before the position on its line.
unfoldable pub exposed_from : Bool → Text → Option ℕ → Option ℕ
unfolding exposed_here is_space
exposed_from fresh [] found = found
exposed_from fresh (c ∷ s) found =
    exposed_from (still_fresh fresh c) s
      (if fresh then update found (exposed_here (c ∷ s)) else found)

unfoldable pub exposed_port : Text → Option ℕ
unfolding exposed_from
exposed_port s = exposed_from true s none

-- ===== src/Build/Json.antt =====
-- `json.dumps` of a list of texts, whose other characters than printable ASCII are escaped.
use deploygenus.Text.{Text, codes}
use deploygenus.Base.{
  ltb, leb, ◌==◌, if◌then◌else◌, ℕ, ◌+◌, ◌-◌, ◌/◌, ◌%◌, ◌&&◌, List, [], ◌∷◌, ◌++◌,
}

-- A hexadecimal digit, in lower case.
unfoldable pub hex_digit : ℕ → ℕ
hex_digit n = if ltb n 10 then b'0' + n else b'a' + (n - 10)

-- `\u` and four digits
unfoldable pub hex_escape : ℕ → Text
unfolding hex_digit
hex_escape n =
    b'\\'
    ∷ b'u'
    ∷ hex_digit (n / 4096 % 16)
    ∷ hex_digit (n / 256 % 16)
    ∷ hex_digit (n / 16 % 16)
    ∷ hex_digit (n % 16)
    ∷ []

-- A character of a JSON string; one above 0xFFFF is two surrogates.
unfoldable pub json_char : ℕ → Text
unfolding hex_escape
json_char c =
    if c == b'"'
    then codes "\\\""
    else if c == b'\\'
    then codes "\\\\"
    else if leb 32 c && leb c 126
    then c ∷ []
    else if c == 10
    then codes "\\n"
    else if c == 13
    then codes "\\r"
    else if c == 9
    then codes "\\t"
    else if c == 8
    then codes "\\b"
    else if c == 12
    then codes "\\f"
    else if ltb c 65536
    then hex_escape c
    else hex_escape (55296 + (c - 65536) / 1024 % 1024) ++ hex_escape (56320 + (c - 65536) % 1024)

unfoldable pub json_chars : Text → Text
unfolding json_char
json_chars [] = []
json_chars (c ∷ s) = json_char c ++ json_chars s

unfoldable pub json_text : Text → Text
unfolding json_chars
json_text s = b'"' ∷ (json_chars s ++ (b'"' ∷ []))

-- The elements after the first.
unfoldable pub json_more : List Text → Text
unfolding json_text
json_more [] = codes "]"
json_more (s ∷ ss) = codes ", " ++ (json_text s ++ json_more ss)

unfoldable pub json_texts : List Text → Text
unfolding json_more
json_texts [] = codes "[]"
json_texts (s ∷ ss) = b'[' ∷ (json_text s ++ json_more ss)

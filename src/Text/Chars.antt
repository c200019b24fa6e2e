-- ===== src/Text/Chars.antt =====
-- Texts, their equality, prefixes and classes of characters.
use Prim.Native.Char.{code}
use deploygenus.Base.{
  Bool-cases, sym, ◌∙◌, inl, inr, leb, ◌==◌, if◌then◌else◌, ==_iff, &&-parts, length, drop, ℕ, ◌+◌,
  ◌-◌, String, ◌≡◌, refl, ◌↔◌, Bool, true, false, ◌&&◌, ◌||◌, List, [], ◌∷◌, ◌++◌, map, arith,
}

abbrev pub Text : Type 0
Text = List ℕ

-- A literal's code points.
abbrev pub codes : String → Text
codes String.[] = []
codes (String.◌∷◌ c s) = code c ∷ codes s

cons_path : {c d : ℕ} {s t : Text} → c ≡ d → s ≡ t → c ∷ s ≡ d ∷ t
cons_path e f = cc

unfoldable pub text_eq : Text → Text → Bool
text_eq [] [] = true
text_eq [] (d ∷ t) = false
text_eq (c ∷ s) [] = false
text_eq (c ∷ s) (d ∷ t) = c == d && text_eq s t

pub text_eq→eq : (s t : Text) → text_eq s t ≡ true → s ≡ t
unfolding text_eq
text_eq→eq [] [] h = refl
text_eq→eq [] (d ∷ t) h = cc
text_eq→eq (c ∷ s) [] h = cc
text_eq→eq (c ∷ s) (d ∷ t) h =
    cons_path ((==_iff c d).0 (&&-parts _ _ h).0) (text_eq→eq s t (&&-parts _ _ h).1)

pub text_eq_refl : (s : Text) → text_eq s s ≡ true
unfolding text_eq
text_eq_refl [] = refl
text_eq_refl (c ∷ s) = ground (arith, text_eq_refl s)

pub text_eq_iff : (s t : Text) → (text_eq s t ≡ true) ↔ (s ≡ t)
text_eq_iff s t = (text_eq→eq s t, λ e. rw e (text_eq_refl t))

pub text_eq_sym : (s t : Text) → text_eq s t ≡ text_eq t s
text_eq_sym s t = elim (Bool-cases (text_eq s t)) [
  | inl e ↦ let same : s ≡ t = (text_eq_iff s t).0 e in e ∙ sym ((text_eq_iff t s).1 (sym same))
  | inr e ↦ elim (Bool-cases (text_eq t s)) [
    | inl d ↦ let same : t ≡ s = (text_eq_iff t s).0 d in (text_eq_iff s t).1 (sym same) ∙ sym d
    | inr d ↦ e ∙ sym d
  ]
]

-- `s in xs` for a collection of texts
unfoldable pub contains : List Text → Text → Bool
contains [] s = false
contains (x ∷ xs) s = text_eq x s || contains xs s

unfoldable pub starts_with : Text → Text → Bool
starts_with s [] = true
starts_with [] (d ∷ t) = false
starts_with (c ∷ s) (d ∷ t) = c == d && starts_with s t

pub starts_with_split : (s t : Text) → starts_with s t ≡ true → s ≡ t ++ drop (length t) s
unfolding starts_with
starts_with_split [] [] h = refl
starts_with_split (c ∷ s) [] h = refl
starts_with_split [] (d ∷ t) h = cc
starts_with_split (c ∷ s) (d ∷ t) h =
    cons_path ((==_iff c d).0 (&&-parts _ _ h).0) (starts_with_split s t (&&-parts _ _ h).1)

pub starts_with-append : (s t : Text) → starts_with (s ++ t) s ≡ true
unfolding starts_with
starts_with-append [] [] = refl
starts_with-append [] (d ∷ t) = refl
starts_with-append (c ∷ s) t = ground (arith, starts_with-append s t)

-- `s.removeprefix(t)`
unfoldable pub remove_prefix : Text → Text → Text
remove_prefix s t = if starts_with s t then drop (length t) s else s

pub drop-append : (s t : Text) → drop (length s) (s ++ t) ≡ t
drop-append [] t = refl
drop-append (c ∷ s) t = drop-append s t

pub remove_prefix-append : (s t : Text) → remove_prefix (s ++ t) s ≡ t
unfolding remove_prefix
remove_prefix-append s t = rw (starts_with-append s t) (drop-append s t)

unfoldable pub is_digit : ℕ → Bool
is_digit c = leb b'0' c && leb c b'9'

unfoldable pub is_lower : ℕ → Bool
is_lower c = leb b'a' c && leb c b'z'

unfoldable pub is_upper : ℕ → Bool
is_upper c = leb b'A' c && leb c b'Z'

-- ASCII white space: what `str.strip`, `str.split` and `\s` agree on below 128.
unfoldable pub is_space : ℕ → Bool
is_space c = leb 9 c && leb c 13 || leb 28 c && leb c 32

unfoldable pub to_lower : ℕ → ℕ
unfolding is_upper
to_lower c = if is_upper c then c + 32 else c

unfoldable pub to_upper : ℕ → ℕ
unfolding is_lower
to_upper c = if is_lower c then c - 32 else c

unfoldable pub lower : Text → Text
unfolding to_lower
lower = map to_lower

unfoldable pub upper : Text → Text
unfolding to_upper
upper = map to_upper

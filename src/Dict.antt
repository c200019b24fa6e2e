-- ===== src/Dict.antt =====
-- A dictionary as an association list, with the methods of `dict` that the engine uses.
pub mod Laws
use deploygenus.Text.{Text, text_eq}
use deploygenus.Base.{if◌then◌else◌, Option, none, some, List, [], ◌∷◌}

-- `d.get(key)`
unfoldable pub lookup : {A : Type 0} → Text → List (Text × A) → Option A
lookup key [] = none
lookup key ((k, a) ∷ d) = if text_eq k key then some a else lookup key d

-- `d.pop(key, None)` as it leaves the dictionary
unfoldable pub removed : {A : Type 0} → Text → List (Text × A) → List (Text × A)
removed key [] = []
removed key ((k, a) ∷ d) = let rest = removed key d in if text_eq k key then rest else (k, a) ∷ rest

-- `d[key] = a`
unfoldable pub put : {A : Type 0} → Text → A → List (Text × A) → List (Text × A)
put key a [] = (key, a) ∷ []
put key a ((k, b) ∷ d) = if text_eq k key then (k, a) ∷ d else (k, b) ∷ put key a d

-- ===== src/Retention/Removal.antt =====
-- Which images `images_to_remove` removes.
use mathlib.Core.Option.{some-injective}
use deploygenus.Dict.{lookup}
use deploygenus.Naming
use deploygenus.Retention.{
  slug_of_tag, kept_of, doomed, text_le, insert_sorted, sorted, images_to_remove,
}
use deploygenus.Text.{
  Text, codes, text_eq, text_eq_refl, contains, remove_prefix-append, Free, partition_at,
}
use deploygenus.Base.{
  ◌==◌, Bool-cases, take, All-append, filter, In, In-filter, filter-In, ℕ, ◌≡◌, refl, sym, ◌∙◌, ◌↔◌,
  ◌⊎◌, inl, inr, Bool, true, false, not, some, List, [], ◌∷◌, ◌++◌, arith,
}

In-insert_sorted : (a t : Text) (ts : List Text) → (a ≡ t) ⊎ In a ts → In a (insert_sorted t ts)
unfolding insert_sorted
In-insert_sorted a t [] h = h
In-insert_sorted a t (u ∷ us) h = elim (Bool-cases (text_le t u)) [
  | inl le ↦ rw le h
  | inr gt ↦ rw gt (later (λ p. In-insert_sorted a t us p) h)
]
  where
    later :
        ((a ≡ t) ⊎ In a us → In a (insert_sorted t us))
        → (a ≡ t) ⊎ In a (u ∷ us)
        → In a (u ∷ insert_sorted t us)
    later f (inl p) = inr (f (inl p))
    later f (inr (inl p)) = inl p
    later f (inr (inr m)) = inr (f (inr m))

insert_sorted-In : (a t : Text) (ts : List Text) → In a (insert_sorted t ts) → (a ≡ t) ⊎ In a ts
unfolding insert_sorted
insert_sorted-In a t [] = λ h. h
insert_sorted-In a t (u ∷ us) = elim (Bool-cases (text_le t u)) [
  | inl le ↦ rw le (λ h. h)
  | inr gt ↦ rw gt (elim [
    | inl p ↦ inr (inl p)
    | inr m ↦ elim (insert_sorted-In a t us m) [ inl p ↦ inl p | inr k ↦ inr (inr k) ]
  ])
]

In-sorted : (a : Text) (ts : List Text) → In a ts ↔ In a (sorted ts)
unfolding sorted
In-sorted a [] = (λ h. h, λ h. h)
In-sorted a (t ∷ ts) =
    let (to, from) = In-sorted a ts in
    (
      elim [
        | inl p ↦ In-insert_sorted a t (sorted ts) (inl p)
        | inr m ↦ In-insert_sorted a t (sorted ts) (inr (to m))
      ],
      λ h. elim (insert_sorted-In a t (sorted ts) h) [ inl p ↦ inl p | inr m ↦ inr (from m) ],
    )

-- The tag is in no set of its project.
abbrev pub is_unneeded : List (Text × List Text) → Text → Bool
is_unneeded keep tag = not (contains (kept_of (slug_of_tag tag) keep) tag)

doomed-eq-filter :
    (keep : List (Text × List Text)) (tags : List Text)
    → doomed keep tags ≡ filter (is_unneeded keep) tags
unfolding doomed filter
doomed-eq-filter keep [] = refl
doomed-eq-filter keep (tag ∷ tags) = rw (doomed-eq-filter keep tags)

-- A tag is removed exactly if it is on the host and the project whose slug it carries does not need
-- it; a project that is not in the dictionary needs nothing.
pub images_to_remove_exact :
    (present : List Text) (keep : List (Text × List Text)) (tag : Text)
    → In tag (images_to_remove present keep)
      ↔ (In tag present × (contains (kept_of (slug_of_tag tag) keep) tag ≡ false))
unfolding images_to_remove
images_to_remove_exact present keep tag = rw (doomed-eq-filter keep present) (
  λ h.
      let (m, p) =
        filter-In (is_unneeded keep) tag present
          ((In-sorted tag (filter (is_unneeded keep) present)).1 h) in
      (m, ground arith),
  λ (m, p).
      (In-sorted tag (filter (is_unneeded keep) present)).0
        (In-filter (is_unneeded keep) tag present m (rw p)),
)

abbrev pub is_colon : ℕ → Bool
is_colon c = c == b':'

-- The slug in an image's tag is read back, for a slug without a colon.
pub slug_of_tag-image_tag :
    (slug sha : Text) → Free is_colon slug → slug_of_tag (Naming.image_tag slug sha) ≡ slug
unfolding slug_of_tag Naming.image_tag
slug_of_tag-image_tag slug sha h =
    let free : Free is_colon (codes "deploypro/" ++ slug) =
      All-append (λ c. is_colon c ≡ false) (codes "deploypro/") slug (ground arith) h in
    rw (partition_at b':' (codes "deploypro/" ++ slug) (take 12 sha) free)
      (remove_prefix-append (codes "deploypro/") slug)

pub In-contains : (t : Text) (ts : List Text) → In t ts → contains ts t ≡ true
unfolding contains
In-contains t [] h = elim h [ ]
In-contains t (u ∷ us) (inl e) = rw (e, text_eq_refl u)
In-contains t (u ∷ us) (inr m) = ground (arith, In-contains t us m)

-- Where the dictionary has an entry, the project's set is that entry.
pub kept_of-lookup :
    (slug : Text) (tags : List Text) (keep : List (Text × List Text))
    → lookup slug keep ≡ some tags
    → kept_of slug keep ≡ tags
unfolding kept_of lookup
kept_of-lookup slug tags [] h = cc
kept_of-lookup slug tags ((name, ts) ∷ keep) h = elim (Bool-cases (text_eq name slug)) [
  | inl e ↦ rw e (some-injective ts tags (sym (found e) ∙ h))
  | inr e ↦ rw e (kept_of-lookup slug tags keep (sym (later e) ∙ h))
]
  where
    found : text_eq name slug ≡ true → lookup slug ((name, ts) ∷ keep) ≡ some ts
    found e = rw e

    later : text_eq name slug ≡ false → lookup slug ((name, ts) ∷ keep) ≡ lookup slug keep
    later e = rw e

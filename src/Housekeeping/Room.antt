-- ===== src/Housekeeping/Room.antt =====
-- When a build may start.
use deploygenus.Housekeeping.{Disk, is_short, fullest_of, short_of_room, room_after, ensure_room}
use deploygenus.Base.{
  ◌==◌, ==_iff, Bool-cases, All, filter, ℕ, ◌≡◌, refl, ◌↔◌, ◌⊎◌, inl, inr, Bool, true, false,
  Option, none, some, List, [], ◌∷◌,
}

-- Every disk whose free space can be read has the minimum.
abbrev HasRoom : ℕ → List Disk → Type 0
HasRoom min_free_gb disks = All (λ (d : Disk). is_short min_free_gb d.free ≡ false) disks

fullest_of-filter :
    (p : Disk → Bool) (disks : List Disk)
    → (fullest_of (filter p disks) ≡ none) ↔ All (λ d. p d ≡ false) disks
unfolding fullest_of filter
fullest_of-filter p [] = (λ h. tt, λ h. refl)
fullest_of-filter p (d ∷ disks) = elim (Bool-cases (p d)) [
  | inl e ↦ rw e (λ h. cc, λ (h, k). cc)
  | inr e ↦
      rw e (λ h. (refl, (fullest_of-filter p disks).0 h), λ (h, k). (fullest_of-filter p disks).1 k)
]

short_of_room_exact :
    (min_free_gb : ℕ) (disks : List Disk)
    → (short_of_room min_free_gb disks ≡ none) ↔ HasRoom min_free_gb disks
unfolding short_of_room
short_of_room_exact min_free_gb disks =
    fullest_of-filter (λ (d : Disk). is_short min_free_gb d.free) disks

room_after-none :
    (before after : Option Disk)
    → (room_after before after ≡ none) ↔ ((before ≡ none) ⊎ (after ≡ none))
unfolding room_after
room_after-none none after = (λ h. inl refl, λ h. refl)
room_after-none (some d) after = (λ h. inr h, elim [ inl e ↦ cc | inr e ↦ e ])

-- A build may start exactly if no minimum is set, or every disk whose free space can be read has the
-- minimum before the tidy-up, or every one has it after.
ensure_room_exact :
    (min_free_gb : ℕ) (before after : List Disk)
    → (ensure_room min_free_gb before after ≡ none)
      ↔ ((min_free_gb ≡ 0) ⊎ (HasRoom min_free_gb before ⊎ HasRoom min_free_gb after))
unfolding ensure_room
ensure_room_exact min_free_gb before after = elim (Bool-cases (min_free_gb == 0)) [
  | inl e ↦ rw e (λ h. inl ((==_iff min_free_gb 0).0 e), λ h. refl)
  | inr e ↦
      let (to, from) =
        room_after-none (short_of_room min_free_gb before) (short_of_room min_free_gb after) in
      rw e (
        λ h. elim (to h) [
          | inl b ↦ inr (inl ((short_of_room_exact min_free_gb before).0 b))
          | inr a ↦ inr (inr ((short_of_room_exact min_free_gb after).0 a))
        ],
        elim [
          | inl unset ↦ let equal : (min_free_gb == 0) ≡ true = (==_iff min_free_gb 0).1 unset in cc
          | inr room ↦ elim room [
            | inl b ↦ from (inl ((short_of_room_exact min_free_gb before).1 b))
            | inr a ↦ from (inr ((short_of_room_exact min_free_gb after).1 a))
          ]
        ],
      )
]

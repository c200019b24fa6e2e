-- ===== src/Naming/Workers.antt =====
-- Worker containers of different projects can have one name.
use deploygenus.Naming.{worker_container_name, job_container_name}
use deploygenus.Text.{Text}
use deploygenus.Base.{ℕ, ◌≡◌, ◌∷◌, ◌++◌, append_assoc}

-- The worker `process` of the project `first-second` and the worker `second-process` of the project
-- `first` have the same container name, whatever the three texts and the replica; so have their
-- jobs of one slot.
pub worker_container_name_collision :
    (first second process : Text) (replica : ℕ) (slot : Text)
    → (worker_container_name (first ++ (b'-' ∷ second)) process replica
        ≡ worker_container_name first (second ++ (b'-' ∷ process)) replica)
      × (job_container_name (first ++ (b'-' ∷ second)) process slot
          ≡ job_container_name first (second ++ (b'-' ∷ process)) slot)
unfolding worker_container_name job_container_name
worker_container_name_collision first second process replica slot =
    (simp append_assoc, simp append_assoc)

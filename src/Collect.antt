-- ===== src/Collect.antt =====
-- The loops collectPrepares and collectCommits of node/operations.go: read certificates from a
-- channel until 400 ms have passed, or until 50 ms after a quorum is there.
pub mod Certificates
use pbft_2pc.Prelude.{
  ℕ, Bool, true, false, Option, none, some, List, [], ◌∷◌, ◌++◌, length, ◌==◌, nat_eq,
  if◌then◌else◌,
}

-- What the `select` statements see, in order: a certificate from the channel, or a timer's expiry.
pub data Arrival {ℓ} (A : Type ℓ) : Type ℓ where
  cert : A → Arrival A
  main_timer : Arrival A
  majority_timer : Arrival A

module _ {ℓ} {A : Type ℓ} where
  -- The inner loop, which the majority timer ends. The main timer is not looked at.
  unfoldable pub collect_rest : List A → List (Arrival A) → Option (List A)
  collect_rest certs [] = none
  collect_rest certs (cert c ∷ es) = collect_rest (certs ++ c ∷ []) es
  collect_rest certs (main_timer ∷ es) = collect_rest certs es
  collect_rest certs (majority_timer ∷ es) = some certs

  -- The outer loop, which the main timer ends unless a quorum is reached first. Until then no
  -- majority timer runs. `none` while the loop still waits after the last event.
  unfoldable pub collect : ℕ → List A → List (Arrival A) → Option (List A)
  collect quorum certs [] = none
  collect quorum certs (cert c ∷ es) =
      let certs' = certs ++ c ∷ [] in
      elim (length certs' == quorum) [
        | true ↦ collect_rest certs' es
        | false ↦ collect quorum certs' es
      ]
  collect quorum certs (main_timer ∷ es) = some certs
  collect quorum certs (majority_timer ∷ es) = collect quorum certs es

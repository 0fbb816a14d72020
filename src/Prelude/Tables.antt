-- ===== src/Prelude/Tables.antt =====
-- A Go map that is only looked up, assigned and deleted from: the function from keys to values.
use mathlib.Core.Option.{Option}
use pbft_2pc.Prelude.Tests.{Eq, ◌==◌, if◌then◌else◌}

abbrev pub Table {ℓ κ} : Type ℓ → Type κ → Type (ℓ ⊔ κ)
Table K V = K → Option V

module _ {ℓ κ} {K : Type ℓ} {V : Type κ} ⦃e : Eq K⦄ where
  -- `m[k] = v`
  abbrev pub assign : K → V → (K → V) → K → V
  assign k v m j = if k == j then v else m j

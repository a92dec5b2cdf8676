-- ===== src/Tests/Policies.antt =====
-- The theorems on policies, applied at a policy of two bands.
use optimap.Prelude.{ℕ, ◌==◌, ◌≡◌, if◌then◌else◌, some, [], ◌∷◌, arith, refl}
use optimap.Policy.{Policy, splitsies, ipo, gaps, band, backend_for}
use optimap.Policy.Bands.{
  Ascending, no_band, and_band, backend_at, Chosen, band-backend_at, backend_for-Chosen,
}

abbrev two_bands : Policy
two_bands = (0, splitsies) ∷ (1024, ipo) ∷ []

two_bands-Ascending : Ascending 0 two_bands
two_bands-Ascending = and_band (omega arith) (and_band (omega arith) no_band)

band-backend_at_example :
    Ascending 0 (band two_bands 512 gaps)
    × ((d : ℕ)
        → backend_at (band two_bands 512 gaps) d
          ≡ (if 512 == d then some gaps else backend_at two_bands d))
band-backend_at_example = band-backend_at two_bands 512 gaps two_bands-Ascending

backend_for-Chosen_example : Chosen two_bands 2000 (backend_for two_bands 2000)
unfolding backend_at
backend_for-Chosen_example =
    backend_for-Chosen two_bands 2000 0 splitsies two_bands-Ascending refl (omega arith)

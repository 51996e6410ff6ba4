-- ===== src/Common/Maps.antt =====
-- std::unordered_map and std::map with a numeric key, as association lists.
use Prim.Native.Nat.{ℕ}
use mathlib.Core.Path.{◌≡◌}
use mathlib.Core.Bool.{Bool, true, false}
use mathlib.Core.List.{List, [], ◌∷◌}
use mathlib.Core.Option.{Option, none, some}
use native.Mathlib.Omega.{arith}
use nasdaq_matching_engine.Common.Tests.{◌==◌, if◌then◌else◌}

module _ {ℓ} {V : Type ℓ} where
  abbrev pub find : ℕ → List (ℕ × V) → Option V
  find k [] = none
  find k ((j, v) ∷ m) = if j == k then some v else find k m

  abbrev pub contains : ℕ → List (ℕ × V) → Bool
  contains k m = elim (find k m) [ none ↦ false | some v ↦ true ]

  abbrev pub erase : ℕ → List (ℕ × V) → List (ℕ × V)
  erase k [] = []
  erase k ((j, v) ∷ m) = let rest = erase k m in if j == k then rest else (j, v) ∷ rest

  -- `emplace` leaves the map alone when the key is there.
  abbrev pub emplace : ℕ → V → List (ℕ × V) → List (ℕ × V)
  emplace k v m = elim (find k m) [ none ↦ (k, v) ∷ m | some w ↦ m ]

  pub find-erase :
      (k j : ℕ) (m : List (ℕ × V)) → find k (erase j m) ≡ (if j == k then none else find k m)
  find-erase k j [] = ground arith
  find-erase k j ((i, v) ∷ m) = ground (arith, find-erase k j m)

  pub find-emplace :
      (k j : ℕ) (v : V) (m : List (ℕ × V))
      → find j m ≡ none
      → find k (emplace j v m) ≡ (if j == k then some v else find k m)
  find-emplace k j v m h = ground arith

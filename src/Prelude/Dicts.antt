-- ===== src/Prelude/Dicts.antt =====
-- A Go map with string keys, as the list of its entries in the order in which a loop over it runs.
use Prim.Native.String.{String}
use mathlib.Core.Path.{◌≡◌}
use mathlib.Core.Option.{Option, none, some}
use mathlib.Core.Logic.{inl, inr}
use mathlib.Core.List.{List, [], ◌∷◌, Memᴰ}
use native.Mathlib.Omega.{arith}
use text.Mathlib.Text.{◌==◌}
use text.Mathlib.TextEquality.{eq_iff}
use toolhive_registry_server.Prelude.Tests.{if◌then◌else◌, Bool-cases}

abbrev pub Dict {ℓ} : Type ℓ → Type ℓ
Dict V = List (String × V)

-- `v, ok := m[k]`
unfoldable pub lookup {ℓ} : {V : Type ℓ} → String → Dict V → Option V
lookup k [] = none
lookup k ((j, v) ∷ m) = if j == k then some v else lookup k m

pub lookup-mem {ℓ} :
    {V : Type ℓ} (k : String) {v : V} (m : Dict V) → lookup k m ≡ some v → Memᴰ (k, v) m
unfolding lookup
lookup-mem k [] h = absurd (cc)
lookup-mem k {v} ((j, w) ∷ m) h = elim (Bool-cases (j == k)) [
  | inl e ↦ let same : w ≡ v = ground arith in Memᴰ.head (rw ((eq_iff j k).0 e, same))
  | inr e ↦ Memᴰ.tail (lookup-mem k m (ground arith))
]

-- ===== src/Base/Maps.antt =====
-- A Go map with text keys, as an association list: `map[string]V`.
use Prim.Native.String.{String}
use mathlib.Core.Path.{◌≡◌, refl}
use mathlib.Core.Option.{Option, none, some}
use mathlib.Core.List.{List, [], ◌∷◌}
use native.Mathlib.Omega.{arith}
use text.Mathlib.TextEquality.{eq_iff}
use weaveplatform_agent_core.Base.Tests.{if◌then◌else◌, ◌===◌}

abbrev pub Dict {ℓ} : Type ℓ → Type ℓ
Dict V = List (String × V)

module _ {ℓ} {V : Type ℓ} where
  -- v, ok := m[k]
  unfoldable pub lookup : String → Dict V → Option V
  lookup key [] = none
  lookup key ((k, v) ∷ entries) = if k === key then some v else lookup key entries

  -- m[k] = v
  unfoldable pub insert : String → V → Dict V → Dict V
  insert key new [] = (key, new) ∷ []
  insert key new ((k, old) ∷ entries) =
      if k === key then (key, new) ∷ entries else (k, old) ∷ insert key new entries

  -- delete(m, k)
  unfoldable pub remove : String → Dict V → Dict V
  remove key [] = []
  remove key ((k, v) ∷ entries) =
      let others = remove key entries in if k === key then others else (k, v) ∷ others

  pub lookup-remove :
      (gone key : String) (entries : Dict V)
      → lookup key (remove gone entries) ≡ (if gone === key then none else lookup key entries)
  unfolding lookup remove
  lookup-remove gone key [] = ground arith
  lookup-remove gone key ((k, v) ∷ entries) =
      ground (arith, lookup-remove gone key entries, eq_iff k gone, eq_iff k key, eq_iff gone key)

  pub lookup-insert :
      (set key : String) (new : V) (entries : Dict V)
      → lookup key (insert set new entries) ≡ (if set === key then some new else lookup key entries)
  unfolding insert lookup
  lookup-insert set key new [] = refl
  lookup-insert set key new ((k, old) ∷ entries) =
      let rest = lookup-insert set key new entries in
      ground (arith, rest, eq_iff k set, eq_iff k key, eq_iff set key)

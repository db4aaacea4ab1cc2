-- ===== src/Common/Dicts.antt =====
-- A Go map with string keys, as an association list with one entry for a key.
use Prim.Native.String.{String}
use mathlib.Core.Path.{◌≡◌}
use mathlib.Core.Option.{Option, none, some}
use mathlib.Core.List.{List, [], ◌∷◌}
use native.Mathlib.Omega.{arith}
use text.Mathlib.Text.{◌==◌}
use text.Mathlib.TextEquality.{eq_iff}
use k8s_cleaner.Common.Tests.{if◌then◌else◌}

abbrev pub Assoc {ℓ} : Type ℓ → Type ℓ
Assoc V = List (String × V)

module _ {ℓ} {V : Type ℓ} where
  -- v, ok := m[key]
  unfoldable pub lookup : String → Assoc V → Option V
  lookup key [] = none
  lookup key (entry ∷ m) = let rest = lookup key m in if entry.0 == key then some entry.1 else rest

  -- delete(m, key)
  unfoldable pub delete : String → Assoc V → Assoc V
  delete key [] = []
  delete key (entry ∷ m) = let rest = delete key m in if entry.0 == key then rest else entry ∷ rest

  -- m[key] = v
  unfoldable pub insert : String → V → Assoc V → Assoc V
  unfolding delete
  insert key v m = (key, v) ∷ delete key m

  pub lookup-delete :
      (key j : String) (m : Assoc V)
      → lookup j (delete key m) ≡ (if key == j then none else lookup j m)
  unfolding lookup delete
  lookup-delete key j [] = ground arith
  lookup-delete key j (entry ∷ m) =
      ground (arith, eq_iff key j, eq_iff entry.0 key, eq_iff entry.0 j, lookup-delete key j m)

  pub lookup-insert :
      (k j : String) (v : V) (m : Assoc V)
      → lookup j (insert k v m) ≡ (if k == j then some v else lookup j m)
  unfolding lookup insert
  lookup-insert k j v m = ground (arith, lookup-delete k j m)

pub ruleset assoc_laws = (lookup-delete, lookup-insert)

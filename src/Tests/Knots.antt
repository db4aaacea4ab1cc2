-- ===== src/Tests/Knots.antt =====
-- A Lua library with three tables: a list, a map that holds it, and a table that contains itself.
use k8s_cleaner.Common.{
  ℕ, ◌<◌, String, ◌≡◌, refl, ok, panic, Option, none, some, List, [], ◌∷◌, arith, All,
}
use k8s_cleaner.Executor.Lua.{Value, LuaValue, Tables, text, nil, table, string, go_value}
use k8s_cleaner.Executor.Lua.Conversion.{Converts, Below, Nested, go_value-Converts}

data Three : Type 0 where
  letters : Three
  folder : Three
  knot : Three

abbrev Lua : Type 0
Lua = LuaValue String Three

abbrev content : Three → List (Lua × Lua)
content letters = []
content folder = (string "letters", table letters) ∷ []
content knot = (string "self", table knot) ∷ []

abbrev size : Three → ℕ
size letters = 2
size folder = 0
size knot = 0

abbrev at : Three → ℕ → Lua
at letters i = string "a"
at folder i = nil
at knot i = nil

abbrev three : Tables
three = record {
  Num = String;
  of_int = λ n. "";
  Table = Three;
  new_table = letters;
  raw_set_string = λ t key v. t;
  append = λ t v. t;
  max_n = size;
  for_each = content;
  raw_get_int = at;
  sprint = λ v. elim v [ text s ↦ s | _ ↦ "" ];
}

abbrev depth_of : Three → Option ℕ
depth_of letters = some 1
depth_of folder = some 2
depth_of knot = none

abbrev nesting : Lua → Option ℕ
nesting v = elim v [ table t ↦ depth_of t | _ ↦ some 0 ]

one : (n : ℕ) → some 1 ≡ some n → 1 ≡ n
one n e = cc e

two : (n : ℕ) → some 2 ≡ some n → 2 ≡ n
two n e = cc e

leaf : (n : ℕ) (s : String) → 0 < n → Below three nesting n (string s)
leaf n s p = record { depth = 0; measured = refl; below = p }

three-Nested : Nested three nesting
three-Nested = record { entries = entries; items = items }
  where
    entries :
        (t : Three) (n : ℕ)
        → depth_of t ≡ some n
        → All (λ (e : Lua × Lua). Below three nesting n e.0 × Below three nesting n e.1) (content t)
    entries letters n e = tt
    entries folder n e = (
      (
        leaf n "letters" (omega (arith, two n e)),
        record { depth = 1; measured = refl; below = omega (arith, two n e) },
      ),
      tt,
    )
    entries knot n e = absurd (cc e)

    items : (t : Three) (n i : ℕ) → depth_of t ≡ some n → Below three nesting n (at t i)
    items letters n i e = leaf n "a" (omega (arith, one n e))
    items folder n i e = record { depth = 0; measured = refl; below = omega (arith, two n e) }
    items knot n i e = absurd (cc e)

-- A table that contains itself ends the program.
knot_overflows : go_value three nesting (table knot) ≡ panic
unfolding go_value
knot_overflows = refl

go_value-Converts_example :
    (x : Value String) × (go_value three nesting (table folder) ≡ ok x)
    × Converts three (table folder) x
go_value-Converts_example = go_value-Converts three nesting three-Nested (table folder) 2 refl

-- ===== src/Python/Value.antt =====
-- Integers with a sign, and a value of a JSON document before its type is checked.
use fed_kg_rag_secure_impl.Prelude.{
  ℕ, Bool, Option, none, some, String, ltb, leb, ◌-◌, if◌then◌else◌,
}

-- `negsuc n` is -(n + 1).
pub data ℤ : Type 0 where
  pos : ℕ → ℤ
  negsuc : ℕ → ℤ

-- `other` is a float, a list or a nested object; a `bool` is an `int` to Python's `isinstance`,
-- so the code excludes it first.
pub data Json : Type 0 where
  null other : Json
  bool : Bool → Json
  int : ℤ → Json
  str : String → Json

-- The value of an integer of at least `lo`, as the tests `isinstance(v, bool) or not
-- isinstance(v, int)` and `v < lo` leave it.
abbrev pub as_int : Json → Option ℤ
as_int (int z) = some z
as_int null = none
as_int other = none
as_int (bool b) = none
as_int (str s) = none

-- `0 <= z < m`, with the number if it holds.
abbrev pub in_range : ℤ → ℕ → Option ℕ
in_range (pos n) m = if ltb n m then some n else none
in_range (negsuc n) m = none

-- `a - b`
abbrev pub difference : ℕ → ℕ → ℤ
difference a b = if leb b a then pos (a - b) else negsuc (b - a - 1)

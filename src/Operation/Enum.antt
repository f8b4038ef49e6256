-- ===== src/Operation/Enum.antt =====
-- operation/enum.go: the names of an enumeration, a table in the order of its numbers.
use batch_weaver.Base.{
  ℕ, zero, suc, ◌≡◌, false, List, [], ◌∷◌, Option, none, some, Bytes, bytes_eq, All, if◌then◌else◌,
  Result, ok, err,
}

-- The name of a number, if the table has it.
unfoldable pub name_at : ℕ → List Bytes → Option Bytes
name_at v [] = none
name_at zero (n ∷ ns) = some n
name_at (suc v) (n ∷ ns) = name_at v ns

-- "unknown"
abbrev pub unknown_name : Bytes
unknown_name = 117 ∷ 110 ∷ 107 ∷ 110 ∷ 111 ∷ 119 ∷ 110 ∷ []

unfoldable pub enum_string : ℕ → List Bytes → Bytes
unfolding name_at
enum_string v names = elim (name_at v names) [ some n ↦ n | none ↦ unknown_name ]

abbrev pub next_index : Option ℕ → Option ℕ
next_index (some i) = some (suc i)
next_index none = none

-- The loop of `parseEnum`.
unfoldable pub index_of : Bytes → List Bytes → Option ℕ
unfolding bytes_eq
index_of s [] = none
index_of s (n ∷ ns) = let rest = next_index (index_of s ns) in if bytes_eq n s then some 0 else rest

-- The error names the string that is no name.
unfoldable pub parse_enum : Bytes → List Bytes → Result Bytes ℕ
unfolding index_of
parse_enum s names = elim (index_of s names) [ some i ↦ ok i | none ↦ err s ]

-- The error names the number that has no name.
unfoldable pub marshal_enum : ℕ → List Bytes → Result ℕ Bytes
unfolding name_at
marshal_enum v names = elim (name_at v names) [ some n ↦ ok n | none ↦ err v ]

-- No name stands twice in the table.
abbrev pub IsDistinct : List Bytes → Type 0
IsDistinct [] = Unit
IsDistinct (n ∷ ns) = All (λ m. bytes_eq n m ≡ false) ns × IsDistinct ns

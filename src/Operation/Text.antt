-- ===== src/Operation/Text.antt =====
-- The tests of bytes and the functions of Go's `strings` that the operation/ package uses. A string
-- is the list of its bytes; Go's loops over the runes of a string agree with loops over its bytes,
-- since every byte of a longer rune is 128 or more and is refused alike.
pub mod Laws
use batch_weaver.Base.{
  ℕ, Bool, true, false, ◌&&◌, ◌||◌, List, [], ◌∷◌, ◌++◌, Option, none, some, Bytes, leb, ◌==◌, any,
  is_empty, if◌then◌else◌,
}

abbrev pub is_lower : ℕ → Bool
is_lower c = leb 97 c && leb c 122

abbrev pub is_upper : ℕ → Bool
is_upper c = leb 65 c && leb c 90

abbrev pub is_digit : ℕ → Bool
is_digit c = leb 48 c && leb c 57

abbrev pub is_space : ℕ → Bool
is_space c = c == 32 || (c == 9 || (c == 13 || c == 10))

-- The first part of a split, one byte longer.
abbrev pub cons_head : ℕ → List Bytes → List Bytes
cons_head c [] = (c ∷ []) ∷ []
cons_head c (x ∷ xs) = (c ∷ x) ∷ xs

-- `strings.Split` at one byte.
unfoldable pub split : ℕ → Bytes → List Bytes
split d [] = [] ∷ []
split d (c ∷ s) = let rest = split d s in if c == d then [] ∷ rest else cons_head c rest

-- `strings.Join` with one byte.
unfoldable pub join : ℕ → List Bytes → Bytes
join d [] = []
join d (x ∷ []) = x
join d (x ∷ y ∷ ys) = x ++ d ∷ join d (y ∷ ys)

-- `strings.HasPrefix`, giving what follows.
unfoldable pub after_prefix : Bytes → Bytes → Option Bytes
after_prefix [] s = some s
after_prefix (_ ∷ _) [] = none
after_prefix (p ∷ ps) (c ∷ s) = let rest = after_prefix ps s in if p == c then rest else none

-- The first occurrence is here, if there is one here, or it is the later one.
abbrev pub found_here : Option Bytes → Option (Bytes × Bytes) → Option (Bytes × Bytes)
found_here (some r) later = some ([], r)
found_here none later = later

abbrev pub after_byte : ℕ → Option (Bytes × Bytes) → Option (Bytes × Bytes)
after_byte c (some q) = some (c ∷ q.0, q.1)
after_byte c none = none

abbrev pub last_or_here : Option (Bytes × Bytes) → Option (Bytes × Bytes) → Option (Bytes × Bytes)
last_or_here (some q) here = some q
last_or_here none here = here

-- `strings.Index` with the slices before and after the occurrence.
unfoldable pub cut : Bytes → Bytes → Option (Bytes × Bytes)
unfolding after_prefix
cut p [] = found_here (after_prefix p []) none
cut p (c ∷ s) = found_here (after_prefix p (c ∷ s)) (after_byte c (cut p s))

-- `strings.LastIndex` of one byte, with the slices before and after it.
unfoldable pub cut_last : ℕ → Bytes → Option (Bytes × Bytes)
cut_last d [] = none
cut_last d (c ∷ s) =
    last_or_here (after_byte c (cut_last d s)) (if c == d then some ([], s) else none)

-- `strings.Contains`
unfoldable pub contains : Bytes → Bytes → Bool
unfolding cut
contains p s = elim (cut p s) [ some _ ↦ true | none ↦ false ]

-- `strings.ContainsAny`
abbrev pub contains_any : Bytes → Bytes → Bool
contains_any cs s = any (λ c. any (λ d. c == d) cs) s

-- `strings.HasSuffix` of one byte.
unfoldable pub ends_with : ℕ → Bytes → Bool
ends_with d [] = false
ends_with d (c ∷ s) = let rest = ends_with d s in if is_empty s then c == d else rest

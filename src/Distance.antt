-- ===== src/Distance.antt =====
-- internal/textdistance/distance.go: `Levenshtein` and `Closest`, which suggest configuration fields.
pub mod Laws
pub mod Closest
pub mod Least
mod Examples
use batch_weaver.Base.{
  ℕ, suc, ◌+◌, Bool, true, false, ◌&&◌, ◌||◌, List, [], ◌∷◌, Option, none, some, Bytes, bytes_eq,
  bytes_lt, length, ◌==◌, ltb, leb, if◌then◌else◌,
}

unfoldable pub min3 : ℕ → ℕ → ℕ → ℕ
min3 a b c = let m = if ltb b a then b else a in if ltb c m then c else m

abbrev pub cost : ℕ → ℕ → ℕ
cost x y = if x == y then 0 else 1

-- The first row, from a number on.
unfoldable pub first_row : ℕ → Bytes → List ℕ
first_row j [] = j ∷ []
first_row j (_ ∷ ys) = j ∷ first_row (suc j) ys

-- The inner loop: `left` is `curr[j-1]`, `diagonal` is `prev[j-1]`, and the list starts at `prev[j]`.
unfoldable pub row_from : ℕ → ℕ → ℕ → Bytes → List ℕ → List ℕ
row_from x left diagonal [] _ = []
row_from x left diagonal (_ ∷ _) [] = []
row_from x left diagonal (y ∷ ys) (above ∷ prev) =
    let v = min3 (left + 1) (above + 1) (diagonal + cost x y) in v ∷ row_from x v above ys prev

unfoldable pub next_row : ℕ → ℕ → Bytes → List ℕ → List ℕ
unfolding row_from
next_row i x ys [] = []
next_row i x ys (diagonal ∷ prev) = i ∷ row_from x i diagonal ys prev

-- The outer loop, over the rest of the first string.
unfoldable pub last_row : ℕ → Bytes → Bytes → List ℕ → List ℕ
last_row i [] ys prev = prev
last_row i (x ∷ xs) ys prev = last_row (suc i) xs ys (next_row (suc i) x ys prev)

unfoldable pub last_of : List ℕ → ℕ
last_of [] = 0
last_of (n ∷ []) = n
last_of (_ ∷ n ∷ ns) = last_of (n ∷ ns)

unfoldable pub levenshtein : Bytes → Bytes → ℕ
levenshtein a b =
    if bytes_eq a b
    then 0
    else if length a == 0
    then length b
    else if length b == 0
    then length a
    else last_of (last_row 0 a b (first_row 0 b))

-- The loop of `Closest`, with the best candidate so far and its distance.
unfoldable pub closest_from : Bytes → Bytes → ℕ → List Bytes → Bytes × ℕ
closest_from target best distance [] = (best, distance)
closest_from target best distance (c ∷ cs) =
    let d = levenshtein target c in
    let better = ltb d distance || (d == distance && bytes_lt c best) in
    closest_from target (if better then c else best) (if better then d else distance) cs

unfoldable pub closest : Bytes → List Bytes → ℕ → Option Bytes
closest target candidates limit =
    let (best, distance) = closest_from target [] (limit + 1) candidates in
    if leb distance limit then some best else none

-- ===== src/Distance/Examples.antt =====
-- Concrete strings, by their bytes.
use batch_weaver.Base.{ℕ, ◌≡◌, ◌≤◌, refl, [], ◌∷◌, some, Bytes, bytes_eq, bytes_lt, All}
use batch_weaver.Distance.{
  min3, first_row, row_from, next_row, last_row, last_of, levenshtein, closest_from, closest,
}
use batch_weaver.Distance.Least.{Edits, levenshtein-IsLeast}
use batch_weaver.Distance.Closest.{Among, closest-Among}

-- "wait", "weight" and "want"
abbrev wait_bytes : Bytes
wait_bytes = 119 ∷ 97 ∷ 105 ∷ 116 ∷ []

abbrev weight_bytes : Bytes
weight_bytes = 119 ∷ 101 ∷ 105 ∷ 103 ∷ 104 ∷ 116 ∷ []

abbrev want_bytes : Bytes
want_bytes = 119 ∷ 97 ∷ 110 ∷ 116 ∷ []

three_edits : levenshtein wait_bytes weight_bytes ≡ 3
unfolding levenshtein last_row next_row row_from first_row last_of min3 bytes_eq
three_edits = refl

suggested : closest wait_bytes (weight_bytes ∷ want_bytes ∷ []) 2 ≡ some want_bytes
unfolding closest closest_from levenshtein last_row next_row row_from first_row last_of min3
    bytes_eq bytes_lt
suggested = refl

levenshtein-IsLeast_example :
    Edits (levenshtein wait_bytes weight_bytes) wait_bytes weight_bytes
    × ((n : ℕ) → Edits n wait_bytes weight_bytes → levenshtein wait_bytes weight_bytes ≤ n)
levenshtein-IsLeast_example = levenshtein-IsLeast wait_bytes weight_bytes

closest-Among_example :
    Among want_bytes (weight_bytes ∷ want_bytes ∷ [])
    × (levenshtein wait_bytes want_bytes ≤ 2)
    × All
        (λ c. levenshtein wait_bytes want_bytes ≤ levenshtein wait_bytes c)
        (weight_bytes ∷ want_bytes ∷ [])
closest-Among_example =
    closest-Among wait_bytes want_bytes (weight_bytes ∷ want_bytes ∷ []) 2 suggested

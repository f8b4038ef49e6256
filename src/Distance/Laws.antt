-- ===== src/Distance/Laws.antt =====
-- The two rows of `Levenshtein` against the recursive edit distance, and what `Closest` finds
-- (internal/textdistance/distance.go).
use batch_weaver.Base.{
  ℕ, suc, ◌+◌, ◌≡◌, refl, sym, ap, true, inl, inr, List, [], ◌∷◌, Bytes, bytes_eq, eq_of_bytes_eq,
  length, ◌==◌, ==_refl, arith, Bool-cases,
}
use batch_weaver.Distance.{
  min3, cost, first_row, row_from, next_row, last_row, last_of, levenshtein,
}

-- One more byte `x` at the end of the first string, whose distance to every prefix is `d`.
abbrev pub extend : ℕ → ℕ → (Bytes → ℕ) → Bytes → ℕ
extend x n d [] = suc n
extend x n d (y ∷ ys) = min3 (extend x n d ys + 1) (d (y ∷ ys) + 1) (d ys + cost x y)

-- The edit distance of two strings that are read from their ends: the least number of insertions,
-- deletions and substitutions that ends with any of the three.
abbrev pub edit_distance : Bytes → Bytes → ℕ
edit_distance [] ys = length ys
edit_distance (x ∷ xs) ys = extend x (length xs) (edit_distance xs) ys

abbrev pub onto : Bytes → Bytes → Bytes
onto acc [] = acc
onto acc (x ∷ xs) = onto (x ∷ acc) xs

length-onto : (acc xs : Bytes) → length (onto acc xs) ≡ length acc + length xs
length-onto acc [] = omega arith
length-onto acc (x ∷ xs) = omega (arith, length-onto (x ∷ acc) xs)

-- The row of distances to the prefixes of the second string, from a read prefix on.
abbrev ideal : Bytes → Bytes → Bytes → List ℕ
ideal xs read [] = edit_distance xs read ∷ []
ideal xs read (y ∷ ys) = edit_distance xs read ∷ ideal xs (y ∷ read) ys

abbrev ideal_tail : Bytes → Bytes → Bytes → List ℕ
ideal_tail xs read [] = []
ideal_tail xs read (y ∷ ys) = ideal xs (y ∷ read) ys

ideal_lem : (xs read ys : Bytes) → ideal xs read ys ≡ edit_distance xs read ∷ ideal_tail xs read ys
ideal_lem xs read [] = refl
ideal_lem xs read (y ∷ ys) = refl

first_row-ideal : (read ys : Bytes) → first_row (length read) ys ≡ ideal [] read ys
unfolding first_row
first_row-ideal read [] = refl
first_row-ideal read (y ∷ ys) = ap (λ l. length read ∷ l) (first_row-ideal (y ∷ read) ys)

row_from-ideal :
    (x : ℕ) (xs read ys : Bytes)
    → row_from x (edit_distance (x ∷ xs) read) (edit_distance xs read) ys (ideal_tail xs read ys)
      ≡ ideal_tail (x ∷ xs) read ys
unfolding row_from
row_from-ideal x xs read [] = refl
row_from-ideal x xs read (y ∷ ys) =
    rw (ideal_lem xs (y ∷ read) ys, ideal_lem (x ∷ xs) (y ∷ read) ys)
      (ap (λ l. edit_distance (x ∷ xs) (y ∷ read) ∷ l) (row_from-ideal x xs (y ∷ read) ys))

next_row-ideal :
    (x : ℕ) (xs ys : Bytes)
    → next_row (suc (length xs)) x ys (ideal xs [] ys) ≡ ideal (x ∷ xs) [] ys
unfolding next_row
next_row-ideal x xs ys =
    rw (ideal_lem xs [] ys, ideal_lem (x ∷ xs) [] ys)
      (ap (λ l. suc (length xs) ∷ l) (row_from-ideal x xs [] ys))

last_row-ideal :
    (read xs ys : Bytes)
    → last_row (length read) xs ys (ideal read [] ys) ≡ ideal (onto read xs) [] ys
unfolding last_row
last_row-ideal read [] ys = refl
last_row-ideal read (x ∷ xs) ys = rw (next_row-ideal x read ys) (last_row-ideal (x ∷ read) xs ys)

last_of-ideal : (xs read ys : Bytes) → last_of (ideal xs read ys) ≡ edit_distance xs (onto read ys)
unfolding last_of
last_of-ideal xs read [] = refl
last_of-ideal xs read (y ∷ []) = refl
last_of-ideal xs read (y ∷ z ∷ ys) = last_of-ideal xs (y ∷ read) (z ∷ ys)

edit_distance_refl : (xs : Bytes) → edit_distance xs xs ≡ 0
unfolding min3
edit_distance_refl [] = refl
edit_distance_refl (x ∷ xs) = ground (arith, edit_distance_refl xs, ==_refl x)

pub edit_distance-nil : (xs : Bytes) → edit_distance xs [] ≡ length xs
edit_distance-nil [] = refl
edit_distance-nil (x ∷ xs) = refl

empty_length : (xs : Bytes) → (length xs == 0) ≡ true → xs ≡ []
empty_length [] h = refl
empty_length (x ∷ xs) h = absurd (ground (arith, h))

-- The two rows compute the edit distance: `Levenshtein` of any two strings is the recursive edit
-- distance of the strings read from their ends.
pub levenshtein-edit_distance :
    (a b : Bytes) → levenshtein a b ≡ edit_distance (onto [] a) (onto [] b)
unfolding levenshtein
levenshtein-edit_distance a b = elim (Bool-cases (bytes_eq a b)) [
  | inl e ↦ rw (e, levenshtein, eq_of_bytes_eq a b e) (sym (edit_distance_refl (onto [] b)))
  | inr e ↦ elim (Bool-cases (length a == 0)) [
    | inl n ↦ rw (e, n, levenshtein) (rw (empty_length a n) (omega (arith, length-onto [] b)))
    | inr n ↦ elim (Bool-cases (length b == 0)) [
      | inl m ↦
          rw (e, n, m, levenshtein)
            (rw (empty_length b m) (omega (arith, edit_distance-nil (onto [] a), length-onto [] a)))
      | inr m ↦
          rw (e, n, m, levenshtein)
            (rw (first_row-ideal [] b)
              (rw (last_row-ideal [] a b) (last_of-ideal (onto [] a) [] b)))
    ]
  ]
]

-- ===== src/Distance/Least.antt =====
-- What `Levenshtein` computes, said without it (internal/textdistance/distance.go).
use batch_weaver.Base.{
  ℕ, suc, ◌+◌, ◌≤◌, ◌≡◌, refl, ◌∙◌, subst, ◌⊎◌, inl, inr, [], ◌∷◌, ◌++◌, append-nil, Bytes, length,
  ◌==◌, ==_iff, ==_refl, arith, Bool-cases,
}
use batch_weaver.Distance.{min3, cost, levenshtein}
use batch_weaver.Distance.Laws.{
  edit_distance, edit_distance-nil, extend, onto, levenshtein-edit_distance,
}

-- The first string becomes the second one by so many insertions, deletions and substitutions of a
-- byte.
pub data Edits : ℕ → Bytes → Bytes → Type 0 where
  done : Edits 0 [] []
  keep : {n : ℕ} {xs ys : Bytes} (x : ℕ) → Edits n xs ys → Edits n (x ∷ xs) (x ∷ ys)
  change : {n : ℕ} {xs ys : Bytes} (x y : ℕ) → Edits n xs ys → Edits (n + 1) (x ∷ xs) (y ∷ ys)
  insert : {n : ℕ} {xs ys : Bytes} (y : ℕ) → Edits n xs ys → Edits (n + 1) xs (y ∷ ys)
  delete : {n : ℕ} {xs ys : Bytes} (x : ℕ) → Edits n xs ys → Edits (n + 1) (x ∷ xs) ys

one_more : (n : ℕ) → n + 1 ≡ suc n
one_more n = omega arith

insertions : (ys : Bytes) → Edits (length ys) [] ys
insertions [] = done
insertions (y ∷ ys) =
    subst (λ n. Edits n [] (y ∷ ys)) (one_more (length ys)) (insert y (insertions ys))

deletions : (xs : Bytes) → Edits (length xs) xs []
deletions [] = done
deletions (x ∷ xs) =
    subst (λ n. Edits n (x ∷ xs) []) (one_more (length xs)) (delete x (deletions xs))

min3-cases : (a b c : ℕ) → (min3 a b c ≡ a) ⊎ (min3 a b c ≡ b) ⊎ (min3 a b c ≡ c)
unfolding min3
min3-cases a b c = ground arith

min3_le : (a b c : ℕ) → (min3 a b c ≤ a) × (min3 a b c ≤ b) × (min3 a b c ≤ c)
unfolding min3
min3_le a b c = (ground arith, ground arith, ground arith)

replace : (x y : ℕ) {n : ℕ} {xs ys : Bytes} → Edits n xs ys → Edits (n + cost x y) (x ∷ xs) (y ∷ ys)
replace x y {n} {xs} {ys} e = elim (Bool-cases (x == y)) [
  | inr k ↦ rw k (change x y e)
  | inl k ↦
      let same : x ≡ y = (==_iff x y).0 k in
      let kept : Edits n (x ∷ xs) (y ∷ ys) =
        subst (λ z. Edits n (x ∷ xs) (z ∷ ys)) same (keep x e) in
      rw k (subst (λ m. Edits m (x ∷ xs) (y ∷ ys)) (as_is n) kept)
]
  where
    as_is : (n : ℕ) → n ≡ n + 0
    as_is n = omega arith

-- There are so many edits.
extend-Edits :
    (x : ℕ) (xs : Bytes)
    → ((ys : Bytes) → Edits (edit_distance xs ys) xs ys)
    → (ys : Bytes) → Edits (extend x (length xs) (edit_distance xs) ys) (x ∷ xs) ys
extend-Edits x xs f [] = deletions (x ∷ xs)
extend-Edits x xs f (y ∷ ys) =
    let left = extend x (length xs) (edit_distance xs) ys + 1 in
    let above = edit_distance xs (y ∷ ys) + 1 in
    let diagonal = edit_distance xs ys + cost x y in
    elim (min3-cases left above diagonal) [
      | inl e ↦ rw e (insert y (extend-Edits x xs f ys))
      | inr (inl e) ↦ rw e (delete x (f (y ∷ ys)))
      | inr (inr e) ↦ rw e (replace x y (f ys))
    ]

edit_distance-Edits : (xs ys : Bytes) → Edits (edit_distance xs ys) xs ys
edit_distance-Edits [] ys = insertions ys
edit_distance-Edits (x ∷ xs) ys = extend-Edits x xs (edit_distance-Edits xs) ys

-- Fewer edits are not enough.
insert_le : (xs ys : Bytes) (y : ℕ) → edit_distance xs (y ∷ ys) ≤ edit_distance xs ys + 1
insert_le [] ys y = omega arith
insert_le (x ∷ xs) ys y = (min3_le _ _ _).0

delete_le : (xs ys : Bytes) (x : ℕ) → edit_distance (x ∷ xs) ys ≤ edit_distance xs ys + 1
delete_le xs [] x = omega (arith, edit_distance-nil xs)
delete_le xs (y ∷ ys) x = (min3_le _ _ _).1

replace_le :
    (xs ys : Bytes) (x y : ℕ) → edit_distance (x ∷ xs) (y ∷ ys) ≤ edit_distance xs ys + cost x y
replace_le xs ys x y = (min3_le _ _ _).2

cost_le : (x y : ℕ) → cost x y ≤ 1
cost_le x y = ground arith

cost_same : (x : ℕ) → cost x x ≡ 0
cost_same x = rw (==_refl x) refl

edit_distance_le : {n : ℕ} {xs ys : Bytes} → Edits n xs ys → edit_distance xs ys ≤ n
edit_distance_le done = omega arith
edit_distance_le (keep {n} {xs} {ys} x e) =
    omega (arith, edit_distance_le e, replace_le xs ys x x, cost_same x)
edit_distance_le (change {n} {xs} {ys} x y e) =
    omega (arith, edit_distance_le e, replace_le xs ys x y, cost_le x y)
edit_distance_le (insert {n} {xs} {ys} y e) = omega (arith, edit_distance_le e, insert_le xs ys y)
edit_distance_le (delete {n} {xs} {ys} x e) = omega (arith, edit_distance_le e, delete_le xs ys x)

-- Edits can be read from the other end.
one_later : (n m : ℕ) → n + (m + 1) ≡ n + 1 + m
one_later n m = omega arith

onto-Edits :
    {n m : ℕ} {xs ys us vs : Bytes}
    → Edits n xs ys
    → Edits m us vs
    → Edits (n + m) (onto us xs) (onto vs ys)
onto-Edits {m = m} {us = us} {vs = vs} done d = subst (λ k. Edits k us vs) (all m) d
  where
    all : (m : ℕ) → m ≡ 0 + m
    all m = omega arith
onto-Edits (keep x e) d = onto-Edits e (keep x d)
onto-Edits {m = m} {us = us} {vs = vs} (change {n} {xs} {ys} x y e) d =
    subst (λ k. Edits k (onto (x ∷ us) xs) (onto (y ∷ vs) ys)) (one_later n m)
      (onto-Edits e (change x y d))
onto-Edits {m = m} {us = us} {vs = vs} (insert {n} {xs} {ys} y e) d =
    subst (λ k. Edits k (onto us xs) (onto (y ∷ vs) ys)) (one_later n m) (onto-Edits e (insert y d))
onto-Edits {m = m} {us = us} {vs = vs} (delete {n} {xs} {ys} x e) d =
    subst (λ k. Edits k (onto (x ∷ us) xs) (onto vs ys)) (one_later n m) (onto-Edits e (delete x d))

reversed_Edits : {n : ℕ} {xs ys : Bytes} → Edits n xs ys → Edits n (onto [] xs) (onto [] ys)
reversed_Edits {n} {xs} {ys} e =
    subst (λ k. Edits k (onto [] xs) (onto [] ys)) (all n) (onto-Edits e done)
  where
    all : (n : ℕ) → n + 0 ≡ n
    all n = omega arith

onto-onto : (xs ys zs : Bytes) → onto zs (onto ys xs) ≡ onto (xs ++ zs) ys
onto-onto [] ys zs = refl
onto-onto (x ∷ xs) ys zs = onto-onto xs (x ∷ ys) zs

onto_twice : (xs : Bytes) → onto [] (onto [] xs) ≡ xs
onto_twice xs = onto-onto xs [] [] ∙ append-nil xs

-- `Levenshtein` is the least number of edits: its first string becomes its second one by so many
-- insertions, deletions and substitutions of a byte, and by no fewer.
pub levenshtein-IsLeast :
    (a b : Bytes) → Edits (levenshtein a b) a b × ((n : ℕ) → Edits n a b → levenshtein a b ≤ n)
levenshtein-IsLeast a b =
    let d = edit_distance (onto [] a) (onto [] b) in
    let back : Edits d (onto [] (onto [] a)) (onto [] (onto [] b)) =
      reversed_Edits (edit_distance-Edits (onto [] a) (onto [] b)) in
    rw (levenshtein-edit_distance a b) (
      subst (λ x. Edits d x b) (onto_twice a)
          (subst (λ y. Edits d (onto [] (onto [] a)) y) (onto_twice b) back),
      λ n e. edit_distance_le (reversed_Edits e),
    )

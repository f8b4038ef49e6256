-- ===== src/Distance/Closest.antt =====
-- What `Closest` suggests (internal/textdistance/distance.go).
use batch_weaver.Base.{
  ℕ, ◌+◌, ◌≤◌, ◌≡◌, refl, ◌∙◌, sym, ap, subst, Bool, true, false, ◌&&◌, ◌||◌, ◌⊎◌, inl, inr, List,
  [], ◌∷◌, some, Bytes, bytes_lt, ◌==◌, ltb, leb, arith, Bool-cases, All,
}
use batch_weaver.Distance.{levenshtein, closest_from, closest}

-- The string is one of the candidates.
abbrev pub Among : Bytes → List Bytes → Type 0
Among b [] = ⊥
Among b (c ∷ cs) = (b ≡ c) ⊎ Among b cs

-- Is a candidate better than the best so far?
abbrev better : Bytes → Bytes → ℕ → Bytes → Bool
better target best d c =
    ltb (levenshtein target c) d || (levenshtein target c == d && bytes_lt c best)

closest_from_nil : (target best : Bytes) (d : ℕ) → closest_from target best d [] ≡ (best, d)
unfolding closest_from
closest_from_nil target best d = refl

closest_from-better :
    (target best : Bytes) (d : ℕ) (c : Bytes) (cs : List Bytes)
    → better target best d c ≡ true
    → closest_from target best d (c ∷ cs) ≡ closest_from target c (levenshtein target c) cs
unfolding closest_from
closest_from-better target best d c cs e = rw (e, closest_from) refl

closest_from_worse :
    (target best : Bytes) (d : ℕ) (c : Bytes) (cs : List Bytes)
    → better target best d c ≡ false
    → closest_from target best d (c ∷ cs) ≡ closest_from target best d cs
unfolding closest_from
closest_from_worse target best d c cs e = rw (e, closest_from) refl

-- A result of the loop is what it started from, or a candidate with its own distance.
abbrev Found : Bytes → Bytes → ℕ → List Bytes → Bytes × ℕ → Type 0
Found target best d cs r =
    ((r.0 ≡ best) × (r.1 ≡ d)) ⊎ (Among r.0 cs × (r.1 ≡ levenshtein target r.0) × (r.1 ≤ d))

closest_from-Among :
    (target best : Bytes) (d : ℕ) (cs : List Bytes)
    → Found target best d cs (closest_from target best d cs)
closest_from-Among target best d [] = rw (closest_from_nil target best d) (inl (refl, refl))
closest_from-Among target best d (c ∷ cs) = elim (Bool-cases (better target best d c)) [
  | inl e ↦
      subst (Found target best d (c ∷ cs)) (sym (closest_from-better target best d c cs e))
        (elim (closest_from-Among target c (levenshtein target c) cs) [
          | inl h ↦ inr (inl h.0, h.1 ∙ ap (levenshtein target) (sym h.0), ground (arith, e, h.1))
          | inr h ↦ inr (inr h.0, h.1, ground (arith, e, h.2))
        ])
  | inr e ↦
      subst (Found target best d (c ∷ cs)) (sym (closest_from_worse target best d c cs e))
        (elim (closest_from-Among target best d cs) [
          | inl h ↦ inl h
          | inr h ↦ inr (inr h.0, h.1, h.2)
        ])
]

-- A distance that neither the start nor a candidate undercuts.
abbrev Least : Bytes → ℕ → List Bytes → Bytes × ℕ → Type 0
Least target d cs r = (r.1 ≤ d) × All (λ c. r.1 ≤ levenshtein target c) cs

closest_from-Least :
    (target best : Bytes) (d : ℕ) (cs : List Bytes)
    → Least target d cs (closest_from target best d cs)
closest_from-Least target best d [] = rw (closest_from_nil target best d) (omega arith, tt)
closest_from-Least target best d (c ∷ cs) = elim (Bool-cases (better target best d c)) [
  | inl e ↦
      let r = closest_from-Least target c (levenshtein target c) cs in
      subst (Least target d (c ∷ cs)) (sym (closest_from-better target best d c cs e))
        (ground (arith, e, r.0), (r.0, r.1))
  | inr e ↦
      let r = closest_from-Least target best d cs in
      subst (Least target d (c ∷ cs)) (sym (closest_from_worse target best d c cs e))
        (r.0, (ground (arith, e, r.0), r.1))
]

-- A suggestion is one of the candidates, lies within the allowed distance, and no candidate is
-- nearer.
pub closest-Among :
    (target b : Bytes) (cs : List Bytes) (limit : ℕ)
    → closest target cs limit ≡ some b
    → Among b cs
      × (levenshtein target b ≤ limit)
      × All (λ c. levenshtein target b ≤ levenshtein target c) cs
unfolding closest
closest-Among target b cs limit h =
    elim (Bool-cases (leb (closest_from target [] (limit + 1) cs).1 limit)) [
      | inr no_ ↦ absurd (ground (arith, h, no_))
      | inl near ↦ elim (closest_from-Among target [] (limit + 1) cs) [
        | inl k ↦ absurd (ground (arith, near, k.1))
        | inr k ↦
            let found = closest_from target [] (limit + 1) cs in
            let least = closest_from-Least target [] (limit + 1) cs in
            let same : found.0 ≡ b = ground (arith, h, near) in
            subst
              (λ x.
                Among x cs
                × (levenshtein target x ≤ limit)
                × All (λ c. levenshtein target x ≤ levenshtein target c) cs)
              same
              (
                k.0,
                ground (arith, near, k.1),
                subst (λ n. All (λ c. n ≤ levenshtein target c) cs) k.1 least.1,
              )
      ]
    ]

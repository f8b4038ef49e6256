-- ===== src/Operation/Text/Laws.antt =====
-- Cutting and splitting lose nothing: the parts put together are the string.
use batch_weaver.Base.{
  ℕ, ◌≡◌, refl, sym, ap, ◌∙◌, inl, inr, Bool, true, false, List, [], ◌∷◌, ◌++◌, Option, none, some,
  arith, Bytes, ◌==◌, Bool-cases, is_empty, if◌then◌else◌,
}
use batch_weaver.Operation.Text.{
  cons_head, split, join, after_prefix, cut, cut_last, found_here, after_byte, last_or_here,
}

abbrev pub IsCons {ℓ} : {A : Type ℓ} → List A → Type 0
IsCons xs = is_empty xs ≡ false

cons_head-IsCons : (c : ℕ) (xs : List Bytes) → IsCons (cons_head c xs)
cons_head-IsCons c [] = refl
cons_head-IsCons c (x ∷ xs) = refl

pub split-IsCons : (d : ℕ) (s : Bytes) → IsCons (split d s)
unfolding split
split-IsCons d [] = refl
split-IsCons d (c ∷ s) = elim (Bool-cases (c == d)) [
  | inl e ↦ rw e refl
  | inr e ↦ rw e (cons_head-IsCons c (split d s))
]

join-nil_part : (d : ℕ) (xs : List Bytes) → IsCons xs → join d ([] ∷ xs) ≡ d ∷ join d xs
unfolding join
join-nil_part d [] h = ground arith
join-nil_part d (x ∷ xs) h = refl

join-cons_head : (d c : ℕ) (xs : List Bytes) → join d (cons_head c xs) ≡ c ∷ join d xs
unfolding join
join-cons_head d c [] = refl
join-cons_head d c (x ∷ []) = refl
join-cons_head d c (x ∷ y ∷ ys) = refl

pub eq_byte : (c d : ℕ) → (c == d) ≡ true → d ≡ c
eq_byte c d h = ground (arith, h)

pub join-split : (d : ℕ) (s : Bytes) → join d (split d s) ≡ s
unfolding split join
join-split d [] = refl
join-split d (c ∷ s) = elim (Bool-cases (c == d)) [
  | inl e ↦ rw e (
      join-nil_part d (split d s) (split-IsCons d s)
      ∙ (ap (λ r. d ∷ r) (join-split d s) ∙ ap (λ r. r ∷ s) (eq_byte c d e)))
  | inr e ↦ rw e (join-cons_head d c (split d s) ∙ ap (λ r. c ∷ r) (join-split d s))
]

after_prefix-append : (p s r : Bytes) → after_prefix p s ≡ some r → p ++ r ≡ s
unfolding after_prefix
after_prefix-append [] s r h = cc
after_prefix-append (x ∷ p) [] r h = cc
after_prefix-append (x ∷ p) (c ∷ s) r h = elim (Bool-cases (x == c)) [
  | inl e ↦
      ap (λ t. x ∷ t) (after_prefix-append p s r (ground (arith, e)))
      ∙ ap (λ y. y ∷ s) (eq_byte c x (ground (arith, e)))
  | inr e ↦ ground (arith, e)
]

-- The parts of a cut, put together around the pattern.
abbrev pub glue : Bytes → Bytes × Bytes → Bytes
glue p q = q.0 ++ (p ++ q.1)

abbrev glued : Bytes → Option (Bytes × Bytes) → Bytes
glued p (some q) = glue p q
glued p none = []

-- Wherever a cut is, its parts make up the string.
abbrev pub IsCutOf : Bytes → Bytes → Option (Bytes × Bytes) → Type 0
IsCutOf p s o = (q : Bytes × Bytes) → o ≡ some q → glue p q ≡ s

some-glue : (p : Bytes) (q r : Bytes × Bytes) → some q ≡ some r → glue p r ≡ glue p q
some-glue p q r h = sym (ap (glued p) h)

found_here-IsCutOf :
    (p s : Bytes) (o : Option Bytes) (later : Option (Bytes × Bytes))
    → ((r : Bytes) → o ≡ some r → p ++ r ≡ s)
    → IsCutOf p s later
    → IsCutOf p s (found_here o later)
found_here-IsCutOf p s (some r) later here there q h = some-glue p ([], r) q h ∙ here r refl
found_here-IsCutOf p s none later here there q h = there q h

last_or_here-IsCutOf :
    (p s : Bytes) (a b : Option (Bytes × Bytes))
    → IsCutOf p s a
    → IsCutOf p s b
    → IsCutOf p s (last_or_here a b)
last_or_here-IsCutOf p s (some x) b there here q h = there q h
last_or_here-IsCutOf p s none b there here q h = here q h

after_byte-IsCutOf :
    (p s : Bytes) (c : ℕ) (o : Option (Bytes × Bytes))
    → IsCutOf p s o
    → IsCutOf p (c ∷ s) (after_byte c o)
after_byte-IsCutOf p s c (some x) there q h =
    some-glue p (c ∷ x.0, x.1) q h ∙ ap (λ r. c ∷ r) (there x refl)
after_byte-IsCutOf p s c none there q h = cc

none-IsCutOf : (p s : Bytes) → IsCutOf p s none
none-IsCutOf p s q h = cc

pub cut-IsCutOf : (p s : Bytes) → IsCutOf p s (cut p s)
unfolding cut
cut-IsCutOf p [] =
    found_here-IsCutOf p [] (after_prefix p []) none (after_prefix-append p []) (none-IsCutOf p [])
cut-IsCutOf p (c ∷ s) =
    found_here-IsCutOf p (c ∷ s) (after_prefix p (c ∷ s)) (after_byte c (cut p s))
      (after_prefix-append p (c ∷ s)) (after_byte-IsCutOf p s c (cut p s) (cut-IsCutOf p s))

here-IsCutOf :
    (d c : ℕ) (s : Bytes) (b : Bool)
    → (c == d) ≡ b
    → IsCutOf (d ∷ []) (c ∷ s) (if b then some ([], s) else none)
here-IsCutOf d c s true e q h = some-glue (d ∷ []) ([], s) q h ∙ ap (λ r. r ∷ s) (eq_byte c d e)
here-IsCutOf d c s false e q h = none-IsCutOf (d ∷ []) (c ∷ s) q h

pub cut_last-IsCutOf : (d : ℕ) (s : Bytes) → IsCutOf (d ∷ []) s (cut_last d s)
unfolding cut_last
cut_last-IsCutOf d [] = none-IsCutOf (d ∷ []) []
cut_last-IsCutOf d (c ∷ s) =
    last_or_here-IsCutOf (d ∷ []) (c ∷ s) (after_byte c (cut_last d s))
      (if c == d then some ([], s) else none)
      (after_byte-IsCutOf (d ∷ []) s c (cut_last d s) (cut_last-IsCutOf d s))
      (here-IsCutOf d c s (c == d) refl)

pub cut-append : (p s : Bytes) (q : Bytes × Bytes) → cut p s ≡ some q → glue p q ≡ s
cut-append = cut-IsCutOf

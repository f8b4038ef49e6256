-- ===== src/Message/Ids.antt =====
-- Sets of request identifiers, as the duplicate checks of request.go and response.go build them.
use batch_weaver.Base.{ℕ, ◌≡◌, refl, Bool, true, false, List, [], ◌∷◌, arith, ◌==◌, any}

abbrev pub mem : ℕ → List ℕ → Bool
mem a = any (λ b. b == a)

-- No identifier occurs twice.
abbrev pub Distinct : List ℕ → Type 0
Distinct [] = Unit {0}
Distinct (x ∷ xs) = (mem x xs ≡ false) × Distinct xs

-- No identifier of the first list occurs in the second.
abbrev pub Apart : List ℕ → List ℕ → Type 0
Apart [] seen = Unit {0}
Apart (x ∷ xs) seen = (mem x seen ≡ false) × Apart xs seen

pub Apart-nil : (xs : List ℕ) → Apart xs []
Apart-nil [] = tt
Apart-nil (x ∷ xs) = (refl, Apart-nil xs)

pub Apart-cons :
    (x : ℕ) (xs seen : List ℕ) → Apart xs (x ∷ seen) → Apart xs seen × (mem x xs ≡ false)
Apart-cons x [] seen h = (tt, refl)
Apart-cons x (y ∷ ys) seen h = ground (arith, Apart-cons x ys seen h.1)

pub cons-Apart : (x : ℕ) (xs seen : List ℕ) → Apart xs seen → mem x xs ≡ false → Apart xs (x ∷ seen)
cons-Apart x [] seen h m = tt
cons-Apart x (y ∷ ys) seen h m = ground (arith, cons-Apart x ys seen h.1)

-- Every identifier of the first list occurs in the second.
abbrev pub Within : List ℕ → List ℕ → Type 0
Within [] ys = Unit {0}
Within (x ∷ xs) ys = (mem x ys ≡ true) × Within xs ys

pub Within-mem : (a : ℕ) (xs ys : List ℕ) → Within xs ys → mem a xs ≡ true → mem a ys ≡ true
Within-mem a [] ys w h = ground arith
Within-mem a (x ∷ xs) ys w h = ground (arith, Within-mem a xs ys w.1)

pub Within-cons : (y : ℕ) (xs ys : List ℕ) → Within xs ys → Within xs (y ∷ ys)
Within-cons y [] ys w = tt
Within-cons y (x ∷ xs) ys w = ground (arith, Within-cons y xs ys w.1)

pub Within-refl : (xs : List ℕ) → Within xs xs
Within-refl [] = tt
Within-refl (x ∷ xs) = ground (arith, Within-cons x xs xs (Within-refl xs))

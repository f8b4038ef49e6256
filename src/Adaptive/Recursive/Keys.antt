-- ===== src/Adaptive/Recursive/Keys.antt =====
-- Lists of keys: what stands in which, and the roots of a traversal (`dedupKeys`).
use batch_weaver.Base.{
  ◌≡◌, refl, sym, ◌∙◌, subst, inl, inr, Bool, true, false, List, [], ◌∷◌, ◌++◌, arith, any, All,
  Bool-cases, if◌then◌else◌,
}
use batch_weaver.Adaptive.Recursive.{dedup_keys}
use batch_weaver.Adaptive.Recursive.Nodes.{IsDistinct, IsApart, any-append}

module _ {K : Type 0} (eq : K → K → Bool) (same : (a b : K) → eq a b ≡ true → a ≡ b)
    (itself : (a : K) → eq a a ≡ true) where
  -- Every key of the first list stands in the second.
  abbrev pub IsIn : List K → List K → Type 0
  IsIn xs ys = All (λ x. any (eq x) ys ≡ true) xs

  pub known-apart :
      (x : K) (ys vs : List K) → any (eq x) vs ≡ true → IsApart eq ys vs → any (eq x) ys ≡ false
  known-apart x [] vs h a = refl
  known-apart x (y ∷ ys) vs h a = elim (Bool-cases (eq x y)) [
    | inr e ↦ ground (arith, e, known-apart x ys vs h a.1)
    | inl e ↦ ground (arith, h, subst (λ z. any (eq z) vs ≡ false) (sym (same x y e)) a.0)
  ]

  pub IsIn-IsApart : (xs ys vs : List K) → IsIn xs vs → IsApart eq ys vs → IsApart eq xs ys
  IsIn-IsApart [] ys vs h a = tt
  IsIn-IsApart (x ∷ xs) ys vs h a = (known-apart x ys vs h.0 a, IsIn-IsApart xs ys vs h.1 a)

  pub IsIn-right : (xs ys zs : List K) → IsIn xs zs → IsIn xs (ys ++ zs)
  IsIn-right [] ys zs h = tt
  IsIn-right (x ∷ xs) ys zs h =
      (any-append eq (eq x) ys zs ∙ ground (arith, h.0), IsIn-right xs ys zs h.1)

  pub IsIn-prefix : (xs ys zs : List K) → IsIn (xs ++ ys) zs → IsIn xs zs
  IsIn-prefix [] ys zs h = tt
  IsIn-prefix (x ∷ xs) ys zs h = (h.0, IsIn-prefix xs ys zs h.1)

  IsIn-cons : (x : K) (xs zs : List K) → IsIn xs zs → IsIn xs (x ∷ zs)
  IsIn-cons x xs zs h = IsIn-right xs (x ∷ []) zs h

  pub IsIn-itself : (xs zs : List K) → IsIn xs (xs ++ zs)
  IsIn-itself [] zs = tt
  IsIn-itself (x ∷ xs) zs =
      (ground (arith, itself x), IsIn-cons x xs (xs ++ zs) (IsIn-itself xs zs))

  IsIn-all : (xs : List K) → IsIn xs xs
  IsIn-all [] = tt
  IsIn-all (x ∷ xs) = (ground (arith, itself x), IsIn-cons x xs xs (IsIn-all xs))

  IsApart-tail : (x : K) (xs vs : List K) → IsApart eq xs (x ∷ vs) → IsApart eq xs vs
  IsApart-tail x [] vs h = tt
  IsApart-tail x (y ∷ ys) vs h = (ground (arith, h.0), IsApart-tail x ys vs h.1)

  -- A frontier to begin with: new keys, each once, all visited then.
  abbrev pub IsStart : List K → List K × List K → Type 0
  IsStart visited r =
      IsDistinct eq (r.0) × IsApart eq (r.0) visited × IsIn (r.0) (r.1) × IsIn visited (r.1)

  IsStart-if :
      (visited : List K) (k : K) (b : Bool) (again later : List K × List K)
      → any (eq k) visited ≡ b
      → IsStart visited again
      → IsStart (k ∷ visited) later
      → IsStart visited (if b then again else (k ∷ later.0, later.1))
  IsStart-if visited k true again later e h g = h
  IsStart-if visited k false again later e h (d, a, n, v) = (
    (known-apart k (later.0) (k ∷ visited) (ground (arith, itself k)) a, d),
    (e, IsApart-tail k (later.0) visited a),
    (v.0, n),
    v.1,
  )

  pub dedup_keys-IsStart : (visited ks : List K) → IsStart visited (dedup_keys eq visited ks)
  unfolding dedup_keys
  dedup_keys-IsStart visited [] = (tt, tt, tt, IsIn-all visited)
  dedup_keys-IsStart visited (k ∷ ks) =
      IsStart-if visited k (any (eq k) visited) (dedup_keys eq visited ks)
        (dedup_keys eq (k ∷ visited) ks) refl (dedup_keys-IsStart visited ks)
        (dedup_keys-IsStart (k ∷ visited) ks)

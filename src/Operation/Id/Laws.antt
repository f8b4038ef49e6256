-- ===== src/Operation/Id/Laws.antt =====
-- What operation/id.go accepts.
use batch_weaver.Base.{
  ℕ, suc, ◌≤◌, ◌≡◌, refl, subst, ◌↔◌, inl, inr, Bool, true, false, ◌||◌, List, [], ◌∷◌, none, arith,
  Bytes, ◌==◌, Bool-cases, Option-cases, is_empty, length, All, All-append, guards, or_else,
  guards-IsPassed, guards-none, or_else-none, if◌then◌else◌, ok,
}
use batch_weaver.Operation.Text.{
  is_lower, is_digit, contains_any, cons_head, split, join, ends_with,
}
use batch_weaver.Operation.Text.Laws.{IsCons, split-IsCons, join-split}
use batch_weaver.Operation.Id.{
  is_separator, check_characters, validate_segment, check_segments, is_reserved, segment_size,
  segment_separators, id_shape, id_prefix, starts_with_dot, validate_id, parse_id, segments,
  max_id_bytes,
}

-- The characters of segments and the dot.
abbrev IsPlain : ℕ → Type 0
IsPlain c = contains_any (32 ∷ 9 ∷ 13 ∷ 10 ∷ []) (c ∷ []) ≡ false

check_characters-IsPlain : (i : ℕ) (s : Bytes) → check_characters i s ≡ none → All IsPlain s
unfolding check_characters
check_characters-IsPlain i [] h = tt
check_characters-IsPlain i (c ∷ s) h = elim (Bool-cases (is_lower c)) [
  | inl e ↦ (ground (arith, e), check_characters-IsPlain (suc i) s (ground (arith, e)))
  | inr e ↦ elim (Bool-cases (i == 0)) [
    | inl k ↦ ground (arith, e, k)
    | inr k ↦ elim (Bool-cases (is_digit c || is_separator c)) [
      | inl l ↦ (ground (arith, l), check_characters-IsPlain (suc i) s (ground (arith, e, k, l)))
      | inr l ↦ ground (arith, e, k, l)
    ]
  ]
]

-- The segment is accepted.
abbrev pub IsSegment : Bytes → Type 0
IsSegment s = validate_segment s ≡ none

IsSegment-IsCons : (s : Bytes) → IsSegment s → IsCons s
unfolding validate_segment
IsSegment-IsCons s h =
    (guards-IsPassed (segment_size s)
      (or_else-none (guards (segment_size s))
        (or_else (check_characters 0 s) (guards (segment_separators s))) h).0).0

IsSegment-IsPlain : (s : Bytes) → IsSegment s → All IsPlain s
unfolding validate_segment
IsSegment-IsPlain s h =
    check_characters-IsPlain 0 s
      (or_else-none (check_characters 0 s) (guards (segment_separators s))
        (or_else-none (guards (segment_size s))
          (or_else (check_characters 0 s) (guards (segment_separators s))) h).1).0

check_segments-IsSegment : (i : ℕ) (ss : List Bytes) → check_segments i ss ≡ none → All IsSegment ss
unfolding check_segments
check_segments-IsSegment i [] h = tt
check_segments-IsSegment i (s ∷ ss) h = elim (Option-cases (validate_segment s)) [
  | inl e ↦ (e, check_segments-IsSegment (suc i) ss (ground (arith, e)))
  | inr (x, e) ↦ ground (arith, e)
]

check_segments-none : (i : ℕ) (ss : List Bytes) → All IsSegment ss → check_segments i ss ≡ none
unfolding check_segments
check_segments-none i [] h = refl
check_segments-none i (s ∷ ss) h = rw (h.0) (check_segments-none (suc i) ss h.1)

All-join : (P : ℕ → Type 0) (d : ℕ) (xs : List Bytes) → P d → All (All P) xs → All P (join d xs)
unfolding join
All-join P d [] p h = tt
All-join P d (x ∷ []) p h = h.0
All-join P d (x ∷ y ∷ ys) p h =
    All-append P x (d ∷ join d (y ∷ ys)) h.0 (p, All-join P d (y ∷ ys) p h.1)

All-map : (P Q : Bytes → Type 0) (xs : List Bytes) → ((x : Bytes) → P x → Q x) → All P xs → All Q xs
All-map P Q [] f h = tt
All-map P Q (x ∷ xs) f h = (f x h.0, All-map P Q xs f h.1)

plain-contains_any : (s : Bytes) → All IsPlain s → contains_any (32 ∷ 9 ∷ 13 ∷ 10 ∷ []) s ≡ false
plain-contains_any [] h = refl
plain-contains_any (c ∷ s) h = ground (arith, h.0, plain-contains_any s h.1)

-- Valid segments leave no room for whitespace.
segments-contains_any :
    (v : Bytes) → All IsSegment (split 46 v) → contains_any (32 ∷ 9 ∷ 13 ∷ 10 ∷ []) v ≡ false
segments-contains_any v h = plain-contains_any v (
    subst (λ s. All IsPlain s) (join-split 46 v)
      (All-join IsPlain 46 (split 46 v) refl
        (All-map IsSegment (All IsPlain) (split 46 v) IsSegment-IsPlain h)))

abbrev rest_of : List Bytes → List Bytes
rest_of [] = []
rest_of (x ∷ xs) = xs

rest_of-cons_head : (c : ℕ) (xs : List Bytes) → IsCons xs → rest_of (cons_head c xs) ≡ rest_of xs
rest_of-cons_head c [] h = ground arith
rest_of-cons_head c (x ∷ xs) h = refl

All-rest_of : (P : Bytes → Type 0) (xs : List Bytes) → All P xs → All P (rest_of xs)
All-rest_of P [] h = tt
All-rest_of P (x ∷ xs) h = h.1

rest_of-split :
    (c : ℕ) (xs : List Bytes) (b : Bool)
    → IsCons xs
    → All IsCons (rest_of (if b then [] ∷ xs else cons_head c xs))
    → All IsCons (rest_of xs)
rest_of-split c xs true k h = All-rest_of IsCons xs h
rest_of-split c xs false k h = subst (All IsCons) (rest_of-cons_head c xs k) h

one_byte :
    (c : ℕ) (b : Bool)
    → All IsCons (rest_of (if b then [] ∷ [] ∷ [] else (c ∷ []) ∷ []))
    → b ≡ false
one_byte c true h = ground (arith, h.0)
one_byte c false h = refl

-- A string that ends with a dot has an empty segment after its first.
ends_with-rest_of : (s : Bytes) → All IsCons (rest_of (split 46 s)) → ends_with 46 s ≡ false
unfolding split ends_with
ends_with-rest_of [] h = refl
ends_with-rest_of (c ∷ []) h = one_byte c (c == 46) h
ends_with-rest_of (c ∷ b ∷ s) h =
    ends_with-rest_of (b ∷ s)
      (rest_of-split c (split 46 (b ∷ s)) (c == 46) (split-IsCons 46 (b ∷ s)) h)

first_byte :
    (c : ℕ) (xs : List Bytes) (b : Bool)
    → All IsCons (if b then [] ∷ xs else cons_head c xs)
    → b ≡ false
first_byte c xs true h = ground (arith, h.0)
first_byte c xs false h = refl

starts_with_dot-split : (s : Bytes) → All IsCons (split 46 s) → starts_with_dot s ≡ false
unfolding split
starts_with_dot-split [] h = refl
starts_with_dot-split (c ∷ s) h = first_byte c (split 46 s) (c == 46) h

-- At least two valid segments, the first one not reserved, and the whole not too long.
abbrev pub IsId : Bytes → Type 0
IsId v =
    (length v ≤ max_id_bytes)
    × (2 ≤ length (split 46 v))
    × All IsSegment (split 46 v)
    × (is_reserved (split 46 v) ≡ false)

validate_id-IsId : (v : Bytes) → validate_id v ≡ none → IsId v
unfolding validate_id
validate_id-IsId v h =
    let outer =
      or_else-none (guards (id_shape v))
        (or_else (check_segments 1 (split 46 v)) (guards (id_prefix v))) h in
    let shape = guards-IsPassed (id_shape v) outer.0 in
    let inner = or_else-none (check_segments 1 (split 46 v)) (guards (id_prefix v)) outer.1 in
    (
      ground (arith, shape),
      ground (arith, shape),
      check_segments-IsSegment 1 (split 46 v) inner.0,
      (guards-IsPassed (id_prefix v) inner.1).0,
    )

not_empty : (v : Bytes) → 2 ≤ length (split 46 v) → is_empty v ≡ false
unfolding split
not_empty [] h = ground (arith, h)
not_empty (c ∷ v) h = refl

IsId-validate_id : (v : Bytes) → IsId v → validate_id v ≡ none
unfolding validate_id
IsId-validate_id v (short, two, valid, first) =
    let nonempty = All-map IsSegment IsCons (split 46 v) IsSegment-IsCons valid in
    let front = starts_with_dot-split v nonempty in
    let back = ends_with-rest_of v (All-rest_of IsCons (split 46 v) nonempty) in
    rw
      (
        guards-none (id_shape v) (
          not_empty v two,
          (
            ground (arith, short),
            (
              segments-contains_any v valid,
              (ground (arith, front, back), (ground (arith, two), tt)),
            ),
          ),
        ),
        check_segments-none 1 (split 46 v) valid,
        first,
      )
      refl

-- An identifier is accepted exactly when it is at most 255 bytes long and has at least two
-- segments, all of them valid, the first one not reserved: the tests for whitespace, outer dots and
-- the empty string refuse nothing more.
pub parse_id_iff : (v : Bytes) → (parse_id v ≡ ok v) ↔ IsId v
unfolding parse_id
parse_id_iff v = elim (Option-cases (validate_id v)) [
  | inl e ↦ (λ h. validate_id-IsId v e, λ h. rw (e, parse_id) refl)
  | inr (x, e) ↦ (λ h. ground (arith, e, h), λ h. ground (arith, e, IsId-validate_id v h))
]

-- The segments of a valid identifier, joined by dots, are the identifier.
pub join-segments : (v : Bytes) → validate_id v ≡ none → join 46 (segments v) ≡ v
unfolding segments
join-segments v h = rw (h, segments) (join-split 46 v)

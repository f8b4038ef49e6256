-- ===== src/Operation/Id.antt =====
-- operation/id.go: operation identifiers.
pub mod Laws
use batch_weaver.Base.{
  ℕ, zero, suc, Bool, true, false, not, ◌&&◌, ◌||◌, List, [], ◌∷◌, Option, none, some, Bytes,
  bytes_eq, ltb, ◌==◌, any, is_empty, length, guards, or_else, if◌then◌else◌, Result, ok, err,
}
use batch_weaver.Operation.Text.{
  is_lower, is_digit, is_space, contains_any, contains, ends_with, split,
}

pub data SegmentError : Type 0 where
  empty too_long bad_start bad_character bad_end consecutive : SegmentError

pub data IdError : Type 0 where
  no_id id_too_long whitespace outer_dot one_segment reserved : IdError
  bad_segment : ℕ → SegmentError → IdError

abbrev pub max_id_bytes : ℕ
max_id_bytes = 255

abbrev pub max_segment_bytes : ℕ
max_segment_bytes = 63

-- "batchweaver", "internal" and "system"
abbrev pub reserved_prefixes : List Bytes
reserved_prefixes =
    (98 ∷ 97 ∷ 116 ∷ 99 ∷ 104 ∷ 119 ∷ 101 ∷ 97 ∷ 118 ∷ 101 ∷ 114 ∷ [])
    ∷ (105 ∷ 110 ∷ 116 ∷ 101 ∷ 114 ∷ 110 ∷ 97 ∷ 108 ∷ [])
    ∷ (115 ∷ 121 ∷ 115 ∷ 116 ∷ 101 ∷ 109 ∷ [])
    ∷ []

abbrev pub is_separator : ℕ → Bool
is_separator c = c == 95 || c == 45

-- The loop of `validateSegment` from index `i` on.
unfoldable pub check_characters : ℕ → Bytes → Option SegmentError
check_characters i [] = none
check_characters i (c ∷ s) =
    let rest = check_characters (suc i) s in
    if is_lower c
    then rest
    else if i == 0
    then some SegmentError.bad_start
    else if is_digit c || is_separator c
    then rest
    else some SegmentError.bad_character

abbrev pub segment_size : Bytes → List (Bool × SegmentError)
segment_size s =
    (is_empty s, SegmentError.empty)
    ∷ (ltb max_segment_bytes (length s), SegmentError.too_long)
    ∷ []

abbrev pub segment_separators : Bytes → List (Bool × SegmentError)
segment_separators s =
    (ends_with 95 s || ends_with 45 s, SegmentError.bad_end)
    ∷ (
      contains (45 ∷ 45 ∷ []) s
          || (contains (95 ∷ 95 ∷ []) s
              || (contains (45 ∷ 95 ∷ []) s || contains (95 ∷ 45 ∷ []) s)),
      SegmentError.consecutive,
    )
    ∷ []

unfoldable pub validate_segment : Bytes → Option SegmentError
unfolding check_characters
validate_segment s =
    or_else (guards (segment_size s))
      (or_else (check_characters 0 s) (guards (segment_separators s)))

-- The loop of `ParseID` over the segments, counted from 1.
unfoldable pub check_segments : ℕ → List Bytes → Option IdError
check_segments i [] = none
check_segments i (s ∷ ss) =
    or_else (elim (validate_segment s) [ some e ↦ some (bad_segment i e) | none ↦ none ])
      (check_segments (suc i) ss)

abbrev pub is_reserved : List Bytes → Bool
is_reserved [] = false
is_reserved (s ∷ ss) = any (bytes_eq s) reserved_prefixes

abbrev pub starts_with_dot : Bytes → Bool
starts_with_dot [] = false
starts_with_dot (c ∷ s) = c == 46

abbrev pub id_shape : Bytes → List (Bool × IdError)
id_shape value =
    (is_empty value, no_id)
    ∷ (ltb max_id_bytes (length value), id_too_long)
    ∷ (contains_any (32 ∷ 9 ∷ 13 ∷ 10 ∷ []) value, whitespace)
    ∷ (starts_with_dot value || ends_with 46 value, outer_dot)
    ∷ (ltb (length (split 46 value)) 2, one_segment)
    ∷ []

abbrev pub id_prefix : Bytes → List (Bool × IdError)
id_prefix value = (is_reserved (split 46 value), reserved) ∷ []

-- `ID.Validate`
unfoldable pub validate_id : Bytes → Option IdError
unfolding split check_segments
validate_id value =
    or_else (guards (id_shape value))
      (or_else (check_segments 1 (split 46 value)) (guards (id_prefix value)))

-- `ParseID`
unfoldable pub parse_id : Bytes → Result IdError Bytes
parse_id value = elim (validate_id value) [ some e ↦ err e | none ↦ ok value ]

-- `ID.Segments`
unfoldable pub segments : Bytes → List Bytes
segments id = elim (validate_id id) [ some _ ↦ [] | none ↦ split 46 id ]

-- ===== src/Runtime/Encoding.antt =====
-- runtime/partition.go: the encoded form of a partition. `uvarint` is `binary.PutUvarint` of
-- encoding/binary, as the bytes that it writes, and `read` is `binary.Uvarint` of the same package,
-- as the number that it reads and the bytes behind it.
use batch_weaver.Base.{
  ℕ, ◌≡◌, ◌≢◌, ◌↔◌, ◌<◌, ◌^◌, refl, ◌∙◌, sym, ap, List, [], ◌∷◌, ◌++◌, Option, none, some, Bytes,
  All, length, arith,
}

-- The form of `SinglePartition`.
abbrev pub single_partition : Bytes
single_partition = 1 ∷ []

module _ (uvarint : ℕ → Bytes) where
  -- The loop of `PartitionFromStrings` and `PartitionFromBytes`.
  unfoldable pub write_components : List Bytes → Bytes
  write_components [] = []
  write_components (v ∷ vs) = uvarint (length v) ++ (v ++ write_components vs)

  unfoldable pub partition_from : List Bytes → Bytes
  unfolding write_components
  partition_from vs = 2 ∷ write_components vs

-- The lengths of components are uint64 numbers.
abbrev pub IsSized : List Bytes → Type 0
IsSized vs = All (λ v. length v < 2 ^ 64) vs

append_cancel : (v w a b : Bytes) → length v ≡ length w → v ++ a ≡ w ++ b → (v ≡ w) × (a ≡ b)
append_cancel [] [] a b h e = (refl, e)
append_cancel [] (_ ∷ _) a b h e = absurd (omega (arith, h))
append_cancel (_ ∷ _) [] a b h e = absurd (omega (arith, h))
append_cancel (x ∷ xs) (y ∷ ys) a b h e =
    let r = append_cancel xs ys a b (omega (arith, h)) cc in
    let heads : x ≡ y = cc in (ap (λ z. z ∷ xs) heads ∙ ap (λ l. y ∷ l) r.0, r.1)

none-some : (x : ℕ × Bytes) → none ≢ some x
none-some x e = cc

some_pair :
    (n m : ℕ) (a b : Bytes)
    → ◌≡◌ {A = Option (ℕ × Bytes)} (some (n, a)) (some (m, b))
    → (n ≡ m) × (a ≡ b)
some_pair n m a b e = (cc, cc)

module _ (uvarint : ℕ → Bytes) (read : Bytes → Option (ℕ × Bytes))
    (read-uvarint : (n : ℕ) (rest : Bytes) → n < 2 ^ 64 → read (uvarint n ++ rest) ≡ some (n, rest))
    (read_nil : read [] ≡ none) where
  write_components_nonempty :
      (v : Bytes) (vs : List Bytes) → length v < 2 ^ 64 → write_components uvarint (v ∷ vs) ≢ []
  unfolding write_components
  write_components_nonempty v vs h e =
      let rest = v ++ write_components uvarint vs in
      let unread : read (uvarint (length v) ++ rest) ≡ none = ap read e ∙ read_nil in
      none-some (length v, rest) (sym unread ∙ read-uvarint (length v) rest h)

  write_components_injective :
      (vs ws : List Bytes)
      → IsSized vs
      → IsSized ws
      → write_components uvarint vs ≡ write_components uvarint ws
      → vs ≡ ws
  unfolding write_components
  write_components_injective [] [] h k e = refl
  write_components_injective [] (w ∷ ws) h k e = absurd (write_components_nonempty w ws k.0 (sym e))
  write_components_injective (v ∷ vs) [] h k e = absurd (write_components_nonempty v vs h.0 e)
  write_components_injective (v ∷ vs) (w ∷ ws) h k e =
      let vs' = v ++ write_components uvarint vs in
      let ws' = w ++ write_components uvarint ws in
      let same : read (uvarint (length v) ++ vs') ≡ read (uvarint (length w) ++ ws') = ap read e in
      let both =
        some_pair (length v) (length w) vs' ws'
          (sym (read-uvarint (length v) vs' h.0) ∙ same ∙ read-uvarint (length w) ws' k.0) in
      let split = append_cancel v w _ _ both.0 both.1 in
      let tails = write_components_injective vs ws h.1 k.1 split.1 in
      ap (λ x. x ∷ vs) split.0 ∙ ap (λ xs. w ∷ xs) tails

  -- Partitions made of different components are different: neither the grouping of the bytes into
  -- components nor the number of components is lost. And no partition made of components is the
  -- single one. This is for components whose lengths are uint64 numbers, and a reader of the
  -- length prefixes that finds a prefix and what stands behind it.
  pub partition_from_injective :
      (vs ws : List Bytes)
      → IsSized vs
      → IsSized ws
      → ((partition_from uvarint vs ≡ partition_from uvarint ws) ↔ (vs ≡ ws))
        × (partition_from uvarint vs ≢ single_partition)
  unfolding partition_from
  partition_from_injective vs ws h k = (
    (
      (λ e. write_components_injective vs ws h k cc),
      λ e. ap (λ l. 2 ∷ write_components uvarint l) e,
    ),
    λ e. cc,
  )

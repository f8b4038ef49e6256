-- ===== src/Runtime/Memo/Laws.antt =====
-- The table of runtime/memo.go as the plain list of its records, oldest first, and its limits.
use batch_weaver.Base.{
  ℕ, ◌≡◌, refl, sym, append-nil, Bool, false, List, [], ◌∷◌, Bytes, arith, ◌==◌, ==_refl, length,
  filter, filter-append, sum_of, sum_of-append, Bool-cases, inl, inr,
}
use batch_weaver.Runtime.Memo.{
  KeyStrategy, MemoRecord, MemoTable, MemoConfig, hash_of, delete_record, evict_oldest, over_limit,
  evict, remember, empty_table,
}

module _ {K V : Type 0} (part_hash : Bytes → ℕ) (keys : KeyStrategy K) where
  abbrev pub in_bucket : ℕ → MemoRecord K V → Bool
  in_bucket j r = j == hash_of part_hash keys r.part r.key

  -- Each bucket holds the records that hash to it, oldest first, and the bytes are theirs.
  pub record IsWellFormed (t : MemoTable K V) : Type 0 where
    pub buckets : (j : ℕ) → t.by_hash j ≡ filter (in_bucket j) t.order
    pub charged : t.bytes ≡ sum_of (λ r. r.bytes) t.order

  pub empty_table-IsWellFormed : IsWellFormed empty_table
  empty_table-IsWellFormed = record { buckets = λ j. refl; charged = refl }

  pub remember-IsWellFormed :
      (r : MemoRecord K V) (t : MemoTable K V)
      → IsWellFormed t
      → IsWellFormed (remember part_hash keys r t)
  unfolding remember
  remember-IsWellFormed r t h = record {
    buckets = λ j.
        rw (h.buckets j, filter-append (in_bucket j) t.order (r ∷ []))
          (elim (Bool-cases (j == hash_of part_hash keys r.part r.key)) [
            | inl e ↦ rw e refl
            | inr e ↦ rw e (sym (append-nil _))
          ]);
    charged =
        omega (arith, h.charged, sum_of-append (λ (q : MemoRecord K V). q.bytes) t.order (r ∷ []));
  }

  pub evict_oldest-IsWellFormed :
      (old : MemoRecord K V) (rest : List (MemoRecord K V)) (t : MemoTable K V)
      → t.order ≡ old ∷ rest
      → IsWellFormed t
      → IsWellFormed (evict_oldest part_hash keys old rest t)
  unfolding evict_oldest delete_record
  evict_oldest-IsWellFormed old rest t e h = record {
    buckets = λ j. elim (Bool-cases (j == hash_of part_hash keys old.part old.key)) [
      | inl k ↦ rw (h.buckets j, e, k, ==_refl old.id) refl
      | inr k ↦ rw (h.buckets j, e, k) refl
    ];
    charged = rw (h.charged, e) (omega arith);
  }

  pub evict_lem :
      (cfg : MemoConfig) (rs : List (MemoRecord K V)) (t : MemoTable K V)
      → t.order ≡ rs
      → IsWellFormed t
      → let u = evict part_hash keys cfg rs t in
        IsWellFormed u × (over_limit cfg (length u.order) u.bytes ≡ false)
  unfolding evict evict_oldest
  evict_lem cfg [] t e h = (h, rw (h.charged, e) (ground arith))
  evict_lem cfg (old ∷ rest) t e h =
      elim (Bool-cases (over_limit cfg (length (old ∷ rest)) t.bytes)) [
        | inl over ↦
            let u = evict_oldest part_hash keys old rest t in
            rw (over, evict) (evict_lem cfg rest u refl (evict_oldest-IsWellFormed old rest t e h))
        | inr fine ↦ rw (fine, evict) (h, rw e fine)
      ]

-- ===== src/Runtime/Engine/Closing.antt =====
-- What closing an engine does (`Close` of runtime/engine.go).
use mathlib.Core.List.{Perm}
use mathlib.Core.List.Perm
use batch_weaver.Base.{
  ◌≡◌, refl, sym, ap, subst, ◌↔◌, inl, inr, false, List, [], ◌∷◌, Option, none, some, Bytes,
  bytes_lt, Bool-cases, All, or_else, or_else-none,
}
use batch_weaver.Runtime.Engine.{
  closed, is_closed, Engine, insert_id, sort_ids, close_all, begin_close, end_close, close,
}

insert_id-perm : (x : Bytes) (ys : List Bytes) → Perm (x ∷ ys) (insert_id x ys)
unfolding insert_id
insert_id-perm x [] = Perm.refl (x ∷ [])
insert_id-perm x (y ∷ ys) = elim (Bool-cases (bytes_lt y x)) [
  | inl e ↦ rw (e, insert_id) (Perm.trans (Perm.swap y x ys) (Perm.cons y (insert_id-perm x ys)))
  | inr e ↦ rw (e, insert_id) (Perm.refl (x ∷ y ∷ ys))
]

sort_ids-perm : (xs : List Bytes) → Perm xs (sort_ids xs)
unfolding sort_ids
sort_ids-perm [] = Perm.refl []
sort_ids-perm (x ∷ xs) =
    Perm.trans (Perm.cons x (sort_ids-perm xs)) (insert_id-perm x (sort_ids xs))

module _ {X : Type 0} (answer : Bytes → Option X) where
  close_all-asked : (cs : List Bytes) → (close_all answer cs).1 ≡ cs
  unfolding close_all
  close_all-asked [] = refl
  close_all-asked (c ∷ cs) = ap (λ r. c ∷ r) (close_all-asked cs)

  none-or_else : (a b : Option X) → a ≡ none → b ≡ none → or_else a b ≡ none
  none-or_else none b h k = k
  none-or_else (some x) b h k = h

  close_all-none :
      (cs : List Bytes) → (close_all answer cs).0 ≡ none → All (λ c. answer c ≡ none) cs
  unfolding close_all
  close_all-none [] h = tt
  close_all-none (c ∷ cs) h =
      let p = or_else-none (answer c) (close_all answer cs).0 h in (p.0, close_all-none cs p.1)

  none-close_all :
      (cs : List Bytes) → All (λ c. answer c ≡ none) cs → (close_all answer cs).0 ≡ none
  unfolding close_all
  none-close_all [] h = refl
  none-close_all (c ∷ cs) h =
      none-or_else (answer c) (close_all answer cs).0 h.0 (none-close_all cs h.1)

  -- However the operations answer and whether or not waiting fails, closing an engine that is not
  -- closed asks each of its operations exactly once, in the order of their identifiers, and leaves
  -- it closed; closing it again then asks none, gives no error and changes nothing.
  pub close-settled :
      (drain : Option X) (e : Engine)
      → is_closed e.state ≡ false
      → let r = close answer drain e in
        (r.1.state ≡ closed)
        × (r.0.1 ≡ sort_ids e.ops)
        × Perm e.ops (r.0.1)
        × (close answer drain (r.1) ≡ ((none, []), r.1))
  unfolding close end_close begin_close
  close-settled drain e h =
      rw (h, close)
        (
          refl,
          close_all-asked (sort_ids e.ops),
          subst (Perm e.ops) (sym (close_all-asked (sort_ids e.ops))) (sort_ids-perm e.ops),
          refl,
        )

  -- Closing gives no error exactly when every operation closes without one and waiting does not
  -- fail.
  pub close-none_iff :
      (drain : Option X) (e : Engine)
      → is_closed e.state ≡ false
      → ((close answer drain e).0.0 ≡ none)
        ↔ (All (λ c. answer c ≡ none) (sort_ids e.ops) × (drain ≡ none))
  unfolding close begin_close
  close-none_iff drain e h =
      rw (h, close)
        (
          λ k.
              let p = or_else-none (close_all answer (sort_ids e.ops)).0 drain k in
              (close_all-none (sort_ids e.ops) p.0, p.1),
          λ k.
              none-or_else (close_all answer (sort_ids e.ops)).0 drain
                (none-close_all (sort_ids e.ops) k.0) k.1,
        )

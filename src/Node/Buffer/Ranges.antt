-- ===== src/Node/Buffer/Ranges.antt =====
-- src/node/session.ts: what contiguousRanges covers.
use agent_control_center_cor.Base.{
  ℕ, ◌+◌, ◌≤◌, true, List, [], ◌∷◌, ltb, eqb, arith, any, order_by, insert_before, ◌≡◌, ◌⊎◌, inl,
  inr, ◌↔◌, subst, if_lem, Bool-cases,
}
use agent_control_center_cor.Base.Order.{IsRow}
use agent_control_center_cor.Node.Buffer.{add_cursor, add_cursors, distinct_from, contiguous_ranges}

-- `cursor` lies in one of the ranges
abbrev pub IsCovered : ℕ → List (ℕ × ℕ) → Type 0
IsCovered cursor [] = ⊥
IsCovered cursor (range ∷ ranges) =
    ((range.0 ≤ cursor) × (cursor ≤ range.1)) ⊎ IsCovered cursor ranges

-- each range goes upward
abbrev IsUpward : List (ℕ × ℕ) → Type 0
IsUpward [] = Unit
IsUpward (range ∷ ranges) = (range.0 ≤ range.1) × IsUpward ranges

add_cursor-IsUpward :
    (cursor : ℕ) (ranges : List (ℕ × ℕ)) → IsUpward ranges → IsUpward (add_cursor cursor ranges)
add_cursor-IsUpward cursor [] h = ground arith
add_cursor-IsUpward cursor (range ∷ []) h = ground arith
add_cursor-IsUpward cursor (range ∷ next ∷ ranges) h =
    (h.0, add_cursor-IsUpward cursor (next ∷ ranges) h.1)

add_cursor_lem :
    (cursor other : ℕ) (ranges : List (ℕ × ℕ))
    → IsUpward ranges
    → IsCovered other (add_cursor cursor ranges) ↔ ((cursor ≡ other) ⊎ IsCovered other ranges)
add_cursor_lem cursor other [] h = ((λ h. ground arith), (λ h. ground arith))
add_cursor_lem cursor other (range ∷ []) h =
    if_lem (λ rs. IsCovered other rs ↔ ((cursor ≡ other) ⊎ IsCovered other (range ∷ [])))
      (eqb cursor (range.1 + 1)) ((range.0, cursor) ∷ []) (range ∷ (cursor, cursor) ∷ [])
      (λ k. ((λ c. ground arith), (λ c. ground arith)))
      (λ k. ((λ c. ground arith), (λ c. ground arith)))
add_cursor_lem cursor other (range ∷ next ∷ ranges) h =
    let (to, from) = add_cursor_lem cursor other (next ∷ ranges) h.1 in
    (
      (λ c. elim c [
        | inl here ↦ inr (inl here)
        | inr later ↦ elim (to later) [ inl same ↦ inl same | inr old ↦ inr (inr old) ]
      ]),
      (λ c. elim c [
        | inl same ↦ inr (from (inl same))
        | inr old ↦ elim old [ inl here ↦ inl here | inr later ↦ inr (from (inr later)) ]
      ]),
    )

add_cursors_lem :
    (cursors : List ℕ) (other : ℕ) (ranges : List (ℕ × ℕ))
    → IsUpward ranges
    → IsCovered other (add_cursors cursors ranges) ↔ (IsRow other cursors ⊎ IsCovered other ranges)
unfolding add_cursors
add_cursors_lem [] other ranges h =
    ((λ c. inr c), (λ c. elim c [ inl none_here ↦ absurd none_here | inr old ↦ old ]))
add_cursors_lem (c ∷ cursors) other ranges h =
    let (to, from) =
      add_cursors_lem cursors other (add_cursor c ranges) (add_cursor-IsUpward c ranges h) in
    let (to', from') = add_cursor_lem c other ranges h in
    (
      (λ k. elim (to k) [
        | inl later ↦ inl (inr later)
        | inr old ↦ elim (to' old) [ inl same ↦ inl (inl same) | inr older ↦ inr older ]
      ]),
      (λ k. elim k [
        | inl row ↦ elim row [
          | inl same ↦ from (inr (from' (inl same)))
          | inr later ↦ from (inl later)
        ]
        | inr old ↦ from (inr (from' (inr old)))
      ]),
    )

IsRow-insert : (x y : ℕ) (xs : List ℕ) → IsRow x (insert_before ltb y xs) ↔ IsRow x (y ∷ xs)
unfolding insert_before
IsRow-insert x y [] = ((λ k. k), (λ k. k))
IsRow-insert x y (z ∷ zs) =
    let (to, from) = IsRow-insert x y zs in
    if_lem (λ rs. IsRow x rs ↔ IsRow x (y ∷ z ∷ zs)) (ltb z y) (z ∷ insert_before ltb y zs)
      (y ∷ z ∷ zs)
      (λ k. (
        (λ m. elim m [
          | inl here ↦ inr (inl here)
          | inr later ↦ elim (to later) [ inl same ↦ inl same | inr old ↦ inr (inr old) ]
        ]),
        (λ m. elim m [
          | inl same ↦ inr (from (inl same))
          | inr old ↦ elim old [ inl here ↦ inl here | inr later ↦ inr (from (inr later)) ]
        ]),
      ))
      (λ k. ((λ m. m), (λ m. m)))

IsRow-order_by : (x : ℕ) (xs : List ℕ) → IsRow x (order_by ltb xs) ↔ IsRow x xs
unfolding order_by
IsRow-order_by x [] = ((λ k. k), (λ k. k))
IsRow-order_by x (y ∷ ys) =
    let (to, from) = IsRow-order_by x ys in
    let (to', from') = IsRow-insert x y (order_by ltb ys) in
    (
      (λ k. elim (to' k) [ inl same ↦ inl same | inr later ↦ inr (to later) ]),
      (λ k. from' (elim k [ inl same ↦ inl same | inr later ↦ inr (from later) ])),
    )

seen-IsRow : (x : ℕ) (seen : List ℕ) → any (eqb x) seen ≡ true → IsRow x seen
unfolding any
seen-IsRow x [] h = cc
seen-IsRow x (y ∷ seen) h = elim (Bool-cases (eqb x y)) [
  | inl same ↦ inl (ground arith)
  | inr other ↦ inr (seen-IsRow x seen (ground arith))
]

distinct_lem :
    (x : ℕ) (seen xs : List ℕ)
    → (IsRow x (distinct_from seen xs) → IsRow x xs)
      × (IsRow x xs → IsRow x (distinct_from seen xs) ⊎ IsRow x seen)
distinct_lem x seen [] = ((λ k. k), (λ k. inl k))
distinct_lem x seen (y ∷ ys) =
    let (to, from) = distinct_lem x seen ys in
    let (to', from') = distinct_lem x (y ∷ seen) ys in
    if_lem (λ rs. (IsRow x rs → IsRow x (y ∷ ys)) × (IsRow x (y ∷ ys) → IsRow x rs ⊎ IsRow x seen))
      (any (eqb y) seen) (distinct_from seen ys) (y ∷ distinct_from (y ∷ seen) ys)
      (λ known. (
        (λ k. inr (to k)),
        (λ k. elim k [
          | inl same ↦ inr (subst (λ z. IsRow z seen) same (seen-IsRow y seen known))
          | inr later ↦ from later
        ]),
      ))
      (λ fresh. (
        (λ k. elim k [ inl same ↦ inl same | inr later ↦ inr (to' later) ]),
        (λ k. elim k [
          | inl same ↦ inl (inl same)
          | inr later ↦ elim (from' later) [
            | inl kept ↦ inl (inr kept)
            | inr old ↦ elim old [ inl same ↦ inl (inl same) | inr older ↦ inr older ]
          ]
        ]),
      ))

-- The ranges of a list of cursors cover exactly these cursors.
pub contiguous_ranges_lem :
    (dropped : List ℕ) (cursor : ℕ)
    → IsCovered cursor (contiguous_ranges dropped) ↔ IsRow cursor dropped
unfolding contiguous_ranges
contiguous_ranges_lem dropped cursor =
    let (to, from) = add_cursors_lem (order_by ltb (distinct_from [] dropped)) cursor [] tt in
    let (sorted, unsorted) = IsRow-order_by cursor (distinct_from [] dropped) in
    let (kept, all_kept) = distinct_lem cursor [] dropped in
    (
      (λ k. elim (to k) [ inl row ↦ kept (sorted row) | inr none_old ↦ absurd none_old ]),
      (λ k. elim (all_kept k) [
        | inl row ↦ from (inl (unsorted row))
        | inr none_seen ↦ absurd none_seen
      ]),
    )

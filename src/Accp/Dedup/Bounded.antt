-- ===== src/Accp/Dedup/Bounded.antt =====
-- The index keeps its bound, and it knows the last `capacity` messages.
use agent_control_center_cor.Base.{
  ℕ, suc, ◌≤◌, String, true, ltb, arith, List, [], ◌∷◌, ◌++◌, any, eq_refl, length, ◌≡◌, refl,
  if◌then◌else◌, ap, Bool-cases, inl, inr,
}
use agent_control_center_cor.Accp.Dedup.{DedupIndex, has_seen, without_oldest, check_message}

length-append : (id : String) (seen : List String) → length (seen ++ id ∷ []) ≡ suc (length seen)
length-append id [] = refl
length-append id (x ∷ seen) = ap suc (length-append id seen)

has_seen-append : (id : String) (seen : List String) → has_seen id (seen ++ id ∷ []) ≡ true
unfolding any
has_seen-append id [] = ground (arith, eq_refl id)
has_seen-append id (x ∷ seen) = ground (arith, has_seen-append id seen)

-- What `check` records of a new message: the oldest one goes where the index was full.
abbrev recorded : String → ℕ → List String → List String
recorded id capacity seen =
    let longer = seen ++ id ∷ [] in
    if ltb capacity (length longer) then without_oldest longer else longer

recorded-bounded :
    (id : String) (capacity : ℕ) (seen : List String)
    → length seen ≤ capacity
    → length (recorded id capacity seen) ≤ capacity
recorded-bounded id capacity [] bounded = ground arith
recorded-bounded id capacity (x ∷ seen) bounded = ground (arith, length-append id seen)

recorded-has_seen :
    (id : String) (capacity : ℕ) (seen : List String)
    → 1 ≤ capacity
    → has_seen id (recorded id capacity seen) ≡ true
unfolding any
recorded-has_seen id capacity [] positive = ground (arith, eq_refl id)
recorded-has_seen id capacity (x ∷ seen) positive =
    ground (arith, has_seen-append id seen, has_seen-append id (x ∷ seen))

known :
    (id : String) (index : DedupIndex)
    → has_seen id index.seen ≡ true
    → (check_message id index).0 ≡ true
unfolding check_message
known id index seen = rw (seen, if◌then◌else◌) refl

-- A check keeps the index within its capacity, and the message that it was asked for is a
-- duplicate right after.
pub check_message-bounded :
    (id : String) (index : DedupIndex)
    → 1 ≤ index.capacity
    → length index.seen ≤ index.capacity
    → (length (check_message id index).1.seen ≤ index.capacity)
      × ((check_message id (check_message id index).1).0 ≡ true)
unfolding check_message
check_message-bounded id index positive bounded = elim (Bool-cases (has_seen id index.seen)) [
  | inl seen ↦ (rw (seen, if◌then◌else◌) bounded, known id _ (rw (seen, if◌then◌else◌) seen))
  | inr new ↦ (
    rw (new, if◌then◌else◌) (recorded-bounded id index.capacity index.seen bounded),
    known id _ (rw (new, if◌then◌else◌) (recorded-has_seen id index.capacity index.seen positive)),
  )
]

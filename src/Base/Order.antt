-- ===== src/Base/Order.antt =====
-- The first row of an ordered query is one of the rows, and none comes before it.
use mathlib.Core.Path.{◌≡◌, refl, subst, ap}
use mathlib.Core.Logic.{◌⊎◌, inl, inr}
use mathlib.Core.Bool.{Bool, true, false}
use mathlib.Core.Option.{some}
use native.Mathlib.Omega.{arith}
use mathlib.Core.List.{List, [], ◌∷◌}
use agent_control_center_cor.Base.Tests.{if◌then◌else◌, Bool-cases, get_or, if_lem}
use agent_control_center_cor.Base.Rows.{
  All, order_first, best_of, select_where, first_where, update_where, order_by, insert_before, any,
}

-- The order of a query: nothing comes before itself both ways, and what does not come before `b`,
-- which does not come before `c`, does not come before `c`.
pub record IsWeakOrder {A : Type 0} (before : A → A → Bool) : Type 0 where
  pub asym : (a b : A) → before a b ≡ true → before b a ≡ false
  pub step : (a b c : A) → before a b ≡ false → before b c ≡ false → before a c ≡ false

module _ {A : Type 0} where
  -- `x` is one of the rows
  abbrev pub IsRow : A → List A → Type 0
  IsRow x [] = ⊥
  IsRow x (y ∷ ys) = (y ≡ x) ⊎ IsRow x ys

  pub All-IsRow : (P : A → Type 0) (x : A) (xs : List A) → All P xs → IsRow x xs → P x
  All-IsRow P x [] h m = elim m [ ]
  All-IsRow P x (y ∷ ys) h (inl e) = subst P e h.0
  All-IsRow P x (y ∷ ys) h (inr m) = All-IsRow P x ys h.1 m

  pub All-weaken : (P Q : A → Type 0) (xs : List A) → ((x : A) → P x → Q x) → All P xs → All Q xs
  All-weaken P Q [] h k = tt
  All-weaken P Q (x ∷ xs) h k = (h x k.0, All-weaken P Q xs h k.1)

  pub IsRow-select_where :
      (p : A → Bool) (x : A) (xs : List A) → IsRow x (select_where p xs) → IsRow x xs × (p x ≡ true)
  unfolding select_where
  IsRow-select_where p x [] m = elim m [ ]
  IsRow-select_where p x (y ∷ ys) m = elim (Bool-cases (p y)) [
    | inl met ↦ chosen (IsRow-select_where p x ys) met (rw (met, if◌then◌else◌) at m)
    | inr not_met ↦
        let (later, h) = IsRow-select_where p x ys (rw (not_met, if◌then◌else◌) at m) in
        (inr later, h)
  ]
    where
      chosen :
          (IsRow x (select_where p ys) → IsRow x ys × (p x ≡ true))
          → p y ≡ true
          → IsRow x (y ∷ select_where p ys)
          → IsRow x (y ∷ ys) × (p x ≡ true)
      chosen rest met (inl e) = (inl e, subst (λ z. p z ≡ true) e met)
      chosen rest met (inr later) = let (row, h) = rest later in (inr row, h)

  pub IsRow-first_where :
      (p : A → Bool) (xs : List A) (x : A) → first_where p xs ≡ some x → IsRow x xs
  unfolding first_where
  IsRow-first_where p [] x h = cc
  IsRow-first_where p (y ∷ ys) x h = elim (Bool-cases (p y)) [
    | inl met ↦ inl (ground arith)
    | inr not_met ↦ inr (IsRow-first_where p ys x (ground arith))
  ]

  IsRow-insert_before :
      (before : A → A → Bool) (w x : A) (xs : List A)
      → IsRow w (insert_before before x xs)
      → IsRow w (x ∷ xs)
  unfolding insert_before
  IsRow-insert_before before w x [] h = h
  IsRow-insert_before before w x (y ∷ ys) h =
      if_lem (λ zs. IsRow w zs → IsRow w (x ∷ y ∷ ys)) (before y x) (y ∷ insert_before before x ys)
        (x ∷ y ∷ ys)
        (λ k m. elim m [
          | inl here ↦ inr (inl here)
          | inr later ↦ elim (IsRow-insert_before before w x ys later) [
            | inl same ↦ inl same
            | inr old ↦ inr (inr old)
          ]
        ])
        (λ k m. m) h

  pub IsRow-order_by :
      (before : A → A → Bool) (w : A) (xs : List A) → IsRow w (order_by before xs) → IsRow w xs
  unfolding order_by
  IsRow-order_by before w [] h = h
  IsRow-order_by before w (x ∷ xs) h =
      elim (IsRow-insert_before before w x (order_by before xs) h) [
        | inl same ↦ inl same
        | inr later ↦ inr (IsRow-order_by before w xs later)
      ]

  -- the row that an UPDATE has written is there
  pub IsRow-update_where :
      (p : A → Bool) (f : A → A) (x : A) (xs : List A)
      → IsRow x xs
      → p x ≡ true
      → IsRow (f x) (update_where p f xs)
  unfolding update_where
  IsRow-update_where p f x [] m h = absurd m
  IsRow-update_where p f x (y ∷ ys) (inl same) h = inl (written (p y) refl)
    where
      written : (b : Bool) → p y ≡ b → (if b then f y else y) ≡ f x
      written true e = ap f same
      written false e = cc
  IsRow-update_where p f x (y ∷ ys) (inr later) h = inr (IsRow-update_where p f x ys later h)

  pub any-IsRow :
      (p : A → Bool) (xs : List A) → any p xs ≡ true → (x : A) × (IsRow x xs × (p x ≡ true))
  unfolding any
  any-IsRow p [] h = cc
  any-IsRow p (y ∷ ys) h = elim (Bool-cases (p y)) [
    | inl met ↦ (y, (inl refl, met))
    | inr not_met ↦ let (x, (row, met)) = any-IsRow p ys (ground arith) in (x, (inr row, met))
  ]

  -- what the query leaves out it does not meet
  pub All-select_where :
      (P : A → Type 0) (p : A → Bool) (xs : List A)
      → All P (select_where p xs)
      → All (λ x. p x ≡ true → P x) xs
  unfolding select_where
  All-select_where P p [] h = tt
  All-select_where P p (x ∷ xs) h = elim (Bool-cases (p x)) [
    | inl met ↦ let k = (rw (met, if◌then◌else◌) at h) in (λ _. k.0, All-select_where P p xs k.1)
    | inr not_met ↦ ((λ met. cc), All-select_where P p xs (rw (not_met, if◌then◌else◌) at h))
  ]

  module _ {before : A → A → Bool} (order : IsWeakOrder before) where
    IsWeakOrder-irrefl : (x : A) → before x x ≡ false
    IsWeakOrder-irrefl x = elim (Bool-cases (before x x)) [ inl h ↦ order.asym x x h | inr h ↦ h ]

    best_of_lem :
        (x w : A) (rest : List A)
        → IsRow w rest
        → All (λ z. before z w ≡ false) rest
        → IsRow (best_of before x (some w)) (x ∷ rest)
          × All (λ z. before z (best_of before x (some w)) ≡ false) (x ∷ rest)
    best_of_lem x w rest row least = elim (Bool-cases (before w x)) [
      | inl h ↦
          subst (λ v. IsRow v (x ∷ rest) × All (λ z. before z v ≡ false) (x ∷ rest))
            (if_true (before w x) h) (inr row, (order.asym w x h, least))
      | inr h ↦
          subst (λ v. IsRow v (x ∷ rest) × All (λ z. before z v ≡ false) (x ∷ rest))
            (if_false (before w x) h)
            (
              inl refl,
              (
                IsWeakOrder-irrefl x,
                All-weaken (λ z. before z w ≡ false) (λ z. before z x ≡ false) rest
                    (λ z k. order.step z w x k h) least,
              ),
            )
    ]
      where
        if_true : (b : Bool) → b ≡ true → w ≡ (if b then w else x)
        if_true true h = refl
        if_true false h = cc

        if_false : (b : Bool) → b ≡ false → x ≡ (if b then w else x)
        if_false false h = refl
        if_false true h = cc

    order_first-cons :
        (x : A) (xs : List A)
        → IsRow (best_of before x (order_first before xs)) (x ∷ xs)
          × All (λ z. before z (best_of before x (order_first before xs)) ≡ false) (x ∷ xs)
    unfolding order_first
    order_first-cons x [] = (inl refl, (IsWeakOrder-irrefl x, tt))
    order_first-cons x (z ∷ zs) =
        let (row, least) = order_first-cons z zs in
        best_of_lem x (best_of before z (order_first before zs)) (z ∷ zs) row least

    -- ORDER BY … LIMIT 1 gives a row that no row comes before.
    pub order_first_lem :
        (xs : List A) (y : A)
        → order_first before xs ≡ some y
        → IsRow y xs × All (λ x. before x y ≡ false) xs
    unfolding order_first
    order_first_lem [] y h = cc
    order_first_lem (x ∷ xs) y h =
        subst (λ w. IsRow w (x ∷ xs) × All (λ z. before z w ≡ false) (x ∷ xs))
          (ap (λ o. get_or o x) h) (order_first-cons x xs)

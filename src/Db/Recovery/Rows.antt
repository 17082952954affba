-- ===== src/Db/Recovery/Rows.antt =====
-- Lists of rows: what an UPDATE improves, and what a SELECT finds.
use agent_control_center_cor.Base.{
  ◌≡◌, refl, inl, inr, Bool, true, false, List, [], ◌∷◌, All, if_lem, update_where, select_where,
  order_by, insert_before,
}
use agent_control_center_cor.Base.Order.{IsRow}
use agent_control_center_cor.Db.Legal.{Evolves}
use agent_control_center_cor.Db.Recovery.Legal.{NoneNew}

module _ {A : Type 0} where
  pub All-improve :
      (P Q : A → Type 0) (p : A → Bool) (f : A → A) (xs : List A)
      → ((x : A) → P x → p x ≡ true → Q (f x))
      → ((x : A) → P x → p x ≡ false → Q x)
      → All P xs
      → All Q (update_where p f xs)
  unfolding update_where
  All-improve P Q p f [] set keep h = tt
  All-improve P Q p f (x ∷ xs) set keep h =
      (if_lem Q (p x) (f x) x (set x h.0) (keep x h.0), All-improve P Q p f xs set keep h.1)

  pub All-of-rows : (P : A → Type 0) (xs : List A) → ((x : A) → IsRow x xs → P x) → All P xs
  All-of-rows P [] h = tt
  All-of-rows P (x ∷ xs) h = (h x (inl refl), All-of-rows P xs (λ y row. h y (inr row)))

  pub select_where-IsRow :
      (p : A → Bool) (x : A) (xs : List A) → IsRow x xs → p x ≡ true → IsRow x (select_where p xs)
  unfolding select_where
  select_where-IsRow p x [] row met = absurd row
  select_where-IsRow p x (y ∷ ys) row met =
      if_lem (IsRow x) (p y) (y ∷ select_where p ys) (select_where p ys)
        (λ h. elim row [
          | inl same ↦ inl same
          | inr later ↦ inr (select_where-IsRow p x ys later met)
        ])
        (λ h. elim row [
          | inl same ↦ absurd (clash y same h)
          | inr later ↦ select_where-IsRow p x ys later met
        ])
    where
      clash : (y : A) → y ≡ x → p y ≡ false → ⊥
      clash y same h = cc

  pub insert_before-IsRow :
      (before : A → A → Bool) (w x : A) (xs : List A)
      → IsRow w (x ∷ xs)
      → IsRow w (insert_before before x xs)
  unfolding insert_before
  insert_before-IsRow before w x [] row = row
  insert_before-IsRow before w x (y ∷ ys) row =
      if_lem (IsRow w) (before y x) (y ∷ insert_before before x ys) (x ∷ y ∷ ys)
        (λ h. elim row [
          | inl same ↦ inr (insert_before-IsRow before w x ys (inl same))
          | inr rest ↦ elim rest [
            | inl same ↦ inl same
            | inr later ↦ inr (insert_before-IsRow before w x ys (inr later))
          ]
        ])
        (λ h. row)

  pub order_by-IsRow :
      (before : A → A → Bool) (w : A) (xs : List A) → IsRow w xs → IsRow w (order_by before xs)
  unfolding order_by
  order_by-IsRow before w [] row = row
  order_by-IsRow before w (x ∷ xs) row =
      insert_before-IsRow before w x (order_by before xs)
        (elim row [ inl same ↦ inl same | inr later ↦ inr (order_by-IsRow before w xs later) ])

  module _ (Step : A → A → Type 0) where
    pub Evolves-All :
        (P Q : A → Type 0)
        → ((x y : A) → Step x y → P x → Q y)
        → (xs ys : List A) → Evolves Step NoneNew xs ys
        → All P xs
        → All Q ys
    Evolves-All P Q move [] [] e h = tt
    Evolves-All P Q move [] (y ∷ ys) e h = absurd e.0
    Evolves-All P Q move (x ∷ xs) [] e h = absurd e
    Evolves-All P Q move (x ∷ xs) (y ∷ ys) e h =
        (move x y e.0 h.0, Evolves-All P Q move xs ys e.1 h.1)

    pub Evolves-with :
        (Step' : A → A → Type 0) (Q : A → Type 0)
        → ((x y : A) → Step x y → Q y → Step' x y)
        → (xs ys : List A) → Evolves Step NoneNew xs ys
        → All Q ys
        → Evolves Step' NoneNew xs ys
    Evolves-with Step' Q with_q [] [] e h = tt
    Evolves-with Step' Q with_q [] (y ∷ ys) e h = absurd e.0
    Evolves-with Step' Q with_q (x ∷ xs) [] e h = absurd e
    Evolves-with Step' Q with_q (x ∷ xs) (y ∷ ys) e h =
        (with_q x y e.0 h.0, Evolves-with Step' Q with_q xs ys e.1 h.1)

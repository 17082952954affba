-- ===== src/Base/Lookup.antt =====
-- What a SELECT of one row finds after an INSERT, an UPDATE or a DELETE.
use mathlib.Core.Path.{◌≡◌, refl, ap, ◌∙◌}
use mathlib.Core.Logic.{inl, inr}
use mathlib.Core.Bool.{Bool, true, false}
use mathlib.Core.Option.{Option, none, some}
use mathlib.Core.List.{List, [], ◌∷◌, ◌++◌}
use native.Mathlib.Omega.{arith}
use agent_control_center_cor.Base.Tests.{if◌then◌else◌, Bool-cases}
use agent_control_center_cor.Base.Rows.{All, update_where, count_where, first_where, any}

module _ {A : Type 0} where
  abbrev pub set_if : (A → Bool) → (A → A) → Option A → Option A
  set_if q f none = none
  set_if q f (some x) = some (if q x then f x else x)

  -- An UPDATE that keeps the column that the WHERE reads finds the row that was there, written.
  pub first_where-update_where :
      (p q : A → Bool) (f : A → A) (xs : List A)
      → ((x : A) → p (f x) ≡ p x)
      → first_where p (update_where q f xs) ≡ set_if q f (first_where p xs)
  unfolding first_where update_where
  first_where-update_where p q f [] keep = refl
  first_where-update_where p q f (x ∷ xs) keep =
      ground (arith, keep x, first_where-update_where p q f xs keep)

  pub first_where-meets :
      (p : A → Bool) (xs : List A) (x : A) → first_where p xs ≡ some x → p x ≡ true
  unfolding first_where
  first_where-meets p [] x h = cc
  first_where-meets p (y ∷ ys) x h = ground (arith, first_where-meets p ys x)

  pub first_where-none :
      (p : A → Bool) (xs : List A) → first_where p xs ≡ none → All (λ x. p x ≡ false) xs
  unfolding first_where
  first_where-none p [] h = tt
  first_where-none p (y ∷ ys) h = ground (arith, first_where-none p ys)

  pub first_where-append :
      (p : A → Bool) (xs : List A) (x : A)
      → any p xs ≡ false
      → p x ≡ true
      → first_where p (xs ++ x ∷ []) ≡ some x
  unfolding first_where any
  first_where-append p [] x h k = ground arith
  first_where-append p (y ∷ ys) x h k = ground (arith, first_where-append p ys x)

  pub any-first_where :
      (p : A → Bool) (xs : List A) (x : A) → first_where p xs ≡ some x → any p xs ≡ true
  unfolding first_where any
  any-first_where p [] x h = cc
  any-first_where p (y ∷ ys) x h = ground (arith, any-first_where p ys x)

  -- a row that two WHERE clauses meet is found by the first one that asks for less
  pub count_where-first_where :
      (p : A → Bool) (xs : List A) → count_where p xs ≡ 1 → (x : A) × (first_where p xs ≡ some x)
  unfolding count_where first_where
  count_where-first_where p [] h = cc
  count_where-first_where p (y ∷ ys) h = elim (Bool-cases (p y)) [
    | inl met ↦ (y, ground arith)
    | inr not_met ↦
        let (x, found) = count_where-first_where p ys (ground arith) in (x, ground arith)
  ]

  pub All-written :
      (P : A → Type 0) (p : A → Bool) (f : A → A) (xs : List A)
      → ((x : A) → p x ≡ true → P (f x))
      → ((x : A) → p x ≡ false → P x)
      → All P (update_where p f xs)
  unfolding update_where
  All-written P p f [] h k = tt
  All-written P p f (x ∷ xs) h k = (ground (arith, h x, k x), All-written P p f xs h k)

pub ap2 : {A B C : Type 0} (f : A → B → C) {a a' : A} {b b' : B} → a ≡ a' → b ≡ b' → f a b ≡ f a' b'
ap2 f {a} {a'} {b} {b'} h k = ap (λ x. f x b) h ∙ ap (f a') k

-- ===== src/Node/Sqlite/Rows.antt =====
-- Rows that are images of the elements of a list, under the operations on tables.
use agent_control_center_cor.Base.{
  ℕ, String, Bool, false, ◌||◌, Option, none, some, List, [], ◌∷◌, ◌++◌, map, ltb, leb, ◌==◌, any,
  select_where, delete_where, order_by, insert_before, All, arith, ◌≡◌, refl, sym, ap, ◌∙◌, subst,
  if_lem, eq_iff, eq_refl, Bool-cases, inl, inr,
}
use agent_control_center_cor.Node.Sqlite.{decode_all, also, upsert, row_of}

-- Table operations see of a row what the operations of the list see of its element.
module _ {A B : Type 0} (f : A → B) (p : B → Bool) where
  pub map-select_where :
      (xs : List A) → select_where p (map f xs) ≡ map f (select_where (λ x. p (f x)) xs)
  unfolding select_where
  map-select_where [] = refl
  map-select_where (x ∷ xs) = ground (arith, map-select_where xs)

  pub map-delete_where :
      (xs : List A) → delete_where p (map f xs) ≡ map f (delete_where (λ x. p (f x)) xs)
  unfolding delete_where
  map-delete_where [] = refl
  map-delete_where (x ∷ xs) = ground (arith, map-delete_where xs)

  pub map-any : (xs : List A) → any p (map f xs) ≡ any (λ x. p (f x)) xs
  unfolding any
  map-any [] = refl
  map-any (x ∷ xs) = ap (λ b. p (f x) || b) (map-any xs)

module _ {A B : Type 0} (f : A → B) (before : B → B → Bool) where
  map-insert_before :
      (x : A) (xs : List A)
      → insert_before before (f x) (map f xs)
        ≡ map f (insert_before (λ a b. before (f a) (f b)) x xs)
  unfolding insert_before
  map-insert_before x [] = refl
  map-insert_before x (y ∷ ys) = ground (arith, map-insert_before x ys)

  pub map-order_by :
      (xs : List A) → order_by before (map f xs) ≡ map f (order_by (λ a b. before (f a) (f b)) xs)
  unfolding order_by
  map-order_by [] = refl
  map-order_by (x ∷ xs) =
      ap (insert_before before (f x)) (map-order_by xs)
      ∙ map-insert_before x (order_by (λ a b. before (f a) (f b)) xs)

module _ {A : Type 0} (P : A → Type 0) where
  pub All-selected : (p : A → Bool) (xs : List A) → All P xs → All P (select_where p xs)
  unfolding select_where
  All-selected p [] h = tt
  All-selected p (x ∷ xs) h =
      if_lem (All P) (p x) _ _ (λ met. (h.0, All-selected p xs h.1))
        (λ missed. All-selected p xs h.1)

  pub All-left : (p : A → Bool) (xs : List A) → All P xs → All P (delete_where p xs)
  unfolding delete_where
  All-left p [] h = tt
  All-left p (x ∷ xs) h =
      if_lem (All P) (p x) _ _ (λ met. All-left p xs h.1) (λ missed. (h.0, All-left p xs h.1))

  All-insert_before :
      (before : A → A → Bool) (x : A) (xs : List A)
      → P x
      → All P xs
      → All P (insert_before before x xs)
  unfolding insert_before
  All-insert_before before x [] h k = (h, tt)
  All-insert_before before x (y ∷ ys) h k =
      if_lem (All P) (before y x) _ _ (λ later. (k.0, All-insert_before before x ys h k.1))
        (λ first. (h, k))

  pub All-order_by : (before : A → A → Bool) (xs : List A) → All P xs → All P (order_by before xs)
  unfolding order_by
  All-order_by before [] h = tt
  All-order_by before (x ∷ xs) h =
      All-insert_before before x (order_by before xs) h.0 (All-order_by before xs h.1)

-- Rows that are encoded decode to what was encoded.
pub decode_all-map :
    {A B : Type 0} (decode : B → Option A) (encode : A → B) (xs : List A)
    → All (λ x. decode (encode x) ≡ some x) xs
    → decode_all decode (map encode xs) ≡ some xs
unfolding decode_all
decode_all-map decode encode [] h = refl
decode_all-map decode encode (x ∷ xs) h = rw (h.0, decode_all-map decode encode xs h.1) refl

-- DELETE … WHERE cursor <= n leaves what has a cursor above n.
pub delete_where-leb :
    {A : Type 0} (cursor : A → ℕ) (n : ℕ) (xs : List A)
    → delete_where (λ x. leb (cursor x) n) xs ≡ select_where (λ x. ltb n (cursor x)) xs
unfolding delete_where select_where
delete_where-leb cursor n [] = refl
delete_where-leb cursor n (x ∷ xs) = ground (arith, delete_where-leb cursor n xs)

pub row_of-upsert :
    {A : Type 0} (key : String) (value : A) (rows : List (String × A))
    → row_of key (upsert key value rows) ≡ some value
unfolding upsert
row_of-upsert key value [] = rw (eq_refl key) refl
row_of-upsert key value (row ∷ rows) = ground (arith, eq_refl key, row_of-upsert key value rows)

pub row_of-upsert_other :
    {A : Type 0} (other key : String) (value : A) (rows : List (String × A))
    → (key == other) ≡ false
    → row_of other (upsert key value rows) ≡ row_of other rows
unfolding upsert
row_of-upsert_other other key value [] ne = rw ne refl
row_of-upsert_other other key value (row ∷ rows) ne = elim (Bool-cases (row.0 == key)) [
  | inl found ↦
      let absent : (row.0 == other) ≡ false =
        subst (λ k. (k == other) ≡ false) (sym ((eq_iff row.0 key).0 found)) ne in
      rw (found, ne, absent) refl
  | inr missed ↦
      let rest = row_of-upsert_other other key value rows ne in ground (arith, rest, missed)
]

also-some :
    {A : Type 0} (o : Option A) (os : Option (List A)) (xs : List A)
    → also o os ≡ some xs
    → (y : A) × ((ys : List A) × ((o ≡ some y) × ((os ≡ some ys) × (xs ≡ y ∷ ys))))
also-some (some y) (some ys) xs h = (y, (ys, (refl, (refl, cc))))
also-some (some y) none xs h = cc
also-some none (some ys) xs h = cc
also-some none none xs h = cc

pub decode_all-append :
    {A B : Type 0} (decode : B → Option A) (rows : List B) (row : B) (xs : List A) (x : A)
    → decode_all decode rows ≡ some xs
    → decode row ≡ some x
    → decode_all decode (rows ++ row ∷ []) ≡ some (xs ++ x ∷ [])
unfolding decode_all
decode_all-append decode [] row [] x h k = rw k refl
decode_all-append decode [] row (y ∷ ys) x h k = cc
decode_all-append decode (r ∷ rows) row xs x h k =
    let (y, (ys, (first, (later, split)))) = also-some (decode r) (decode_all decode rows) xs h in
    rw (first, decode_all-append decode rows row ys x later k)
      (ap (λ zs. some (zs ++ x ∷ [])) (sym split))

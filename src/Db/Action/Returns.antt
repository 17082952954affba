-- ===== src/Db/Action/Returns.antt =====
-- What a method that returns has passed: one lemma for each kind of statement in it.
use agent_control_center_cor.Base.{
  ℕ, Bool, true, false, Option, none, some, Result, ok, err, ◌≡◌, refl, arith, update_where,
  count_where,
}
use agent_control_center_cor.Db.State.{Db, DbError, TaskRow, RouteStepRow, ReviewRow}
use agent_control_center_cor.Db.Action.{
  Action, ◌>>=◌, continue, pure, gets, required, check, lift, transaction, restore, update_tasks,
  update_steps, update_reviews,
}

module _ {B : Type 0} {db after : Db} {b : B} where
  pub transaction-ok : (m : Action B) → transaction m db ≡ (ok b, after) → m db ≡ (ok b, after)
  unfolding transaction
  transaction-ok m h = restored (m db) h
    where
      restored : (r : Result DbError B × Db) → restore db r ≡ (ok b, after) → r ≡ (ok b, after)
      restored (ok a, db') h = h
      restored (err e, db') h = cc

  pub check-ok :
      (c : Bool) (e : DbError) (f : Unit {0} → Action B)
      → (check c e >>= f) db ≡ (ok b, after)
      → (c ≡ true) × (f tt db ≡ (ok b, after))
  unfolding ◌>>=◌
  check-ok true e f h = (refl, h)
  check-ok false e f h = cc

  pub required-ok :
      {A : Type 0} (o : Option A) (e : DbError) (f : A → Action B)
      → (required o e >>= f) db ≡ (ok b, after)
      → (a : A) × ((o ≡ some a) × (f a db ≡ (ok b, after)))
  unfolding ◌>>=◌
  required-ok none e f h = cc
  required-ok (some a) e f h = (a, (refl, h))

  pub lift-ok :
      {A : Type 0} (r : Result DbError A) (f : A → Action B)
      → (lift r >>= f) db ≡ (ok b, after)
      → (a : A) × ((r ≡ ok a) × (f a db ≡ (ok b, after)))
  unfolding ◌>>=◌
  lift-ok (ok a) f h = (a, (refl, h))
  lift-ok (err e) f h = cc

  pub bind-ok :
      {A : Type 0} (m : Action A) (f : A → Action B)
      → (m >>= f) db ≡ (ok b, after)
      → (a : A) × ((db' : Db) × ((m db ≡ (ok a, db')) × (f a db' ≡ (ok b, after))))
  unfolding ◌>>=◌
  bind-ok {A} m f h = returned (m db) refl h
    where
      returned :
          (r : Result DbError A × Db)
          → m db ≡ r
          → continue r.0 f r.1 ≡ (ok b, after)
          → (a : A) × ((db' : Db) × ((m db ≡ (ok a, db')) × (f a db' ≡ (ok b, after))))
      returned (ok a, db') e h = (a, (db', (e, h)))
      returned (err x, db') e h = cc

  pub pure-ok : (a : B) → pure a db ≡ (ok b, after) → (a ≡ b) × (db ≡ after)
  unfolding pure
  pure-ok a h = ground arith

  pub gets-ok :
      {A : Type 0} (g : Db → A) (f : A → Action B)
      → (gets g >>= f) db ≡ (ok b, after)
      → f (g db) db ≡ (ok b, after)
  unfolding ◌>>=◌
  gets-ok g f h = h

  pub required-returns :
      (o : Option B) (e : DbError) → required o e db ≡ (ok b, after) → (o ≡ some b) × (db ≡ after)
  unfolding required
  required-returns none e h = cc
  required-returns (some a) e h = ground arith

module _ {B : Type 0} (db : Db) {after : Db} {b : B} where
  pub update_tasks-ok :
      (p : TaskRow → Bool) (w : TaskRow → TaskRow) (f : ℕ → Action B)
      → (update_tasks p w >>= f) db ≡ (ok b, after)
      → f (count_where p db.tasks) (record db { tasks = update_where p w db.tasks }) ≡ (ok b, after)
  unfolding ◌>>=◌
  update_tasks-ok p w f h = h

  pub update_steps-ok :
      (p : RouteStepRow → Bool) (w : RouteStepRow → RouteStepRow) (f : ℕ → Action B)
      → (update_steps p w >>= f) db ≡ (ok b, after)
      → f (count_where p db.steps) (record db { steps = update_where p w db.steps }) ≡ (ok b, after)
  unfolding ◌>>=◌
  update_steps-ok p w f h = h

  pub update_reviews-ok :
      (p : ReviewRow → Bool) (w : ReviewRow → ReviewRow) (f : ℕ → Action B)
      → (update_reviews p w >>= f) db ≡ (ok b, after)
      → f (count_where p db.reviews) (record db { reviews = update_where p w db.reviews })
        ≡ (ok b, after)
  unfolding ◌>>=◌
  update_reviews-ok p w f h = h

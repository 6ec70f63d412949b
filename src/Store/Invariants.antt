-- ===== src/Store/Invariants.antt =====
-- Invariants of service calls: a predicate of the database that holds before a call holds after it,
-- whether the call returns or throws. One rule for each way to build a call.
use e_commerce_nodejs.Base.{
  ◌≡◌, Bool, true, false, Option, none, some, List, [], ◌∷◌, refl, if◌then◌else◌,
}
use e_commerce_nodejs.Store.Monad.{
  ApiError, Result, ok, err, Act, pure, throw, gets, or_throw, throw_if, when, when_some, and_then,
  ◌>>=◌, for_each, all_of, attempt, roll_back, transaction,
}

pub record Preserves {S A : Type 0} (P : S → Type 0) (m : Act S A) : Type 0 where
  pub run : (db : S) → P db → P (m db).1

roll_back-Preserves :
    {S A : Type 0} (P : S → Type 0) (start : S) (r : Result A × S)
    → P start
    → P r.1
    → P (roll_back start r).1
roll_back-Preserves P start (ok a, db) hs h = h
roll_back-Preserves P start (err e, db) hs h = hs

pub and_then-Preserves :
    {S A B : Type 0} (P : S → Type 0) (r : Result A × S) (f : A → Act S B)
    → P r.1
    → ((a : A) → r.0 ≡ ok a → P (f a r.1).1)
    → P (and_then r f).1
and_then-Preserves P (ok a, db) f h pf = pf a refl
and_then-Preserves P (err e, db) f h pf = h

module _ {S A : Type 0} {P : S → Type 0} where
  pub Preserves-pure : (a : A) → Preserves P (pure a)
  unfolding pure
  Preserves-pure a = record { run = λ db h. h }

  pub Preserves-throw : (e : ApiError) → Preserves P (throw {A = A} e)
  unfolding throw
  Preserves-throw e = record { run = λ db h. h }

  pub Preserves-gets : (f : S → A) → Preserves P (gets f)
  unfolding gets
  Preserves-gets f = record { run = λ db h. h }

  pub Preserves-or_throw : (o : Option A) (e : ApiError) → Preserves P (or_throw o e)
  unfolding or_throw
  Preserves-or_throw none e = record { run = λ db h. h }
  Preserves-or_throw (some a) e = record { run = λ db h. h }

  pub Preserves-transaction : (m : Act S A) → Preserves P m → Preserves P (transaction m)
  unfolding transaction
  Preserves-transaction m pm = record {
    run = λ db h. roll_back-Preserves P db (m db) h (pm.run db h);
  }

  pub Preserves-attempt : (m : Act S A) → Preserves P m → Preserves P (attempt m)
  unfolding attempt
  Preserves-attempt m pm = record { run = pm.run }

  pub Preserves-if :
      (b : Bool) (m n : Act S A) → Preserves P m → Preserves P n → Preserves P (if b then m else n)
  Preserves-if true m n pm pn = pm
  Preserves-if false m n pm pn = pn

module _ {S : Type 0} {P : S → Type 0} where
  pub Preserves-throw_if : (b : Bool) (e : ApiError) → Preserves P (throw_if b e)
  unfolding throw_if
  Preserves-throw_if true e = record { run = λ db h. h }
  Preserves-throw_if false e = record { run = λ db h. h }

  pub Preserves-when : (b : Bool) (m : Act S (Unit {0})) → Preserves P m → Preserves P (when b m)
  unfolding when
  Preserves-when true m pm = record { run = pm.run }
  Preserves-when false m pm = record { run = λ db h. h }

  pub Preserves-when_some :
      {A : Type 0} (o : Option A) (f : A → Act S (Unit {0}))
      → ((a : A) → Preserves P (f a))
      → Preserves P (when_some o f)
  unfolding when_some
  Preserves-when_some none f pf = record { run = λ db h. h }
  Preserves-when_some (some a) f pf = record { run = (pf a).run }

  pub Preserves-bind :
      {A B : Type 0} (m : Act S A) (f : A → Act S B)
      → Preserves P m
      → ((a : A) → Preserves P (f a))
      → Preserves P (m >>= f)
  unfolding ◌>>=◌
  Preserves-bind m f pm pf = record {
    run = λ db h. and_then-Preserves P (m db) f (pm.run db h) (λ a _. (pf a).run _ (pm.run db h));
  }

  pub Preserves-for_each :
      {A : Type 0} (xs : List A) (body : A → Act S (Unit {0}))
      → ((a : A) → Preserves P (body a))
      → Preserves P (for_each xs body)
  unfolding for_each
  Preserves-for_each [] body pb = record { run = λ db h. h }
  Preserves-for_each (x ∷ xs) body pb = record {
    run = λ db h.
        and_then-Preserves P (body x db) (λ _. for_each xs body) ((pb x).run db h)
          (λ a _. (Preserves-for_each xs body pb).run _ ((pb x).run db h));
  }

  pub Preserves-all_of :
      {A : Type 0} (xs : List A) (body : A → Act S (Unit {0}))
      → ((a : A) → Preserves P (body a))
      → Preserves P (all_of xs body)
  unfolding all_of
  Preserves-all_of [] body pb = record { run = λ db h. h }
  Preserves-all_of (x ∷ xs) body pb = record {
    run = λ db h. (Preserves-all_of xs body pb).run _ ((pb x).run db h);
  }

pub ruleset preserves_rules = (
  Preserves-pure, Preserves-throw, Preserves-gets, Preserves-or_throw, Preserves-transaction,
  Preserves-if, Preserves-throw_if, Preserves-when, Preserves-when_some, Preserves-bind,
  Preserves-for_each, Preserves-all_of, Preserves-attempt,
)

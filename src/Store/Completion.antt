-- ===== src/Store/Completion.antt =====
-- Total correctness: a call that returns from every database with `P`, and what it ensures.
use e_commerce_nodejs.Base.{◌≡◌, refl, Bool, true, false, List, [], ◌∷◌}
use e_commerce_nodejs.Store.Monad.{
  ApiError, Result, ok, err, Act, gets, when, and_then, ◌>>=◌, for_each, roll_back, transaction,
}
use e_commerce_nodejs.Store.Statements.{guarded}

-- A call that returns, with a value and a database that have `Q`.
abbrev pub Succeeds : {S A : Type 0} → (A → S → Type 0) → Result A × S → Type 0
Succeeds Q (ok a, db) = Q a db
Succeeds Q (err e, db) = ⊥

pub guarded-Succeeds :
    {S : Type 0} (Q : Unit {0} → S → Type 0) (e : ApiError) (b : Bool) (db' db : S)
    → b ≡ true
    → Q tt db'
    → Succeeds Q (guarded e b db' db)
guarded-Succeeds Q e true db' db h q = q
guarded-Succeeds Q e false db' db h q = absurd cc

pub and_then-Succeeds :
    {S A B : Type 0} (Q : A → S → Type 0) (R : B → S → Type 0) (r : Result A × S) (f : A → Act S B)
    → Succeeds Q r
    → ((a : A) (db : S) → Q a db → Succeeds R (f a db))
    → Succeeds R (and_then r f)
and_then-Succeeds Q R (ok a, db) f h g = g a db h
and_then-Succeeds Q R (err e, db) f h g = absurd h

-- From a database with `P` the call returns, with a value and a database that have `Q`.
pub record Completes {S A : Type 0} (P : S → Type 0) (m : Act S A) (Q : A → S → Type 0)
    : Type 0 where
  pub run : (db : S) → P db → Succeeds Q (m db)

pub Completes-bind :
    {S A B : Type 0} {P : S → Type 0} {Q : A → S → Type 0} {R : B → S → Type 0} (m : Act S A)
    (f : A → Act S B)
    → Completes P m Q
    → ((a : A) → Completes (Q a) (f a) R)
    → Completes P (m >>= f) R
unfolding ◌>>=◌
Completes-bind m f pm pf = record {
  run = λ db h. and_then-Succeeds _ _ (m db) f (pm.run db h) (λ a d q. (pf a).run d q);
}

pub Completes-for_each :
    {S A : Type 0} (I : List A → S → Type 0) (body : A → Act S (Unit {0}))
    → ((x : A) (xs : List A) → Completes (I (x ∷ xs)) (body x) (λ _. I xs))
    → (xs : List A) → Completes (I xs) (for_each xs body) (λ _. I [])
unfolding for_each
Completes-for_each I body pb [] = record { run = λ db h. h }
Completes-for_each I body pb (x ∷ xs) = record {
  run = λ db h.
      and_then-Succeeds _ _ (body x db) (λ _. for_each xs body) ((pb x xs).run db h)
        (λ _ d q. (Completes-for_each I body pb xs).run d q);
}

roll_back-Succeeds :
    {S A : Type 0} (Q : A → S → Type 0) (start : S) (r : Result A × S)
    → Succeeds Q r
    → Succeeds Q (roll_back start r)
roll_back-Succeeds Q start (ok a, db) h = h
roll_back-Succeeds Q start (err e, db) h = absurd h

pub Completes-transaction :
    {S A : Type 0} {P : S → Type 0} {Q : A → S → Type 0} (m : Act S A)
    → Completes P m Q
    → Completes P (transaction m) Q
unfolding transaction
Completes-transaction m pm = record { run = λ db h. roll_back-Succeeds _ db (m db) (pm.run db h) }

pub Completes-when :
    {S : Type 0} {P : S → Type 0} (b : Bool) (m : Act S (Unit {0}))
    → Completes P m (λ _. P)
    → Completes P (when b m) (λ _. P)
unfolding when
Completes-when true m pm = record { run = pm.run }
Completes-when false m pm = record { run = λ db h. h }

pub Completes-gets :
    {S A : Type 0} {P : S → Type 0} (f : S → A) → Completes P (gets f) (λ a db. (a ≡ f db) × P db)
unfolding gets
Completes-gets f = record { run = λ db h. (refl, h) }

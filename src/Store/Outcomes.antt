-- ===== src/Store/Outcomes.antt =====
-- What a call ensures when it returns: from a database with `P`, a returned value and the database
-- after it have `Q`. A call that throws ensures nothing here.
use e_commerce_nodejs.Base.{◌≡◌, refl, OnSome, Bool, true, false, Option, none, some, List, [], ◌∷◌}
use e_commerce_nodejs.Store.Monad.{
  ApiError, Result, ok, err, Act, pure, throw, gets, or_throw, throw_if, and_then, ◌>>=◌, ◌>>◌,
  for_each, roll_back, transaction,
}
use e_commerce_nodejs.Store.Statements.{guarded}
use e_commerce_nodejs.Store.Invariants.{Preserves}

abbrev pub Returns : {S A : Type 0} → (A → S → Type 0) → Result A × S → Type 0
Returns Q (ok a, db) = Q a db
Returns Q (err e, db) = Unit

pub record Ensures {S A : Type 0} (P : S → Type 0) (m : Act S A) (Q : A → S → Type 0) : Type 0 where
  pub run : (db : S) → P db → Returns Q (m db)

pub and_then-Returns :
    {S A B : Type 0} (Q : A → S → Type 0) (R : B → S → Type 0) (r : Result A × S) (f : A → Act S B)
    → Returns Q r
    → ((a : A) → Ensures (Q a) (f a) R)
    → Returns R (and_then r f)
and_then-Returns Q R (ok a, db) f h pf = (pf a).run db h
and_then-Returns Q R (err e, db) f h pf = tt

roll_back-Returns :
    {S A : Type 0} (Q : A → S → Type 0) (start : S) (r : Result A × S)
    → Returns Q r
    → Returns Q (roll_back start r)
roll_back-Returns Q start (ok a, db) h = h
roll_back-Returns Q start (err e, db) h = tt

pub Returns-map :
    {S A : Type 0} {Q R : A → S → Type 0} (r : Result A × S)
    → ((a : A) (db : S) → Q a db → R a db)
    → Returns Q r
    → Returns R r
Returns-map (ok a, db) f h = f a db h
Returns-map (err e, db) f h = tt

-- What is ensured for each index is ensured for all of them at once.
pub Returns-all :
    {S A I : Type 0} (Q : I → A → S → Type 0) (r : Result A × S)
    → ((i : I) → Returns (Q i) r)
    → Returns (λ a db. (i : I) → Q i a db) r
Returns-all Q (ok a, db) h = h
Returns-all Q (err e, db) h = tt

kept : {S A : Type 0} (P : S → Type 0) (r : Result A × S) → P r.1 → Returns (λ _. P) r
kept P (ok a, db) h = h
kept P (err e, db) h = tt

module _ {S A : Type 0} {P : S → Type 0} where
  pub Ensures-kept : (m : Act S A) → Preserves P m → Ensures P m (λ _. P)
  Ensures-kept m pm = record { run = λ db h. kept P (m db) (pm.run db h) }

  pub Ensures-bind :
      {B : Type 0} {Q : A → S → Type 0} {R : B → S → Type 0} (m : Act S A) (f : A → Act S B)
      → Ensures P m Q
      → ((a : A) → Ensures (Q a) (f a) R)
      → Ensures P (m >>= f) R
  unfolding ◌>>=◌
  Ensures-bind m f pm pf = record { run = λ db h. and_then-Returns _ _ (m db) f (pm.run db h) pf }

  pub Ensures-transaction :
      {Q : A → S → Type 0} (m : Act S A) → Ensures P m Q → Ensures P (transaction m) Q
  unfolding transaction
  Ensures-transaction m pm = record { run = λ db h. roll_back-Returns _ db (m db) (pm.run db h) }

-- A statement under a condition returns only where the condition holds.
pub guarded-Returns :
    {S : Type 0} (Q : Unit {0} → S → Type 0) (e : ApiError) (b : Bool) (db' db : S)
    → (b ≡ true → Q tt db')
    → Returns Q (guarded e b db' db)
guarded-Returns Q e true db' db h = h refl
guarded-Returns Q e false db' db h = tt

pub throw_if-Returns :
    {S : Type 0} (Q : Unit {0} → S → Type 0) (e : ApiError) (b : Bool) (db : S)
    → (b ≡ false → Q tt db)
    → Returns Q (throw_if b e db)
unfolding throw_if
throw_if-Returns Q e true db h = tt
throw_if-Returns Q e false db h = h refl

-- Past `if (c) throw`, the condition is false.
pub Ensures-throw_if :
    {S : Type 0} {P : S → Type 0} (b : Bool) (e : ApiError)
    → Ensures P (throw_if b e) (λ _ db. P db × (b ≡ false))
Ensures-throw_if b e = record { run = λ db h. throw_if-Returns _ e b db (λ no. (h, no)) }

-- A loop: `I` holds of what is left of the list.
pub Ensures-for_each :
    {S A : Type 0} (I : List A → S → Type 0) (body : A → Act S (Unit {0}))
    → ((x : A) (xs : List A) → Ensures (I (x ∷ xs)) (body x) (λ _. I xs))
    → (xs : List A) → Ensures (I xs) (for_each xs body) (λ _. I [])
unfolding for_each
Ensures-for_each I body pb [] = record { run = λ db h. h }
Ensures-for_each I body pb (x ∷ xs) = record {
  run = λ db h.
      and_then-Returns _ _ (body x db) (λ _. for_each xs body) ((pb x xs).run db h)
        (λ _. Ensures-for_each I body pb xs);
}

roll_back-undone :
    {S A : Type 0} (start : S) (r : Result A × S) (e : ApiError)
    → (roll_back start r).0 ≡ err e
    → (roll_back start r).1 ≡ start
roll_back-undone start (ok a, db) e h = absurd cc
roll_back-undone start (err d, db) e h = refl

-- A transaction that throws leaves the database as it was.
pub transaction-undone :
    {S A : Type 0} (m : Act S A) (e : ApiError) (db : S)
    → (transaction m db).0 ≡ err e
    → (transaction m db).1 ≡ db
unfolding transaction
transaction-undone m e db = roll_back-undone db (m db) e

roll_back-either :
    {S A : Type 0} (Q : A → S → Type 0) (R : S → Type 0) (start : S) (r : Result A × S)
    → R start
    → ((a : A) (db : S) → Q a db → R db)
    → Returns Q r
    → R (roll_back start r).1
roll_back-either Q R start (ok a, db) hs f h = f a db h
roll_back-either Q R start (err e, db) hs f h = hs

-- After a transaction, the database has what held before or what the body ensures.
pub transaction-either :
    {S A : Type 0} {P : S → Type 0} {Q : A → S → Type 0} (R : S → Type 0) (m : Act S A)
    → Ensures P m Q
    → ((db : S) → P db → R db)
    → ((a : A) (db : S) → Q a db → R db)
    → (db : S) → P db
    → R (transaction m db).1
unfolding transaction
transaction-either R m pm f g db h = roll_back-either _ R db (m db) (f db h) g (pm.run db h)

-- What follows `if (c) throw` runs where the condition is false.
pub Ensures-check :
    {S A : Type 0} {P : S → Type 0} {Q : A → S → Type 0} (b : Bool) (e : ApiError) (k : Act S A)
    → (b ≡ false → Ensures P k Q)
    → Ensures P (throw_if b e >> k) Q
unfolding ◌>>=◌
Ensures-check true e k pk = record { run = λ db h. tt }
Ensures-check false e k pk = record { run = (pk refl).run }

pub Ensures-pure :
    {S A : Type 0} {P : S → Type 0} {Q : A → S → Type 0} (a : A)
    → ((db : S) → P db → Q a db)
    → Ensures P (pure a) Q
unfolding pure
Ensures-pure a f = record { run = f }

pub Ensures-or_throw :
    {S A : Type 0} {P : S → Type 0} (Q : A → Type 0) (o : Option A) (e : ApiError)
    → OnSome Q o
    → Ensures P (or_throw o e) (λ a _. Q a)
unfolding or_throw
Ensures-or_throw Q none e h = record { run = λ db _. tt }
Ensures-or_throw Q (some a) e h = record { run = λ db _. h }

pub Ensures-gets :
    {S A : Type 0} {P : S → Type 0} (Q : A → Type 0) (f : S → A)
    → ((db : S) → Q (f db))
    → Ensures P (gets f) (λ a _. Q a)
unfolding gets
Ensures-gets Q f h = record { run = λ db _. h db }

-- What holds of the value alone is known however the call that returned it was reached.
pub Ensures-known :
    {S A B : Type 0} {P : S → Type 0} (Q : A → Type 0) {R : B → S → Type 0} (m : Act S A)
    (f : A → Act S B)
    → Ensures P m (λ a _. Q a)
    → ((a : A) → Q a → Ensures (λ _. Unit {0}) (f a) R)
    → Ensures P (m >>= f) R
unfolding ◌>>=◌
Ensures-known Q m f pm pf = record {
  run = λ db h.
      and_then-Returns _ _ (m db) f (pm.run db h) (λ a. record { run = λ d q. (pf a q).run d tt });
}

-- What is known already, whatever a call does.
pub Returns-anyway :
    {S A : Type 0} (Q : A → S → Type 0) (r : Result A × S) → ((a : A) (s : S) → Q a s) → Returns Q r
Returns-anyway Q (ok a, s) f = f a s
Returns-anyway Q (err e, s) f = tt

-- A call that ends in a throw returns nothing.
pub throws-Returns :
    {S A B : Type 0} (Q : B → S → Type 0) (r : Result A × S) (e : ApiError)
    → Returns Q (and_then r (λ _. throw {S = S} {A = B} e))
unfolding throw
throws-Returns Q (ok a, s) e = tt
throws-Returns Q (err d, s) e = tt

-- What a call ensures, of the value that it did return.
pub Returns-at :
    {S A : Type 0} (Q : A → S → Type 0) (r : Result A × S) (a : A) (s : S)
    → r ≡ (ok a, s)
    → Returns Q r
    → Q a s
Returns-at Q r a s e h = rw e at h

checked :
    {S A : Type 0} (P : S → Type 0) (r : Result (Unit {0}) × S) (k : Act S A) (s : S)
    → r.1 ≡ s
    → P s
    → (r.0 ≡ ok tt → P (k s).1)
    → P (and_then r (λ _. k)).1
checked P (ok a, t) k s same h f = rw same (f refl)
checked P (err e, t) k s same h f = rw same h

-- What follows a check runs from the same state, where the check returned.
pub check-then :
    {S A : Type 0} (P : S → Type 0) (m : Act S (Unit {0})) (k : Act S A) (s : S)
    → (m s).1 ≡ s
    → P s
    → ((m s).0 ≡ ok tt → P (k s).1)
    → P ((m >> k) s).1
unfolding ◌>>=◌
check-then P m k s same h f = checked P (m s) k s same h f

-- Reading, finding and knowing from one database on.
pub Ensures-reads :
    {S A B : Type 0} {Q : B → S → Type 0} (f : S → A) (start : S) (k : A → Act S B)
    → Ensures (λ s. s ≡ start) (k (f start)) Q
    → Ensures (λ s. s ≡ start) (gets f >>= k) Q
unfolding gets ◌>>=◌
Ensures-reads f start k pk = record { run = λ s h. rw h (pk.run start refl) }

pub Ensures-found :
    {S A B : Type 0} {P : S → Type 0} {Q : B → S → Type 0} (o : Option A) (e : ApiError)
    (k : A → Act S B)
    → ((a : A) → o ≡ some a → Ensures P (k a) Q)
    → Ensures P (or_throw o e >>= k) Q
unfolding or_throw ◌>>=◌
Ensures-found none e k pk = record { run = λ s h. tt }
Ensures-found (some a) e k pk = record { run = (pk a refl).run }

pub Ensures-knowing :
    {S B F : Type 0} {P : S → Type 0} {Q : B → S → Type 0} (k : Act S B)
    → (F → Ensures P k Q)
    → Ensures (λ s. P s × F) k Q
Ensures-knowing k pk = record { run = λ s h. (pk h.1).run s h.0 }

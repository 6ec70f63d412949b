-- ===== src/Store/Monad.antt =====
-- A service call: the database passed on, and a thrown error. What was written before a throw stays
-- written, unless the call runs inside `prisma.$transaction`, which rolls back.
-- Errors are those of src/utils/ApiError.ts, with the messages in English; `prisma` stands for an
-- error that the database layer throws, under its code: P2025 (no row to update) or P2002 (a unique
-- column is repeated).
use Prim.Native.String.{String}
use e_commerce_nodejs.Base.{ℕ, Bool, true, false, Option, none, some, List, [], ◌∷◌}
use e_commerce_nodejs.Store.Rows.{Db}

pub data ApiError : Type 0 where
  bad_request unauthorized forbidden not_found conflict too_many internal prisma : String → ApiError

-- The status that the constructor functions of `ApiError` choose.
pub status_code : ApiError → ℕ
status_code (bad_request _) = 400
status_code (unauthorized _) = 401
status_code (forbidden _) = 403
status_code (not_found _) = 404
status_code (conflict _) = 409
status_code (too_many _) = 429
status_code (internal _) = 500
status_code (prisma _) = 500

pub data Result (A : Type 0) : Type 0 where
  ok : A → Result A
  err : ApiError → Result A

-- A call on a state; `M` is a call on the database.
abbrev pub Act : Type 0 → Type 0 → Type 0
Act S A = S → Result A × S

abbrev pub M : Type 0 → Type 0
M A = Act Db A

module _ {S A : Type 0} where
  unfoldable pub pure : A → Act S A
  pure a db = (ok a, db)

  unfoldable pub throw : ApiError → Act S A
  throw e db = (err e, db)

  unfoldable pub gets : (S → A) → Act S A
  gets f db = (ok (f db), db)

  -- `if (!x) throw e;` on a row that was looked up.
  unfoldable pub or_throw : Option A → ApiError → Act S A
  or_throw none e db = (err e, db)
  or_throw (some a) e db = (ok a, db)

unfoldable pub modify : {S : Type 0} → (S → S) → Act S (Unit {0})
modify f db = (ok tt, f db)

-- `if (c) throw e;`
unfoldable pub throw_if : {S : Type 0} → Bool → ApiError → Act S (Unit {0})
throw_if true e db = (err e, db)
throw_if false e db = (ok tt, db)

-- `if (c) { m }`
unfoldable pub when : {S : Type 0} → Bool → Act S (Unit {0}) → Act S (Unit {0})
when true m db = m db
when false m db = (ok tt, db)

-- `if (x) { f(x) }` on an optional row.
unfoldable pub when_some : {S A : Type 0} → Option A → (A → Act S (Unit {0})) → Act S (Unit {0})
when_some none f db = (ok tt, db)
when_some (some a) f db = f a db

abbrev pub and_then : {S A B : Type 0} → Result A × S → (A → Act S B) → Result B × S
and_then (ok a, db) f = f a db
and_then (err e, db) f = (err e, db)

infixl 5 ◌>>=◌ ◌>>◌
-- To open this is to open the calls above too.
unfoldable pub ◌>>=◌ : {S A B : Type 0} → Act S A → (A → Act S B) → Act S B
unfolding pure throw gets or_throw modify throw_if when when_some
◌>>=◌ m f db = and_then (m db) f

abbrev pub ◌>>◌ : {S A B : Type 0} → Act S A → Act S B → Act S B
m >> k = m >>= λ _. k

-- `for (const x of xs) { body(x) }`
unfoldable pub for_each : {S A : Type 0} → List A → (A → Act S (Unit {0})) → Act S (Unit {0})
for_each [] body db = (ok tt, db)
for_each (x ∷ xs) body db = and_then (body x db) (λ _. for_each xs body)

-- `try { m } catch { }`, and a promise whose failure is dropped.
unfoldable pub attempt : {S A : Type 0} → Act S A → Act S (Unit {0})
attempt m db = (ok tt, (m db).1)

abbrev pub first_error : Result (Unit {0}) → Result (Unit {0}) → Result (Unit {0})
first_error (ok _) r = r
first_error (err e) r = err e

-- `Promise.all(xs.map(body))`: every call runs, and the first failure is thrown.
unfoldable pub all_of : {S A : Type 0} → List A → (A → Act S (Unit {0})) → Act S (Unit {0})
all_of [] body db = (ok tt, db)
all_of (x ∷ xs) body db =
    let (r, db') = body x db in let (rest, db'') = all_of xs body db' in (first_error r rest, db'')

abbrev pub roll_back : {S A : Type 0} → S → Result A × S → Result A × S
roll_back start (ok a, db) = (ok a, db)
roll_back start (err e, db) = (err e, start)

-- `prisma.$transaction`: a throw undoes every write of the body.
unfoldable pub transaction : {S A : Type 0} → Act S A → Act S A
transaction m db = roll_back db (m db)

-- ===== src/Queue/Transaction.antt =====
-- Statements on a connection, and transactions (Pool.Begin, tx.Exec, tx.QueryRow, tx.Commit and the
-- deferred tx.Rollback of pkg/tasks/queue/pgqueue.go). The database is not under this repository: a
-- connection serves a number of statements, chosen by the environment, and then fails with an error
-- that the environment chose.
pub mod Rules
pub mod Runs
use content_sources_backend.Common.{ℕ, zero, suc, Option, none, some}
use content_sources_backend.Queue.Types.{Db, Error, db_error}

-- How many statements succeed, and the error of the next one.
pub record Link : Type 0 where
  pub statements : ℕ
  pub fault : Error

pub record Conn : Type 0 where
  pub db : Db
  pub link : Link

pub data Outcome (A : Type 0) : Type 0 where
  ok : A → Conn → Outcome A
  err : Error → Outcome A

abbrev pub M : Type 0 → Type 0
M A = Conn → Outcome A

infixl 5 ◌>>=◌ ◌>>◌
abbrev pub ◌>>=◌ : {A B : Type 0} → M A → (A → M B) → M B
◌>>=◌ m f c = elim (m c) [ ok a c' ↦ f a c' | err e ↦ err e ]

abbrev pub ◌>>◌ : {A B : Type 0} → M A → M B → M B
m >> k = m >>= λ _. k

abbrev pub pure : {A : Type 0} → A → M A
pure a c = ok a c

abbrev pub throw : {A : Type 0} → Error → M A
throw e c = err e

-- One statement that reads and writes the database.
abbrev pub statement : {A : Type 0} → (Db → A) → (Db → Db) → M A
statement read write c = elim c.link.statements [
  | zero ↦ err c.link.fault
  | suc n ↦
      ok (read c.db)
        (record { db = write c.db; link = record { statements = n; fault = c.link.fault } })
]

abbrev pub query : {A : Type 0} → (Db → A) → M A
query read = statement read (λ d. d)

abbrev pub exec : (Db → Db) → M (Unit {0})
exec write = statement (λ _. tt) write

-- A statement that a constraint of the schema may refuse.
abbrev pub or_refused : Option Db → Conn → Outcome (Unit {0})
or_refused none c = err db_error
or_refused (some d) c = ok tt (record c { db = d })

abbrev pub exec_checked : (Db → Option Db) → M (Unit {0})
exec_checked write = do d ← query write; or_refused d

abbrev pub begin : M (Unit {0})
begin = exec (λ d. d)

abbrev pub commit : M (Unit {0})
commit = exec (λ d. d)

pub data Result (A : Type 0) : Type 0 where
  done : A → Result A
  fails : Error → Result A

-- A transaction: the state that it leaves if it is committed, and the old one if it is not.
abbrev pub settle : {A : Type 0} → Db → Outcome A → Result A × Db
settle old (ok a c) = (done a, c.db)
settle old (err e) = (fails e, old)

abbrev pub transact : {A : Type 0} → M A → Db → Link → Result A × Db
transact m db link = settle db (m (record { db = db; link = link }))

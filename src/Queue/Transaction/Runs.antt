-- ===== src/Queue/Transaction/Runs.antt =====
-- What a transaction computes over a connection that serves enough statements, part by part.
use content_sources_backend.Common.{ℕ, suc, ◌+◌, ◌≡◌, ap, ◌∙◌, Option, some, arith}
use content_sources_backend.Queue.Types.{Db, Error}
use content_sources_backend.Queue.Transaction.{
  Link, Conn, Outcome, ok, err, M, ◌>>=◌, ◌>>◌, pure, statement, query, exec, exec_checked, done,
  fails, transact,
}

abbrev pub serving : ℕ → Error → Link
serving n fault = record { statements = n; fault = fault }

abbrev pub over : Db → ℕ → Error → Conn
over d n fault = record { db = d; link = serving n fault }

-- With `n` statements, from tables `d`, it returns `a` and leaves `e`.
abbrev pub Runs : {A : Type 0} → M A → Db → ℕ → A → Db → Type 0
Runs m d n a e = (k : ℕ) (fault : Error) → m (over d (n + k) fault) ≡ ok a (over e k fault)

-- With `n` statements it stops with an error of its own.
abbrev pub Stops : {A : Type 0} → M A → Db → ℕ → Error → Type 0
Stops m d n e = (k : ℕ) (fault : Error) → m (over d (n + k) fault) ≡ err e

module _ {A : Type 0} where
  bind-ok :
      {B : Type 0} (m : M A) (f : A → M B) {c : Conn} {a : A} {c' : Conn}
      → m c ≡ ok a c'
      → (m >>= f) c ≡ f a c'
  bind-ok {B} m f h = ap after h
    where
      after : Outcome A → Outcome B
      after o = elim o [ ok a c' ↦ f a c' | err e ↦ err e ]

  bind-err :
      {B : Type 0} (m : M A) (f : A → M B) {c : Conn} {e : Error}
      → m c ≡ err e
      → (m >>= f) c ≡ err e
  bind-err {B} m f h = ap after h
    where
      after : Outcome A → Outcome B
      after o = elim o [ ok a c' ↦ f a c' | err e ↦ err e ]

  pub bind-Runs :
      {B : Type 0} (m : M A) (f : A → M B) (d : Db) (n : ℕ) (a : A) (d' : Db) (n' : ℕ) (b : B)
      (e : Db)
      → Runs m d n a d'
      → Runs (f a) d' n' b e
      → Runs (m >>= f) d (n + n') b e
  bind-Runs m f d n a d' n' b e h h' k fault =
      let sums : n + n' + k ≡ n + (n' + k) = omega arith in
      rw sums (bind-ok m f (h (n' + k) fault) ∙ h' k fault)

  pub bind-Stops :
      {B : Type 0} (m : M A) (f : A → M B) (d : Db) (n : ℕ) (a : A) (d' : Db) (n' : ℕ) (e : Error)
      → Runs m d n a d'
      → Stops (f a) d' n' e
      → Stops (m >>= f) d (n + n') e
  bind-Stops m f d n a d' n' e h h' k fault =
      let sums : n + n' + k ≡ n + (n' + k) = omega arith in
      rw sums (bind-ok m f (h (n' + k) fault) ∙ h' k fault)

  pub Stops-first :
      {B : Type 0} (m : M A) (f : A → M B) (d : Db) (n : ℕ) (e : Error)
      → Stops m d n e
      → Stops (m >>= f) d n e
  Stops-first m f d n e h k fault = bind-err m f (h k fault)

  pub statement-Runs :
      (read : Db → A) (write : Db → Db) (d : Db)
      → Runs (statement read write) d 1 (read d) (write d)
  statement-Runs read write d k fault = let next : 1 + k ≡ suc k = omega arith in rw next

  pub query-Runs : (read : Db → A) (d : Db) → Runs (query read) d 1 (read d) d
  query-Runs read d = statement-Runs read (λ x. x) d

  pub pure-Runs : (a : A) (d : Db) → Runs (pure a) d 0 a d
  pure-Runs a d k fault = ap (λ n. ok a (over d n fault)) (omega arith)

  -- The transaction as a whole.
  pub transact-Runs :
      (m : M A) (d : Db) (n : ℕ) (a : A) (e : Db) (k : ℕ) (fault : Error)
      → Runs m d n a e
      → transact m d (serving (n + k) fault) ≡ (done a, e)
  transact-Runs m d n a e k fault h = rw (h k fault)

  pub transact-Stops :
      (m : M A) (d : Db) (n : ℕ) (e : Error) (k : ℕ) (fault : Error)
      → Stops m d n e
      → transact m d (serving (n + k) fault) ≡ (fails e, d)
  transact-Stops m d n e k fault h = rw (h k fault)

pub exec-Runs : (write : Db → Db) (d : Db) → Runs (exec write) d 1 tt (write d)
exec-Runs write d = statement-Runs (λ _. tt) write d

pub exec_checked-Runs :
    (write : Db → Option Db) (d e : Db) → write d ≡ some e → Runs (exec_checked write) d 1 tt e
exec_checked-Runs write d e h k fault = let next : 1 + k ≡ suc k = omega arith in rw (next, h)

-- A statement with what follows it.
pub exec_then-Runs :
    {B : Type 0} (write : Db → Db) (m : M B) (d : Db) (n : ℕ) (b : B) (e : Db)
    → Runs m (write d) n b e
    → Runs (exec write >> m) d (1 + n) b e
exec_then-Runs write m d n b e h =
    bind-Runs (exec write) (λ _. m) d 1 tt (write d) n b e (exec-Runs write d) h

-- ===== src/Queue/Transaction/Rules.antt =====
-- Rules for what a transaction leaves behind, one for each way to build one.
use content_sources_backend.Common.{
  ℕ, zero, suc, ◌≡◌, refl, sym, Bool, true, false, Option, none, some, if◌then◌else◌,
}
use content_sources_backend.Queue.Types.{Db}
use content_sources_backend.Queue.Transaction.{
  Link, Conn, Outcome, ok, err, M, ◌>>=◌, statement, exec_checked, or_refused, settle, transact,
}

-- What holds of the value and the tables, if the connection served every statement.
abbrev pub Post : {A : Type 0} → (A → Db → Type 0) → Outcome A → Type 0
Post Q (ok a c) = Q a c.db
Post Q (err e) = Unit

module _ {A : Type 0} where
  pub bind-Post :
      {B : Type 0} (R : A → Db → Type 0) (Q : B → Db → Type 0) (m : M A) (f : A → M B) (c : Conn)
      → Post R (m c)
      → ((a : A) (d : Conn) → R a d.db → Post Q (f a d))
      → Post Q ((m >>= f) c)
  bind-Post {B} R Q m f c h k = go (m c) h
    where
      go : (o : Outcome A) → Post R o → Post Q (elim o [ ok a c' ↦ f a c' | err e ↦ err e ])
      go (ok a d) r = k a d r
      go (err e) r = tt

  pub statement-Post :
      (Q : A → Db → Type 0) (read : Db → A) (write : Db → Db) (c : Conn)
      → Q (read c.db) (write c.db)
      → Post Q (statement read write c)
  statement-Post Q read write c h = go c.link.statements
    where
      go :
          (n : ℕ)
          → Post Q (elim n [
            | zero ↦ err c.link.fault
            | suc n ↦
                ok (read c.db) (record {
                  db = write c.db;
                  link = record { statements = n; fault = c.link.fault };
                })
          ])
      go zero = tt
      go (suc n) = h

  pub if-Post :
      (Q : A → Db → Type 0) (b : Bool) (m k : M A) (c : Conn)
      → (b ≡ true → Post Q (m c))
      → (b ≡ false → Post Q (k c))
      → Post Q ((if b then m else k) c)
  if-Post Q true m k c h l = h refl
  if-Post Q false m k c h l = l refl

  -- What a transaction leaves, committed or not.
  pub settle-Post :
      (I : Db → Type 0) (old : Db) (o : Outcome A)
      → I old
      → Post (λ _ d. I d) o
      → I (settle old o).1
  settle-Post I old (ok a c) i h = h
  settle-Post I old (err e) i h = i

pub exec_checked-Post :
    (Q : Unit {0} → Db → Type 0) (write : Db → Option Db) (c : Conn)
    → ((e : Db) → write c.db ≡ some e → Q tt e)
    → Post Q (exec_checked write c)
exec_checked-Post Q write c h =
    bind-Post (λ o d. (o ≡ write c.db)) Q (statement write (λ d. d)) or_refused c
      (statement-Post (λ o d. (o ≡ write c.db)) write (λ d. d) c refl) go
  where
    go : (o : Option Db) (d : Conn) → o ≡ write c.db → Post Q (or_refused o d)
    go none d e = tt
    go (some x) d e = h x (sym e)

-- From tables with P a transaction leaves tables with Q, or fails.
abbrev pub Triple : {A : Type 0} → (Db → Type 0) → M A → (A → Db → Type 0) → Type 0
Triple P m Q = (c : Conn) → P c.db → Post Q (m c)

module _ {A : Type 0} where
  pub bind-Triple :
      {B : Type 0} (P : Db → Type 0) (R : A → Db → Type 0) (Q : B → Db → Type 0) (m : M A)
      (f : A → M B)
      → Triple P m R
      → ((a : A) → Triple (R a) (f a) Q)
      → Triple P (m >>= f) Q
  bind-Triple P R Q m f h k c p = bind-Post R Q m f c (h c p) (λ a d r. k a d r)

  pub statement-Triple :
      (P : Db → Type 0) (Q : A → Db → Type 0) (read : Db → A) (write : Db → Db)
      → ((d : Db) → P d → Q (read d) (write d))
      → Triple P (statement read write) Q
  statement-Triple P Q read write h c p = statement-Post Q read write c (h c.db p)

  pub if-Triple :
      (P : Db → Type 0) (Q : A → Db → Type 0) (b : Bool) (m k : M A)
      → (b ≡ true → Triple P m Q)
      → (b ≡ false → Triple P k Q)
      → Triple P (if b then m else k) Q
  if-Triple P Q true m k h l = h refl
  if-Triple P Q false m k h l = l refl

pub weaken-Triple :
    {A : Type 0} (P : Db → Type 0) (Q R : A → Db → Type 0) (m : M A)
    → Triple P m Q
    → ((a : A) (d : Db) → Q a d → R a d)
    → Triple P m R
weaken-Triple {A} P Q R m h k c p = go (m c) (h c p)
  where
    go : (o : Outcome A) → Post Q o → Post R o
    go (ok a d) q = k a d.db q
    go (err e) q = tt

pub exec_checked-Triple :
    (P : Db → Type 0) (Q : Unit {0} → Db → Type 0) (write : Db → Option Db)
    → ((d e : Db) → P d → write d ≡ some e → Q tt e)
    → Triple P (exec_checked write) Q
exec_checked-Triple P Q write h c p = exec_checked-Post Q write c (λ e. h c.db e p)

-- A part of a transaction that keeps what holds of the tables.
abbrev pub Keeps : {A : Type 0} → (Db → Type 0) → M A → Type 0
Keeps I m = Triple I m (λ _ d. I d)

module _ (I : Db → Type 0) where
  pub then-Keeps :
      {A B : Type 0} (m : M A) (f : A → M B)
      → Keeps I m
      → ((a : A) → Keeps I (f a))
      → Keeps I (m >>= f)
  then-Keeps m f h k = bind-Triple I (λ _ d. I d) (λ _ d. I d) m f h k

  pub statement-Keeps :
      {A : Type 0} (read : Db → A) (write : Db → Db)
      → ((d : Db) → I d → I (write d))
      → Keeps I (statement read write)
  statement-Keeps read write h = statement-Triple I (λ _ d. I d) read write h

  pub exec_checked-Keeps :
      (write : Db → Option Db)
      → ((d e : Db) → I d → write d ≡ some e → I e)
      → Keeps I (exec_checked write)
  exec_checked-Keeps write h = exec_checked-Triple I (λ _ d. I d) write h

  pub transact-Keeps :
      {A : Type 0} (m : M A) (d : Db) (link : Link) → Keeps I m → I d → I (transact m d link).1
  transact-Keeps m d link h i = settle-Post I d _ i (h (record { db = d; link = link }) i)

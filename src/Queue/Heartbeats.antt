-- ===== src/Queue/Heartbeats.antt =====
-- PgQueue.Heartbeats, RefreshHeartbeat and IdFromToken (pkg/tasks/queue/pgqueue.go). Their
-- statements run outside a transaction, each committed by itself.
use content_sources_backend.Common.{
  ℕ, zero, suc, ◌+◌, Bool, true, false, Option, none, some, List, [], map, ltb, ◌==◌, if◌then◌else◌,
}
use content_sources_backend.Table.{find, affected, matching}
use content_sources_backend.Queue.Types.{TaskInfo, Heartbeat, Db, not_exist, rows_not_affected}
use content_sources_backend.Queue.Transaction.{Link, Result, done, fails}
use content_sources_backend.Queue.Statements.{is_running, touch}

abbrev has_token : ℕ → Option ℕ → Bool
has_token token none = false
has_token token (some t) = t == token

abbrev one_less : ℕ → Link → Link
one_less n link = record { statements = n; fault = link.fault }

-- sqlQueryHeartbeats and the loop over its rows; a query that fails gives no token.
unfoldable pub heartbeats : ℕ → ℕ → Db → Link → List ℕ
heartbeats older_than now d link = elim link.statements [
  | zero ↦ []
  | suc n ↦
      map (λ (h : Heartbeat). h.token)
        (matching (λ h. ltb (h.heartbeat + older_than) now) d.heartbeats)
]

abbrev pub identify : Option TaskInfo → Result (ℕ × Bool)
identify none = fails not_exist
identify (some t) = done (t.id, is_running t.status)

unfoldable pub id_from_token : ℕ → Db → Link → Result (ℕ × Bool)
id_from_token token d link = elim link.statements [
  | zero ↦ fails link.fault
  | suc n ↦ identify (find (λ t. has_token token t.token) d.tasks)
]

-- The second attempt of RefreshHeartbeat, for a token whose task runs.
unfoldable pub refresh_again : ℕ → ℕ → Db → Link → Result (Unit {0}) × Db
refresh_again now token d link = elim link.statements [
  | zero ↦ (fails link.fault, d)
  | suc n ↦ (
    if affected (λ h. h.token == token) d.heartbeats == 1 then done tt else fails rows_not_affected,
    touch now token d,
  )
]

abbrev after_identify : ℕ → ℕ → Db → Link → Result (ℕ × Bool) → Result (Unit {0}) × Db
after_identify now token d link (fails e) = (fails e, d)
after_identify now token d link (done (id, false)) = (done tt, d)
after_identify now token d link (done (id, true)) = refresh_again now token d link

abbrev later_link : Link → Link
later_link link = elim link.statements [ zero ↦ link | suc n ↦ one_less n link ]

unfoldable pub refresh_missed : ℕ → ℕ → Db → Link → Result (Unit {0}) × Db
unfolding id_from_token refresh_again
refresh_missed now token d link =
    after_identify now token d (later_link link) (id_from_token token d link)

unfoldable pub refresh_heartbeat : ℕ → ℕ → Db → Link → Result (Unit {0}) × Db
unfolding refresh_missed
refresh_heartbeat now token d link = if token == 0 then (done tt, d) else elim link.statements [
  | zero ↦ (fails link.fault, d)
  | suc n ↦
      if affected (λ h. h.token == token) d.heartbeats == 1
      then (done tt, touch now token d)
      else refresh_missed now token (touch now token d) (one_less n link)
]

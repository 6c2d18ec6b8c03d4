-- ===== src/Queue/Invariant.antt =====
-- What holds of the tables of the queue between two calls.
pub mod Kept
pub mod Rows
pub mod Statements
pub mod WellFormed
pub mod Methods
pub mod Endings
pub mod History
use content_sources_backend.Common.{◌≡◌, Bool, true, false, Option, is_none, is_some, All}
use content_sources_backend.Table.Laws.{DistinctBy}
use content_sources_backend.Queue.Types.{
  Status, pending, running, completed, failed, canceled, TaskInfo, Heartbeat, Db,
}

-- The columns that go with a status. The check constraints of the schema say less.
abbrev pub Fits : Status → Bool → Bool → Bool → Type 0
Fits pending started finished attempted = (started ≡ false) × (finished ≡ false)
Fits running started finished attempted = (started ≡ true) × (finished ≡ false)
Fits completed started finished attempted = (started ≡ true) × (finished ≡ true)
Fits failed started finished attempted = (started ≡ true) × (finished ≡ true)
Fits canceled started finished attempted = (finished ≡ false) × (attempted ≡ true)

-- A row's status fits its times, and it has a token exactly when it is started.
abbrev pub IsConsistent : TaskInfo → Type 0
IsConsistent t =
    Fits t.status (is_some t.started_at) (is_some t.finished_at) t.cancel_attempted
    × (is_some t.token ≡ is_some t.started_at)

pub record IsWellFormed (d : Db) : Type 0 where
  pub distinct : DistinctBy (λ (t : TaskInfo). t.id) d.tasks
  pub consistent : All IsConsistent d.tasks
  pub beats : DistinctBy (λ (h : Heartbeat). h.token) d.heartbeats

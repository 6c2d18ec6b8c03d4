-- ===== src/Examples/Tables.antt =====
-- Tables of the queue with a running task and one that waits for it.
use content_sources_backend.Common.{true, false, none, some, [], ◌∷◌, refl}
use content_sources_backend.Queue.Types.{
  TaskInfo, running, pending, failed, canceled, Dependency, Heartbeat, Db, repository_snapshot_task,
  delete_snapshots_task,
}
use content_sources_backend.Queue.Invariant.{IsWellFormed}

-- A snapshot that has run since 20.
abbrev pub snapshot : TaskInfo
snapshot = record {
  id = 1;
  typename = repository_snapshot_task;
  payload = "";
  org_id = "org";
  account_id = "";
  object_uuid = none;
  object_type = none;
  token = some 7;
  queued_at = 10;
  started_at = some 20;
  finished_at = none;
  error = none;
  status = running;
  request_id = "";
  retries = 0;
  next_retry_time = none;
  priority = 0;
  cancel_attempted = false;
}

-- A task that waits for the snapshot.
abbrev pub follower : TaskInfo
follower = record snapshot {
  id = 2;
  typename = delete_snapshots_task;
  token = none;
  queued_at = 11;
  started_at = none;
  status = pending;
}

-- A task that nothing holds back.
abbrev pub loner : TaskInfo
loner = record follower { id = 3 }

abbrev pub beat : Heartbeat
beat = record { token = 7; id = 1; heartbeat = 20 }

abbrev pub waiting_on : Dependency
waiting_on = record { task_id = 2; dependency_id = 1 }

-- The snapshot runs, and the follower waits.
abbrev pub busy : Db
busy = record {
  tasks = snapshot ∷ follower ∷ [];
  dependencies = waiting_on ∷ [];
  heartbeats = beat ∷ [];
  notifications = [];
}

-- There is also a task to start.
abbrev pub ready : Db
ready = record busy { tasks = loner ∷ snapshot ∷ follower ∷ [] }

-- The snapshot has used up its retries.
abbrev pub spent_task : TaskInfo
spent_task = record snapshot { retries = 3 }

abbrev pub spent : Db
spent = record busy { tasks = spent_task ∷ follower ∷ [] }

-- A task that failed at 30 and may be retried from 40 on.
abbrev pub failed_task : TaskInfo
failed_task = record snapshot {
  typename = delete_snapshots_task;
  finished_at = some 30;
  status = failed;
  next_retry_time = some 40;
}

-- The follower after its user canceled it.
abbrev pub canceled_task : TaskInfo
canceled_task = record follower { status = canceled; cancel_attempted = true }

abbrev pub failed_tables : Db
failed_tables = record busy { tasks = failed_task ∷ canceled_task ∷ []; heartbeats = [] }

pub busy-IsWellFormed : IsWellFormed busy
busy-IsWellFormed = record {
  distinct = (refl, (refl, tt));
  consistent = (((refl, refl), refl), (((refl, refl), refl), tt));
  beats = (refl, tt);
}

pub ready-IsWellFormed : IsWellFormed ready
ready-IsWellFormed = record {
  distinct = (refl, (refl, (refl, tt)));
  consistent = (((refl, refl), refl), (((refl, refl), refl), (((refl, refl), refl), tt)));
  beats = (refl, tt);
}

pub spent-IsWellFormed : IsWellFormed spent
spent-IsWellFormed = record {
  distinct = (refl, (refl, tt));
  consistent = (((refl, refl), refl), (((refl, refl), refl), tt));
  beats = (refl, tt);
}

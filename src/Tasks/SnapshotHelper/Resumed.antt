-- ===== src/Tasks/SnapshotHelper/Resumed.antt =====
-- A snapshot that is run again does not start a second publication.
use content_sources_backend.Common.{
  ℕ, ◌+◌, ◌≤◌, ◌≡◌, Bool, Option, none, some, Text, arith, is_none, if◌then◌else◌,
}
use content_sources_backend.Tasks.Effects.{
  Error, Result, ok, err, Action, run_on, require, deref, no_publication_task, no_publication_href,
}
use content_sources_backend.Tasks.Pulp.{PulpClient, select_publication_href}
use content_sources_backend.Tasks.DistributionHelper.{Repository}
use content_sources_backend.Tasks.SnapshotHelper.{
  Resumable, SnapshotServices, start_publication, await_publication, publication_or_await,
  find_or_create_publication,
}

module _ {W : Type 0} (created : W → ℕ) (repo_content_guards : Bool) (pulp : PulpClient W)
    (payload : Resumable W) (services : SnapshotServices W) (repo : Repository)
    (domain : Text) where
  -- The publications that were started, of which each call tells whatever it answers.
  pub record Counts : Type 0 where
    pub by_find :
        (version : Text) (w : W)
        → created (pulp.find_rpm_publication_by_version version w).1 ≡ created w
    pub keeps_task :
        (version : Text) (w : W)
        → payload.get_publication_task_href (pulp.find_rpm_publication_by_version version w).1
          ≡ payload.get_publication_task_href w
    pub by_create :
        (version : Text) (w : W) → created (pulp.create_rpm_publication version w).1 ≤ created w + 1
    pub by_poll : (href : Text) (w : W) → created (pulp.poll_task href w).1 ≡ created w
    pub by_save :
        (href : Text) (w : W) → created (payload.save_publication_task_href href w).1 ≡ created w

  module _ (law : Counts) where
    -- At most so many are started, whatever the outcome.
    abbrev AtMost : {A : Type 0} → ℕ → Result A × W → Type 0
    AtMost n o = created o.1 ≤ n

    bind-AtMost :
        {A B : Type 0} (n : ℕ) (o : Result A × W) (f : A → Action W B)
        → AtMost n o
        → ((a : A) (v : W) → created v ≤ n → AtMost n (f a v))
        → AtMost n (run_on o f)
    bind-AtMost n (ok a, v) f h k = k a v h
    bind-AtMost n (err e, v) f h k = h

    require-AtMost :
        {A : Type 0} (n : ℕ) (o : Option A) (e : Error) (w : W)
        → created w ≤ n
        → AtMost n (require {W = W} o e w)
    require-AtMost n none e w h = h
    require-AtMost n (some a) e w h = h

    deref-AtMost :
        {A : Type 0} (n : ℕ) (o : Option A) (w : W) → created w ≤ n → AtMost n (deref {W = W} o w)
    deref-AtMost n none w h = h
    deref-AtMost n (some a) w h = h

    start_publication-AtMost :
        (n : ℕ) (saved : Option Text) (version : Text) (w : W)
        → (if is_none saved then created w + 1 else created w) ≤ n
        → AtMost n (
            start_publication repo_content_guards pulp payload services repo domain saved version w)
    start_publication-AtMost n (some href) version w h = h
    start_publication-AtMost n none version w h =
        bind-AtMost n (pulp.create_rpm_publication version w) _
          (omega (arith, law.by_create version w))
          λ made v hv.
            bind-AtMost n (require made no_publication_task v) _ (require-AtMost n made _ v hv)
              λ href u hu. omega (arith, law.by_save href u)

    await_publication-AtMost :
        (n : ℕ) (version : Text) (w : W)
        → (if is_none (payload.get_publication_task_href w) then created w + 1 else created w) ≤ n
        → AtMost n
            (await_publication repo_content_guards pulp payload services repo domain version w)
    unfolding await_publication
    await_publication-AtMost n version w h =
        bind-AtMost n
          (start_publication repo_content_guards pulp payload services repo domain
            (payload.get_publication_task_href w) version w)
          _ (start_publication-AtMost n (payload.get_publication_task_href w) version w h)
          λ started v hv.
            bind-AtMost n (deref (payload.get_publication_task_href v) v) _
              (deref-AtMost n (payload.get_publication_task_href v) v hv)
              λ href u hu.
                bind-AtMost n (pulp.poll_task href u) _ (omega (arith, law.by_poll href u))
                  λ task t ht.
                    require-AtMost n (select_publication_href (some task)) no_publication_href t ht

    -- Suppose that only CreateRpmPublication starts a publication, one at a time. However
    -- findOrCreatePublication ends, with a publication or with an error at any of its steps, it has
    -- started at most one, and none if the payload had a publication task saved: a task that is run
    -- again after an interruption resumes the one that it has.
    pub find_or_create_publication-started :
        (version : Text) (w : W)
        → created
            (find_or_create_publication repo_content_guards pulp payload services repo domain
              version w).1
          ≤ (if is_none (payload.get_publication_task_href w) then created w + 1 else created w)
    unfolding find_or_create_publication
    find_or_create_publication-started version w =
        look (pulp.find_rpm_publication_by_version version w) (law.by_find version w)
          (law.keeps_task version w)
      where
        bound : ℕ
        bound = if is_none (payload.get_publication_task_href w) then created w + 1 else created w

        either :
            (publication : Option Text) (v : W)
            → created v ≡ created w
            → payload.get_publication_task_href v ≡ payload.get_publication_task_href w
            → AtMost bound (
                publication_or_await repo_content_guards pulp payload services repo domain
                  publication version v)
        either (some href) v same kept = ground arith
        either none v same kept =
            await_publication-AtMost bound version v (rw (kept, same) (omega arith))

        look :
            (o : Result (Option Text) × W)
            → created o.1 ≡ created w
            → payload.get_publication_task_href o.1 ≡ payload.get_publication_task_href w
            → AtMost bound (
                run_on o (λ publication.
                  publication_or_await repo_content_guards pulp payload services repo domain
                    publication version))
        look (ok publication, v) same kept = either publication v same kept
        look (err e, v) same kept = ground arith

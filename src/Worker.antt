-- ===== src/Worker.antt =====
-- app/workers/worker.py, the names of app/workers/tasks.py, and app/core/queue.py.
pub mod Drain
use event_booking_ticketing.Common.{
  str_eq, not, ◌+◌, false, leb, ◌&&◌, [], any, true, String, if◌then◌else◌, ◌∷◌, Bool, List, ℕ,
}

-- The keys of `TASK_HANDLERS`.
abbrev pub task_handlers : List String
task_handlers =
    "send_otp_email" ∷ "send_password_reset_email" ∷ "send_invoice_email"
    ∷ "send_cancellation_email" ∷ []

-- The JSON object of a job; `retries` is 0 where it is missing.
pub record QueuedJob : Type 0 where
  pub task : String
  pub payload : String
  pub retries : ℕ

-- The text of a job, or text that is not that of a JSON object.
pub data RawJob : Type 0 where
  job_text : QueuedJob → RawJob
  other_text : String → RawJob

-- The lists `queue:jobs` and `queue:jobs:dead_letter`, the right end first: RPUSH puts an element
-- there, and BRPOP takes one from there.
pub record Queues : Type 0 where
  pub jobs : List RawJob
  pub dead_letter : List RawJob

abbrev pub rpush : RawJob → Queues → Queues
rpush raw q = record q { jobs = raw ∷ q.jobs }

abbrev pub rpush_dead : RawJob → Queues → Queues
rpush_dead raw q = record q { dead_letter = raw ∷ q.dead_letter }

abbrev pub max_retries : ℕ
max_retries = 3

unfoldable pub has_handler : String → Bool
has_handler task = any (str_eq task) task_handlers

-- The `except` branch.
unfoldable pub retry : QueuedJob → Queues → Queues
retry job q =
    if leb (job.retries + 1) max_retries
    then rpush (job_text (record job { retries = job.retries + 1 })) q
    else rpush_dead (job_text job) q

-- `delivered` tells whether the handler of the task returns or raises.
unfoldable pub process_single_job : Bool → RawJob → Queues → Bool × Queues
process_single_job delivered (other_text text) q = (false, rpush_dead (other_text text) q)
process_single_job delivered (job_text job) q =
    if not (has_handler job.task)
    then (false, q)
    else if delivered
    then (true, q)
    else (false, retry job q)

-- A round of the loop of `main`, which waits where the queue is empty.
unfoldable pub work : Bool → Queues → Queues
work delivered q = elim q.jobs [
  | [] ↦ q
  | raw ∷ rest ↦ (process_single_job delivered raw (record q { jobs = rest })).1
]

-- Some rounds, with what becomes of the handler in each.
unfoldable pub rounds : List Bool → Queues → Queues
rounds [] q = q
rounds (delivered ∷ more) q = rounds more (work delivered q)

-- Where a job goes: to the queue, or to the background tasks of the response.
pub record Outbox : Type 0 where
  pub queues : Queues
  pub background_tasks : List QueuedJob

-- `background` tells whether the caller has background tasks to fall back on.
unfoldable pub fallback : Bool → QueuedJob → Outbox → Outbox
fallback background job o =
    if background && has_handler job.task
    then record o { background_tasks = job ∷ o.background_tasks }
    else o

-- `enqueue_job` and `enqueue_job_sync`, where Redis can be reached or not.
unfoldable pub enqueue_job : Bool → String → String → Bool → Outbox → Bool × Outbox
enqueue_job redis_up task payload background o =
    let job : QueuedJob = record { task = task; payload = payload; retries = 0 } in
    if redis_up
    then (true, record o { queues = rpush (job_text job) o.queues })
    else (false, fallback background job o)

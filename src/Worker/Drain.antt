-- ===== src/Worker/Drain.antt =====
-- The rounds of the worker, and the jobs that are left.
use event_booking_ticketing.Worker.{
  rpush_dead, rpush, max_retries, has_handler, job_text, QueuedJob, retry, other_text, work, Queues,
  process_single_job, rounds, RawJob,
}
use event_booking_ticketing.Common.{
  false, refl, [], ◌∷◌, true, ◌≡◌, ◌-◌, suc, arith, length, ◌≤◌, ◌+◌, Bool, sum_by, List, ℕ,
}

-- The attempts that a job has left.
abbrev pub attempts : RawJob → ℕ
attempts (other_text text) = 1
attempts (job_text job) = suc (max_retries - job.retries)

abbrev pub attempts_left : Queues → ℕ
attempts_left q = sum_by attempts q.jobs

process_single_job-attempts :
    (delivered : Bool) (raw : RawJob) (q : Queues)
    → attempts_left (process_single_job delivered raw q).1 + 1 ≤ attempts raw + attempts_left q
unfolding process_single_job retry
process_single_job-attempts delivered (other_text text) q = omega arith
process_single_job-attempts delivered (job_text job) q = ground arith

work-attempts :
    (delivered : Bool) (q : Queues) → attempts_left (work delivered q) ≤ attempts_left q - 1
unfolding work
work-attempts delivered q = work_list delivered q.jobs q.dead_letter
  where
    work_list :
        (delivered : Bool) (jobs dead : List RawJob)
        → attempts_left (work delivered (record { jobs = jobs; dead_letter = dead }))
          ≤ sum_by attempts jobs - 1
    work_list delivered [] dead = omega arith
    work_list delivered (raw ∷ rest) dead = omega (
      arith,
      process_single_job-attempts delivered raw (record { jobs = rest; dead_letter = dead }),
    )

no_attempts : (jobs : List RawJob) → sum_by attempts jobs ≤ 0 → jobs ≡ []
no_attempts [] h = refl
no_attempts (other_text text ∷ jobs) h = absurd (omega arith)
no_attempts (job_text job ∷ jobs) h = absurd (omega arith)

-- The queue is empty after as many rounds as there are attempts left: four for a new job, fewer for
-- one that was tried before, one for what is no job. So it is whichever handlers fail.
pub rounds_drain :
    (outcomes : List Bool) (q : Queues)
    → attempts_left q ≤ length outcomes
    → (rounds outcomes q).jobs ≡ []
unfolding rounds
rounds_drain [] q h = no_attempts q.jobs h
rounds_drain (delivered ∷ more) q h =
    rounds_drain more (work delivered q) (omega (arith, work-attempts delivered q))

-- A new job whose handler keeps failing is tried four times, before every job that was on the queue
-- already, and then stands in the dead letter queue with its three retries.
pub failing_job_dies :
    (job : QueuedJob) (q : Queues)
    → has_handler job.task ≡ true
    → job.retries ≡ 0
    → rounds (false ∷ false ∷ false ∷ false ∷ []) (rpush (job_text job) q)
      ≡ rpush_dead (job_text (record job { retries = max_retries })) q
unfolding rounds work process_single_job retry
failing_job_dies job q known new = ground arith

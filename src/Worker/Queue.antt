-- ===== src/Worker/Queue.antt =====
-- The goroutines of internal/order/worker.go that share `jobs` and `inflight`, as interleaved steps:
-- any number of them may be between the `LoadOrStore` and the send of `tryEnqueue`, and any number of
-- jobs may be in the hands of workers.
use loyalty_system.Prelude.{
  ℕ, ◌+◌, ◌≤◌, ◌<◌, ◌≡◌, refl, ap, subst, inl, inr, Bool, true, false, List, [], ◌∷◌, ◌++◌, any,
  length, length-append, ◌==◌, ==_refl, if◌then◌else◌, arith,
}
use loyalty_system.Worker.{OrderJob, Pool, delete, is_inflight, try_enqueue}
use loyalty_system.Worker.Requeue.{try_enqueue_cases, delete_absent}

-- The pool, with the jobs whose key a goroutine has stored and not yet sent or given up, and the jobs
-- that workers are processing.
pub record Crew : Type 0 where
  pub pool : Pool
  pub offered : List OrderJob
  pub working : List OrderJob

-- One atomic operation of some goroutine.
pub data Step (c : Crew) : Crew → Type 0 where
  -- `inflight.LoadOrStore` finds the key, or stores it
  refuse : (job : OrderJob) → is_inflight job.id c.pool ≡ true → Step c c
  store :
      (job : OrderJob)
      → is_inflight job.id c.pool ≡ false
      → Step c (record c {
        pool = record c.pool { inflight = job.id ∷ c.pool.inflight };
        offered = job ∷ c.offered;
      })
  -- the send succeeds, or the channel is full and the key is deleted
  send :
      (job : OrderJob) (before after : List OrderJob)
      → c.offered ≡ before ++ job ∷ after
      → length c.pool.jobs < c.pool.capacity
      → Step c (record c {
        pool = record c.pool { jobs = c.pool.jobs ++ job ∷ [] };
        offered = before ++ after;
      })
  drop :
      (job : OrderJob) (before after : List OrderJob)
      → c.offered ≡ before ++ job ∷ after
      → c.pool.capacity ≤ length c.pool.jobs
      → Step c (record c {
        pool = record c.pool { inflight = delete job.id c.pool.inflight };
        offered = before ++ after;
      })
  -- a worker receives a job, and is done with one
  receive :
      (job : OrderJob) (rest : List OrderJob)
      → c.pool.jobs ≡ job ∷ rest
      → Step c (record c { pool = record c.pool { jobs = rest }; working = job ∷ c.working })
  finish :
      (job : OrderJob) (before after : List OrderJob)
      → c.working ≡ before ++ job ∷ after
      → Step c (record c {
        pool = record c.pool { inflight = delete job.id c.pool.inflight };
        working = before ++ after;
      })

pub data Reach (c : Crew) : Crew → Type 0 where
  here : Reach c c
  next : {d e : Crew} → Reach c d → Step d e → Reach c e

-- How often an order stands in a list of jobs, and a key among the in-flight keys.
abbrev pub holds : ℕ → List OrderJob → ℕ
holds id [] = 0
holds id (job ∷ jobs) = (if job.id == id then 1 else 0) + holds id jobs

abbrev pub keys : ℕ → List ℕ → ℕ
keys id [] = 0
keys id (j ∷ js) = (if j == id then 1 else 0) + keys id js

holds-append : (id : ℕ) (xs ys : List OrderJob) → holds id (xs ++ ys) ≡ holds id xs + holds id ys
holds-append id [] ys = omega arith
holds-append id (x ∷ xs) ys = omega (arith, holds-append id xs ys)

keys-delete : (id k : ℕ) (js : List ℕ) → keys k (delete id js) ≡ (if id == k then 0 else keys k js)
keys-delete id k [] = ground arith
keys-delete id k (j ∷ js) = ground (arith, keys-delete id k js)

keys_absent : (id : ℕ) (js : List ℕ) → any (λ j. j == id) js ≡ false → keys id js ≡ 0
keys_absent id [] h = refl
keys_absent id (j ∷ js) h = ground (arith, keys_absent id js)

keys_present : (id : ℕ) (js : List ℕ) → 0 < keys id js → any (λ j. j == id) js ≡ true
keys_present id [] h = absurd (omega arith)
keys_present id (j ∷ js) h = ground (arith, keys_present id js)

-- Taking one job and its key away together.
released :
    (mine : Bool) (before after others k : ℕ)
    → before + ((if mine then 1 else 0) + after) + others ≡ k
    → k ≤ 1
    → before + after + others ≡ (if mine then 0 else k)
released true before after others k e h = omega arith
released false before after others k e h = omega arith

removal :
    (id : ℕ) (job : OrderJob) (js : List ℕ) (before after : List OrderJob) (others : ℕ)
    → holds id (before ++ job ∷ after) + others ≡ keys id js
    → keys id js ≤ 1
    → holds id (before ++ after) + others ≡ keys id (delete job.id js)
removal id job js before after others e h =
    rw (keys-delete job.id id js, holds-append id before after)
      (released (job.id == id) (holds id before) (holds id after) others (keys id js)
        (rw (← holds-append id before (job ∷ after)) e) h)

pub record IsOrderly (c : Crew) : Type 0 where
  -- every job on its way has its key, and no key is there twice
  pub tracked :
      (id : ℕ)
      → holds id c.offered + holds id c.pool.jobs + holds id c.working ≡ keys id c.pool.inflight
  pub once : (id : ℕ) → keys id c.pool.inflight ≤ 1
  pub bounded : length c.pool.jobs ≤ c.pool.capacity

pub Step-IsOrderly : {c d : Crew} → Step c d → IsOrderly c → IsOrderly d
Step-IsOrderly (refuse job h) v = v
Step-IsOrderly {c} (store job h) v = record {
  tracked = λ id. omega (arith, v.tracked id);
  once = λ id. ground (arith, v.once id, keys_absent id c.pool.inflight);
  bounded = v.bounded;
}
Step-IsOrderly {c} (send job before after e room) v = record {
  tracked = λ id. omega (
    arith,
    v.tracked id,
    ap (holds id) e,
    holds-append id before (job ∷ after),
    holds-append id before after,
    holds-append id c.pool.jobs (job ∷ []),
  );
  once = v.once;
  bounded = omega (arith, length-append c.pool.jobs (job ∷ []));
}
Step-IsOrderly {c} (drop job before after e full) v = record {
  tracked = λ id. omega (
    arith,
    removal id job c.pool.inflight before after (holds id c.pool.jobs + holds id c.working)
        (omega (arith, v.tracked id, ap (holds id) e)) (v.once id),
  );
  once = λ id. ground (arith, v.once id, keys-delete job.id id c.pool.inflight);
  bounded = v.bounded;
}
Step-IsOrderly {c} (receive job rest e) v = record {
  tracked = λ id. omega (arith, v.tracked id, ap (holds id) e);
  once = v.once;
  bounded = omega (arith, ap length e, v.bounded);
}
Step-IsOrderly {c} (finish job before after e) v = record {
  tracked = λ id. omega (
    arith,
    removal id job c.pool.inflight before after (holds id c.offered + holds id c.pool.jobs)
        (omega (arith, v.tracked id, ap (holds id) e)) (v.once id),
  );
  once = λ id. ground (arith, v.once id, keys-delete job.id id c.pool.inflight);
  bounded = v.bounded;
}

Reach-IsOrderly : {c d : Crew} → Reach c d → IsOrderly c → IsOrderly d
Reach-IsOrderly here v = v
Reach-IsOrderly (next r st) v = Step-IsOrderly st (Reach-IsOrderly r v)

-- Whatever the goroutines do, in whatever order, from an orderly crew: no two workers process the same
-- order at a time, an order that is being processed is not in the queue too, and the queue stays
-- within the channel's capacity.
pub one_worker_per_order :
    {c d : Crew}
    → IsOrderly c
    → Reach c d
    → (id : ℕ)
    → (holds id d.working + holds id d.pool.jobs ≤ 1) × (length d.pool.jobs ≤ d.pool.capacity)
one_worker_per_order v r id =
    let w = Reach-IsOrderly r v in (omega (arith, w.tracked id, w.once id), w.bounded)

-- While a worker processes an order, no goroutine can store the order's key: every `tryEnqueue` for
-- it is refused, the worker's own included.
pub working_blocks_enqueue :
    {c d : Crew} (id : ℕ)
    → IsOrderly c
    → Reach c d
    → 0 < holds id d.working
    → is_inflight id d.pool ≡ true
working_blocks_enqueue {d} id v r busy =
    let w = Reach-IsOrderly r v in keys_present id d.pool.inflight (omega (arith, w.tracked id))

-- Once no worker has a job and no goroutine is in the middle of `tryEnqueue`, exactly the queued
-- orders are in flight.
pub quiet_keys :
    {c d : Crew} (id : ℕ)
    → IsOrderly c
    → Reach c d
    → d.working ≡ []
    → d.offered ≡ []
    → keys id d.pool.inflight ≡ holds id d.pool.jobs
quiet_keys id v r idle settled =
    omega (arith, (Reach-IsOrderly r v).tracked id, ap (holds id) idle, ap (holds id) settled)

-- The sequential `tryEnqueue` is a path of these steps, from any crew.
pub try_enqueue-Reach :
    (job : OrderJob) (c : Crew) → Reach c (record c { pool = (try_enqueue job c.pool).1 })
try_enqueue-Reach job c = elim (try_enqueue_cases job c.pool) [
  | inl (held, e) ↦ rw e here
  | inr (inl (free, room, e)) ↦
      rw e (next (next here (store job free)) (send job [] c.offered refl room))
  | inr (inr (free, full, e)) ↦ rw e (
      subst (λ js. Reach c (record c { pool = record c.pool { inflight = js } }))
        (rw ==_refl (delete_absent job.id c.pool.inflight free))
        (next (next here (store job free)) (drop job [] c.offered refl full)))
]

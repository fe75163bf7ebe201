-- ===== src/Worker/Config.antt =====
-- `NewAccrualWorkerPool` of internal/order/worker.go: the settings that it fills in, and the size of
-- the channel. How many jobs `make(chan OrderJob, n)` accepts at most is the runtime's, a parameter. `Workers`, `PollBatch` and the queue size are Go's 64-bit `int`.
use loyalty_system.Prelude.{
  ℕ, ◌+◌, ◌-◌, ◌*◌, ◌^◌, ◌≤◌, ◌<◌, ◌≡◌, refl, inl, inr, false, ltb, [], if◌then◌else◌, arith,
  Bool-cases,
}
use loyalty_system.Prelude.Int.{ℤ, pos, negsuc, ◌≤ℤ◌, leb_ℤ, ltb_ℤ, wrap64, wrap64_in_range}
use loyalty_system.Worker.{Pool}

pub record WorkerPoolConfig : Type 0 where
  pub workers : ℤ
  pub poll_interval : ℤ
  pub poll_batch : ℤ

-- `x * n` in 64 bits, for the factors 2 and 4 of the source.
abbrev pub times : ℕ → ℤ → ℤ
times n (pos x) = wrap64 (pos (x * n))
times n (negsuc x) = wrap64 (negsuc ((x + 1) * n - 1))

abbrev or_default : ℤ → ℤ → ℤ
or_default value default = if leb_ℤ value (pos 0) then default else value

-- The three defaults, in the source's order: the batch reads the number of workers set before it.
unfoldable pub with_defaults : WorkerPoolConfig → WorkerPoolConfig
with_defaults cfg =
    let workers = or_default cfg.workers (pos 1) in
    record {
      workers = workers;
      poll_interval = or_default cfg.poll_interval (pos 10_000_000_000);
      poll_batch = or_default cfg.poll_batch (times 2 workers);
    }

unfoldable pub queue_size : WorkerPoolConfig → ℤ
queue_size cfg =
    let size = times 4 cfg.workers in if ltb_ℤ size cfg.poll_batch then cfg.poll_batch else size

-- The new pool, or a panic of `make` at a size that is negative or too large.
pub data Made : Type 0 where
  panics : Made
  made : WorkerPoolConfig → Pool → Made

abbrev make_pool : (largest : ℕ) → WorkerPoolConfig → ℤ → Made
make_pool largest cfg (negsuc n) = panics
make_pool largest cfg (pos n) =
    if ltb largest n
    then panics
    else made cfg (record { jobs = []; capacity = n; inflight = []; rate_limit_until = pos 0 })

unfoldable pub new_accrual_worker_pool : (largest : ℕ) → WorkerPoolConfig → Made
unfolding with_defaults queue_size
new_accrual_worker_pool largest cfg =
    let full = with_defaults cfg in make_pool largest full (queue_size full)

-- What a new pool satisfies: it has a worker and a positive interval and batch, and its channel has
-- room for a whole batch and for four jobs of each worker.
pub record IsUsable (cfg : WorkerPoolConfig) (p : Pool) : Type 0 where
  pub has_worker : pos 1 ≤ℤ cfg.workers
  pub has_interval : pos 1 ≤ℤ cfg.poll_interval
  pub has_batch : pos 1 ≤ℤ cfg.poll_batch
  pub fits_batch : cfg.poll_batch ≤ℤ pos p.capacity
  pub fits_workers : times 4 cfg.workers ≤ℤ pos p.capacity
  pub is_empty : p.jobs ≡ []
  pub is_idle : p.inflight ≡ []

ltb-false_of_le : {a b : ℕ} → b ≤ a → ltb a b ≡ false
ltb-false_of_le h = ground arith

times_small : (n : ℕ) (x : ℕ) → x * n < 2 ^ 63 → times n (pos x) ≡ pos (x * n)
times_small n x h = wrap64_in_range (pos (x * n)) h

or_default-positive :
    (value default : ℤ) → pos 1 ≤ℤ default → (n : ℕ) × (or_default value default ≡ pos n) × (1 ≤ n)
or_default-positive (negsuc x) (pos d) h = (d, ground arith, omega arith)
or_default-positive (negsuc x) (negsuc d) h = absurd (omega arith)
or_default-positive (pos x) (pos d) h = elim (Bool-cases (leb_ℤ (pos x) (pos 0))) [
  | inl none_given ↦ (d, rw none_given, omega arith)
  | inr given ↦ (x, rw given, ground arith)
]
or_default-positive (pos x) (negsuc d) h = absurd (omega arith)

or_default-bound :
    (value : ℤ) (d n m : ℕ) → value ≤ℤ pos m → d ≤ m → or_default value (pos d) ≡ pos n → n ≤ m
or_default-bound (negsuc x) d n m h k e = ground arith
or_default-bound (pos x) d n m h k e = ground arith

-- The pool made of settings that are filled in already.
filled-IsUsable :
    (largest w i b : ℕ)
    → largest < 2 ^ 63
    → 1 ≤ w
    → w * 4 ≤ largest
    → 1 ≤ i
    → 1 ≤ b
    → b ≤ largest
    → let cfg : WorkerPoolConfig = record {
      workers = pos w;
      poll_interval = pos i;
      poll_batch = pos b;
    } in
      (p : Pool) × (make_pool largest cfg (queue_size cfg) ≡ made cfg p) × IsUsable cfg p
unfolding queue_size
filled-IsUsable largest w i b hl hw hs hi hb hc =
    let four : times 4 (pos w) ≡ pos (w * 4) = times_small 4 w (omega arith) in
    elim (Bool-cases (ltb_ℤ (pos (w * 4)) (pos b))) [
      | inl batch ↦ (
        record { jobs = []; capacity = b; inflight = []; rate_limit_until = pos 0 },
        rw (four, batch, ltb-false_of_le hc),
        record {
          has_worker = omega arith;
          has_interval = omega arith;
          has_batch = omega arith;
          fits_batch = omega arith;
          fits_workers = rw four (ground arith);
          is_empty = refl;
          is_idle = refl;
        },
      )
      | inr workers ↦ (
        record { jobs = []; capacity = w * 4; inflight = []; rate_limit_until = pos 0 },
        rw (four, workers, ltb-false_of_le hs),
        record {
          has_worker = omega arith;
          has_interval = omega arith;
          has_batch = omega arith;
          fits_batch = ground arith;
          fits_workers = rw four (omega arith);
          is_empty = refl;
          is_idle = refl;
        },
      )
    ]

-- For any settings, missing and negative ones included, whose batch and whose four jobs for each of at
-- most `m` workers the runtime accepts as the size of a channel, the pool is made, without a panic: it has a worker, a positive interval and batch, no job and no key in flight,
-- and a channel with room for a whole batch and for four jobs of each worker.
pub new_accrual_worker_pool-IsUsable :
    (largest m : ℕ) (cfg : WorkerPoolConfig)
    → largest < 2 ^ 63
    → 1 ≤ m
    → m * 4 ≤ largest
    → cfg.workers ≤ℤ pos m
    → cfg.poll_batch ≤ℤ pos largest
    → (full : WorkerPoolConfig) × (p : Pool) × (new_accrual_worker_pool largest cfg ≡ made full p)
      × IsUsable full p
unfolding new_accrual_worker_pool with_defaults
new_accrual_worker_pool-IsUsable largest m cfg hl hm fits few batch_fits =
    let (w, workers, hw) = or_default-positive cfg.workers (pos 1) (omega arith) in
    let (i, interval, hi) =
      or_default-positive cfg.poll_interval (pos 10_000_000_000) (omega arith) in
    let small = or_default-bound cfg.workers 1 w m few hm workers in
    let twice : times 2 (pos w) ≡ pos (w * 2) = times_small 2 w (omega arith) in
    let (b, batch, hb) = or_default-positive cfg.poll_batch (pos (w * 2)) (omega arith) in
    let small_batch =
      or_default-bound cfg.poll_batch (w * 2) b largest batch_fits (omega arith) batch in
    let (p, e, usable) = filled-IsUsable largest w i b hl hw (omega arith) hi hb small_batch in
    (
      record { workers = pos w; poll_interval = pos i; poll_batch = pos b },
      p,
      rw (workers, interval, twice, batch) e,
      usable,
    )

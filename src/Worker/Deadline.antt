-- ===== src/Worker/Deadline.antt =====
-- One call of `setRateLimit` of internal/order/worker.go, with no other goroutine at work.
use loyalty_system.Prelude.{◌≡◌, refl, ◌⊎◌, inl, inr, true, false, arith, Bool-cases}
use loyalty_system.Prelude.Int.{ℤ, ◌+ℤ◌, ◌≤ℤ◌, leb_ℤ, IsInt64, wrap64_in_range}
use loyalty_system.Worker.{Pool, set_rate_limit, effective_backoff}

leb_ℤ→le : (a b : ℤ) → leb_ℤ a b ≡ true → a ≤ℤ b
leb_ℤ→le a b h = ground arith

not_leb_ℤ→le : (a b : ℤ) → leb_ℤ a b ≡ false → b ≤ℤ a
not_leb_ℤ→le a b h = ground arith

-- One call on its own sets the later of the two deadlines, and does not touch the queue; a wait of
-- zero or less counts as a minute.
pub set_rate_limit_lem :
    (now wait : ℤ) (p : Pool)
    → IsInt64 (now +ℤ effective_backoff wait)
    → let q = set_rate_limit now wait p in
      (p.rate_limit_until ≤ℤ q.rate_limit_until)
      × (now +ℤ effective_backoff wait ≤ℤ q.rate_limit_until)
      × ((q.rate_limit_until ≡ p.rate_limit_until)
          ⊎ (q.rate_limit_until ≡ now +ℤ effective_backoff wait))
      × (q.jobs ≡ p.jobs)
      × (q.inflight ≡ p.inflight)
unfolding set_rate_limit
set_rate_limit_lem now wait p h =
    rw (wrap64_in_range (now +ℤ effective_backoff wait) h)
      (elim (Bool-cases (leb_ℤ (now +ℤ effective_backoff wait) p.rate_limit_until)) [
        | inl past ↦ rw past (
          omega arith,
          leb_ℤ→le (now +ℤ effective_backoff wait) p.rate_limit_until past,
          inl refl,
          refl,
          refl,
        )
        | inr later ↦ rw later (
          not_leb_ℤ→le (now +ℤ effective_backoff wait) p.rate_limit_until later,
          omega arith,
          inr refl,
          refl,
          refl,
        )
      ])

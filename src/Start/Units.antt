-- ===== src/Start/Units.antt =====
-- The numbers that main.cpp computes in 32-bit unsigned arithmetic.
use poolfrontend.Prelude.{ℕ, ◌*◌, ◌≤◌, ◌≡◌, ◌↔◌, arith}
use poolfrontend.Start.Backends.{days_in_seconds, minutes_in_seconds, minutes_in_microseconds}
use poolfrontend.Start.Settings.{worker_threads_num}

-- The 32-bit arithmetic is exact just up to 71 minutes in microseconds, 49710 days in seconds and
-- 71582788 minutes in seconds.
pub units-exact_iff :
    (n : ℕ)
    → ((minutes_in_microseconds n ≡ n * 60000000) ↔ (n ≤ 71))
      × ((days_in_seconds n ≡ n * 86400) ↔ (n ≤ 49710))
      × ((minutes_in_seconds n ≡ n * 60) ↔ (n ≤ 71582788))
unfolding minutes_in_microseconds days_in_seconds minutes_in_seconds
units-exact_iff n = (
  (λ e. omega arith, λ e. omega arith),
  (λ e. omega arith, λ e. omega arith),
  (λ e. omega arith, λ e. omega arith),
)

-- No worker is started just when none is configured and the machine has one to three processors.
pub worker_threads_num-zero_iff :
    (hardware_concurrency configured : ℕ)
    → (worker_threads_num hardware_concurrency configured ≡ 0)
      ↔ ((configured ≡ 0) × (1 ≤ hardware_concurrency) × (hardware_concurrency ≤ 3))
unfolding worker_threads_num
worker_threads_num-zero_iff hardware_concurrency configured = ground arith

-- ===== src/Http/Backend/Interval.antt =====
-- The check of the time interval in onBackendQueryPPLNSAcc. The difference of two int64_t is read
-- as wrapping around, where C++ leaves an overflow undefined.
pub mod Steps
use poolfrontend.Prelude.{zero, suc, Bool, true, false, not, ◌||◌}
use poolfrontend.Prelude.Int.{ℤ, pos, negsuc, ◌-ℤ◌, ◌/ℤ◌, ◌%ℤ◌, leb_ℤ, ltb_ℤ, wrap64}

abbrev pub is_zero : ℤ → Bool
is_zero (pos zero) = true
is_zero (pos (suc n)) = false
is_zero (negsuc n) = false

-- The condition under which the code answers `invalid_interval`.
unfoldable pub bad_interval : ℤ → ℤ → ℤ → Bool
unfolding ◌-ℤ◌ ◌/ℤ◌ ◌%ℤ◌ wrap64
bad_interval time_from time_to group_by_interval =
    leb_ℤ time_to time_from
    || (is_zero group_by_interval
        || (not (is_zero (wrap64 (time_to -ℤ time_from) %ℤ group_by_interval))
            || ltb_ℤ (pos 3200) (wrap64 (time_to -ℤ time_from) /ℤ group_by_interval)))

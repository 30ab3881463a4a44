-- ===== src/Http/Connection/Close.antt =====
-- deleteAioObject is called once.
use poolfrontend.Prelude.{ℕ, zero, suc, ◌+◌, ◌%◌, ◌^◌, ◌<◌, ◌≡◌, refl, arith}
use poolfrontend.Http.Connection.{Connection, close}

unfoldable pub close_times : ℕ → Connection → Connection
unfolding close
close_times zero c = c
close_times (suc n) c = close (close_times n c)

close_times-deleted :
    (n : ℕ) (c : Connection) → c.deleted ≡ 0 → (close_times n c).deleted ≡ n % 2 ^ 32
unfolding close_times
close_times-deleted zero c h = h
close_times-deleted (suc n) c h = let ih = close_times-deleted n c h in omega arith

-- However often a connection that was not closed is closed, up to 2^32 times, its socket is deleted
-- once.
pub close_times-deletions :
    (n : ℕ) (c : Connection)
    → c.deleted ≡ 0
    → n < 2 ^ 32
    → (close_times (suc n) c).deletions ≡ c.deletions + 1
unfolding close_times
close_times-deletions zero c h lt = rw h refl
close_times-deletions (suc n) c h lt =
    let ih = close_times-deletions n c h (omega arith) in
    let d = close_times-deleted (suc n) c h in ground arith

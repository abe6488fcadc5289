-- ===== src/Prelude/Table.antt =====
-- A test of every number below a bound, for facts about bytes that are settled by evaluation.
use nika_kernel.Prelude.{ℕ, zero, suc, ◌<◌, ◌≡◌, arith, Bool, true, ◌&&◌}

unfoldable pub every : (ℕ → Bool) → ℕ → Bool
every test zero = true
every test (suc bound) = every test bound && test bound

pub every-apply :
    (test : ℕ → Bool) (bound : ℕ) {x : ℕ} → every test bound ≡ true → x < bound → test x ≡ true
unfolding every
every-apply test zero passed below = absurd (omega arith)
every-apply test (suc bound) {x} passed below = ground (arith, every-apply test bound {x = x})

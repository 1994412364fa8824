-- ===== src/Driver/Random.antt =====
-- driver/random/random.c: a linear congruential generator.
use helos.Prelude.{ℕ, ◌+◌, ◌*◌, ◌%◌, ◌^◌}

pub random_seed : ℕ → ℕ → ℕ
random_seed seed v = seed

-- The number returned and the new state are the same.
pub random_rand : ℕ → ℕ
random_rand v = (v * 1103515245 + 12345) % 2147483648 % 2 ^ 32

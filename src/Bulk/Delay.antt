-- ===== src/Bulk/Delay.antt =====
-- The pause between two sends of a bulk job.
use wa_gateway.Base.{ℕ, ℤ, ◌≤ℤ◌, add_ℕ, distance, arith, ◌≤◌, ◌%◌, ◌+◌, ◌*◌, suc}
use wa_gateway.Bulk.Runner.{jitter}

add_ℕ_bounds : (a b : ℤ) (n : ℕ) → a ≤ℤ b → n ≤ distance b a → (a ≤ℤ add_ℕ a n) × (add_ℕ a n ≤ℤ b)
add_ℕ_bounds a b n h k = ground arith

-- If the least delay is not above the greatest, the pause lies between them, whatever the random
-- bytes.
pub jitter_bounds :
    (bytes : ℕ × ℕ) (min_d max_d : ℤ)
    → min_d ≤ℤ max_d
    → (min_d ≤ℤ jitter bytes min_d max_d) × (jitter bytes min_d max_d ≤ℤ max_d)
unfolding jitter
jitter_bounds (hi, lo) min_d max_d h =
    ground (
      arith,
      add_ℕ_bounds min_d max_d ((hi * 256 + lo) % suc (distance max_d min_d)) h (omega arith),
    )

-- ===== src/Device/Plic/Laws.antt =====
-- The interrupt that a context is offered.
use rv64_emulator.Common.{ℕ, zero, suc, ◌<◌, ◌≤◌, ◌≡◌, refl, arith, ◌⊎◌, inl}
use rv64_emulator.Common.{true, get_or}
use rv64_emulator.Device.Plic.{Plic, PlicContext, is_candidate, consider, best_below}

-- The best of the sources below `n`: none has a higher priority, those with the same come later,
-- and (0, 0) stands for no candidate of a priority above 0.
pub record IsBest (p : Plic) (ctx : PlicContext) (n : ℕ) (best : ℕ × ℕ) : Type 0 where
  pub real :
      (best ≡ (0, 0))
      ⊎ ((best.1 < n)
          × (is_candidate p ctx best.1 ≡ true)
          × (get_or p.priority best.1 0 ≡ best.0)
          × (0 < best.0))
  pub highest : (i : ℕ) → i < n → is_candidate p ctx i ≡ true → get_or p.priority i 0 ≤ best.0
  pub lowest_number :
      (i : ℕ) → i < n → is_candidate p ctx i ≡ true → get_or p.priority i 0 ≡ best.0 → best.1 ≤ i

-- A source below `suc n` is one below `n` or `n` itself.
below_suc : (i n : ℕ) → i < suc n → (i < n) ⊎ (i ≡ n)
below_suc i n h = ground arith

-- One round keeps it.
consider-IsBest :
    (p : Plic) (ctx : PlicContext) (n : ℕ) (best : ℕ × ℕ)
    → IsBest p ctx n best
    → IsBest p ctx (suc n) (consider p ctx n best)
unfolding consider
consider-IsBest p ctx n best b = record {
  real = ground arith;
  highest = λ i h c. ground (arith, below_suc i n h, b.highest i);
  lowest_number = λ i h c e. ground (arith, below_suc i n h, b.highest i, b.lowest_number i);
}

-- The loop finds it.
pub best_below-IsBest : (p : Plic) (ctx : PlicContext) (n : ℕ) → IsBest p ctx n (best_below p ctx n)
unfolding best_below consider
best_below-IsBest p ctx zero = record {
  real = inl refl;
  highest = λ i h c. absurd (omega arith);
  lowest_number = λ i h c e. absurd (omega arith);
}
best_below-IsBest p ctx (suc n) =
    consider-IsBest p ctx n (best_below p ctx n) (best_below-IsBest p ctx n)

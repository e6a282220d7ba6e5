-- ===== src/Cost/Tests.antt =====
-- Witnesses for the storage charge.
use gitopia_storage.Prelude.{ℕ, ◌+◌, ◌-◌, ◌*◌, ◌^◌, ◌≤◌, ◌≡◌, refl, arith}
use gitopia_storage.Cost.{
  Params, calculate_storage_cost, whole_gb, float64, lost_bits, round_to, sub64, free_storage_bytes,
}
use gitopia_storage.Cost.Charge.{charge-growth, charge-shrink}

-- 100 MB free, 5 tokens for a gigabyte.
abbrev tariff : Params
tariff = record {
  free_storage_mb = 100;
  storage_price_per_gb = record { denom = "ulore"; amount = 5 };
}

gb : ℕ → ℕ
gb n = n * 1024 * 1024 * 1024

three_gb : (calculate_storage_cost (λ g p. g * p) 0 (gb 4) tariff).storage_charge.amount ≡ 15
unfolding calculate_storage_cost whole_gb float64 lost_bits round_to sub64 free_storage_bytes gb
three_gb = refl

float64_rounds : float64 (2 ^ 53 + 1) ≡ 2 ^ 53
unfolding float64 lost_bits round_to
float64_rounds = refl

charge-growth_example :
    (calculate_storage_cost (λ g p. g * p) 0 (gb 4) tariff).storage_charge.amount ≡ 15
unfolding free_storage_bytes gb
charge-growth_example =
    (charge-growth (λ g p. g * p) 0 (gb 4) tariff (λ g p. refl) (omega arith) (omega arith)).0

charge-shrink_example :
    (2 ^ 33 - 1) * 5
    ≤ (calculate_storage_cost (λ g p. g * p) (gb 2) (gb 1) tariff).storage_charge.amount
unfolding free_storage_bytes gb
charge-shrink_example =
    charge-shrink (λ g p. g * p) (gb 2) (gb 1) tariff (λ g p. refl) (omega arith) (omega arith)
      (omega arith)

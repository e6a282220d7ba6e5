-- ===== src/Cost/Charge.antt =====
-- utils/storage_fee.go: what `CalculateStorageCost` charges.
use native.Mathlib.Nat.{pow-suc}
use gitopia_storage.Prelude.{
  ℕ, zero, suc, ◌+◌, ◌-◌, ◌*◌, ◌/◌, ◌^◌, ◌≤◌, ◌<◌, ◌≡◌, refl, arith, le→leb, max,
}
use gitopia_storage.Cost.{
  Params, lost_bits, round_to, float64, whole_gb, free_storage_bytes, sub64, calculate_storage_cost,
}

pow-pos : (k : ℕ) → 1 ≤ 2 ^ k
pow-pos zero = omega arith
pow-pos (suc k) = omega (arith, pow-suc 2 k, pow-pos k)

lost_bits_small : (k x : ℕ) → x < 2 ^ 53 → lost_bits k x ≡ 0
unfolding lost_bits
lost_bits_small zero x h = refl
lost_bits_small (suc k) x h = ground (arith, pow-pos k, lost_bits_small k x)

-- below 2 ^ 53 a `float64` is exact
float64_small : (x : ℕ) → x < 2 ^ 53 → float64 x ≡ x
unfolding float64 round_to
float64_small x h = rw (lost_bits_small 11 x h) (ground arith)

-- near the top of the range the spacing is 2 ^ 11
lost_bits_large : (x : ℕ) → 2 ^ 63 ≤ x → lost_bits 11 x ≡ 11
unfolding lost_bits
lost_bits_large x h = rw (le→leb (2 ^ 63) x h)

float64_large : (x : ℕ) → 2 ^ 63 ≤ x → x ≤ float64 x + 2048
unfolding float64 round_to
float64_large x h = rw (lost_bits_large x h) (ground arith)

whole_gb_small : (x : ℕ) → x < 2 ^ 53 → whole_gb x ≡ x / (1024 * 1024 * 1024)
unfolding whole_gb
whole_gb_small x h = rw (float64_small x h)

sub64_growth : (a b : ℕ) → a ≤ b → b < 2 ^ 53 → sub64 b a ≡ b - a
unfolding sub64
sub64_growth a b le small = omega arith

sub64_shrink : (a b : ℕ) → b < a → a < 2 ^ 62 → 2 ^ 63 ≤ sub64 b a
unfolding sub64
sub64_shrink a b lt small = omega arith

whole_gb_large : (x : ℕ) → 2 ^ 63 ≤ x → 2 ^ 33 ≤ whole_gb x + 1
unfolding whole_gb
whole_gb_large x h = omega (arith, float64_large x h)

-- When the usage grows, the charge is the price times the whole gigabytes by which it grows above
-- the free limit, rounded down; no charge when the new usage stays within the limit. The other
-- fields repeat what was asked. Usages are below 2 ^ 53, and the multiplication is exact.
pub charge-growth :
    (dec_mul : ℕ → ℕ → ℕ) (current new : ℕ) (p : Params)
    → ((g price : ℕ) → dec_mul g price ≡ g * price)
    → current ≤ new
    → new < 2 ^ 53
    → let info = calculate_storage_cost dec_mul current new p in
      (info.storage_charge.amount
        ≡ (new - max current (free_storage_bytes p))
          / (1024 * 1024 * 1024)
          * p.storage_price_per_gb.amount)
      × (info.storage_charge.denom ≡ p.storage_price_per_gb.denom)
      × (info.current_usage ≡ current)
      × (info.new_usage ≡ new)
      × (info.free_limit ≡ free_storage_bytes p)
unfolding calculate_storage_cost
charge-growth dec_mul current new p exact le small = ground (
  arith,
  sub64_growth current new le small,
  sub64_growth (free_storage_bytes p) new,
  whole_gb_small (new - current),
  whole_gb_small (new - free_storage_bytes p),
  exact ((new - current) / (1024 * 1024 * 1024)) p.storage_price_per_gb.amount,
  exact ((new - free_storage_bytes p) / (1024 * 1024 * 1024)) p.storage_price_per_gb.amount,
)

charge_mono : (price g : ℕ) → 2 ^ 33 - 1 ≤ g → (2 ^ 33 - 1) * price ≤ g * price
charge_mono price g h = grind arith

-- Where the current usage is above the free limit and below 2 ^ 62 bytes, and the new usage is
-- smaller, the difference wraps around: at least 2 ^ 33 - 1 gigabytes are charged. The
-- multiplication is exact.
pub charge-shrink :
    (dec_mul : ℕ → ℕ → ℕ) (current new : ℕ) (p : Params)
    → ((g price : ℕ) → dec_mul g price ≡ g * price)
    → free_storage_bytes p < current
    → new < current
    → current < 2 ^ 62
    → (2 ^ 33 - 1) * p.storage_price_per_gb.amount
      ≤ (calculate_storage_cost dec_mul current new p).storage_charge.amount
unfolding calculate_storage_cost
charge-shrink dec_mul current new p exact above shrinks small = ground (
  arith,
  sub64_shrink current new shrinks small,
  exact (whole_gb (sub64 new current)) p.storage_price_per_gb.amount,
  charge_mono p.storage_price_per_gb.amount (whole_gb (sub64 new current))
      (omega (arith, whole_gb_large (sub64 new current) (sub64_shrink current new shrinks small))),
)

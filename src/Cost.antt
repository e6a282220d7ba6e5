-- ===== src/Cost.antt =====
-- utils/storage_fee.go: what an owner pays when the bytes in use change. The counts are `uint64`,
-- so differences wrap, and gigabytes go through `float64`. `sdk.Dec` multiplication with truncation
-- is the library's: it is the parameter `dec_mul`.
pub mod Charge
mod Tests
use gitopia_storage.Prelude.{
  ℕ, zero, suc, ◌+◌, ◌-◌, ◌*◌, ◌/◌, ◌%◌, ◌^◌, String, ◌&&◌, ◌||◌, ltb, leb, ◌==◌, if◌then◌else◌,
}

pub record Coin : Type 0 where
  pub denom : String
  pub amount : ℕ

-- The two fields of `storagetypes.Params` that the function reads.
pub record Params : Type 0 where
  pub free_storage_mb : ℕ
  pub storage_price_per_gb : Coin

pub record StorageCostInfo : Type 0 where
  pub storage_charge : Coin
  pub current_usage : ℕ
  pub new_usage : ℕ
  pub free_limit : ℕ

abbrev pub uint64_mod : ℕ
uint64_mod = 2 ^ 64

-- How many low bits a `float64` has no room for, for a number below 2 ^ (53 + k).
unfoldable pub lost_bits : ℕ → ℕ → ℕ
lost_bits zero x = 0
lost_bits (suc k) x = if leb (2 ^ 53 * 2 ^ k) x then suc k else lost_bits k x

-- Round to a multiple of `unit`, to the even one at a tie.
unfoldable pub round_to : ℕ → ℕ → ℕ
round_to unit x =
    if ltb unit (2 * (x % unit)) || (2 * (x % unit) == unit && (x / unit) % 2 == 1)
    then (x / unit + 1) * unit
    else x / unit * unit

-- `float64(x)` of a `uint64`.
unfoldable pub float64 : ℕ → ℕ
float64 x = round_to (2 ^ lost_bits 11 x) x

-- `int64(float64(bytes) / (1024 * 1024 * 1024))`; the division is by a power of two, so exact.
unfoldable pub whole_gb : ℕ → ℕ
whole_gb bytes = float64 bytes / (1024 * 1024 * 1024)

unfoldable pub free_storage_bytes : Params → ℕ
free_storage_bytes p = p.free_storage_mb * 1024 * 1024 % uint64_mod

unfoldable pub sub64 : ℕ → ℕ → ℕ
sub64 a b = (a + uint64_mod - b) % uint64_mod

module _ (dec_mul : ℕ → ℕ → ℕ) where
  unfoldable pub cost_info : Params → ℕ → ℕ → ℕ → StorageCostInfo
  cost_info p current new amount = record {
    storage_charge = record { denom = p.storage_price_per_gb.denom; amount = amount };
    current_usage = current;
    new_usage = new;
    free_limit = free_storage_bytes p;
  }

  unfoldable pub price_of : Params → ℕ → ℕ
  price_of p bytes = dec_mul (whole_gb bytes) p.storage_price_per_gb.amount

  unfoldable pub calculate_storage_cost : ℕ → ℕ → Params → StorageCostInfo
  unfolding cost_info price_of free_storage_bytes sub64
  calculate_storage_cost current new p =
      if ltb (free_storage_bytes p) current
      then (let diff = sub64 new current in
          if leb diff 0
          then cost_info p current new 0
          else cost_info p current new (price_of p diff))
      else if leb new (free_storage_bytes p)
      then cost_info p current new 0
      else cost_info p current new (price_of p (sub64 new (free_storage_bytes p)))

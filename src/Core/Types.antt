-- ===== src/Core/Types.antt =====
-- core/types.hpp. Identifiers are numbers; prices, quantities and timestamps are integers.
use asterion.Prelude.{Bool, true, false, ℕ}

pub data Side : Type 0 where
  none buy sell : Side

unfoldable pub is_valid_side : Side → Bool
is_valid_side none = false
is_valid_side _ = true

unfoldable pub opposite : Side → Side
opposite buy = sell
opposite sell = buy
opposite none = none

-- The `std::uint8_t` that stands for a side.
unfoldable pub side_code : Side → ℕ
side_code none = 0
side_code buy = 1
side_code sell = 2

unfoldable pub eqb_side : Side → Side → Bool
eqb_side none none = true
eqb_side buy buy = true
eqb_side sell sell = true
eqb_side _ _ = false

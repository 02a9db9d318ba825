-- ===== src/Clocks.antt =====
-- clocks/clock_reset.h: the clock divider and the reset at power-on.
pub mod Laws
use systemc_model.Base.{◌==◌, if◌then◌else◌, ℕ, zero, suc, ◌-◌, Bool, true, false, not}

-- `pclk` and `reset` are the output signals, and `left` is the number of rising edges that
-- `reset_seq` still waits for.
pub record ClockReset : Type 0 where
  pub pclk_state : Bool
  pub pclk : Bool
  pub reset : Bool
  pub left : ℕ

-- After `start_of_simulation` and the start of `reset_seq`, which waits for no edge if `reset_cycles`
-- is 0.
unfoldable pub started : ℕ → ClockReset
started zero = record { pclk_state = false; pclk = false; reset = false; left = 0 }
started (suc n) = record { pclk_state = false; pclk = false; reset = true; left = suc n }

unfoldable pub pclk_div : ClockReset → ClockReset
pclk_div s = record s { pclk_state = not s.pclk_state; pclk = not s.pclk_state }

-- `reset_seq` at a rising edge of `sys_clk`: one wait ends, and the last one lowers `reset`.
unfoldable pub reset_seq : ClockReset → ClockReset
reset_seq s =
    if s.left == 0
    then s
    else if s.left == 1
    then record s { left = 0; reset = false }
    else record s { left = s.left - 1 }

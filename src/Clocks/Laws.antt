-- ===== src/Clocks/Laws.antt =====
-- The levels after any number of edges of the system clock.
use systemc_model.Base.{ltb, ◌==◌, if◌then◌else◌, ℕ, zero, suc, ◌-◌, ◌%◌, ◌≡◌, refl, Bool, true}
use systemc_model.Base.{false, not, arith}
use systemc_model.Clocks.{ClockReset, started, pclk_div, reset_seq}

-- `n` rising edges of `sys_clk`, each running both processes.
unfoldable pub sys_edges : ℕ → ClockReset → ClockReset
sys_edges zero s = s
sys_edges (suc n) s = sys_edges n (reset_seq (pclk_div s))

-- The order in which an edge runs the two processes does not matter.
pub processes_commute : (s : ClockReset) → reset_seq (pclk_div s) ≡ pclk_div (reset_seq s)
unfolding reset_seq pclk_div
processes_commute s = ground arith

-- What holds between edges.
pub record IsRunning (s : ClockReset) : Type 0 where
  pub same_level : s.pclk ≡ s.pclk_state
  pub held : s.reset ≡ ltb 0 s.left

pub sys_edge :
    (s : ClockReset)
    → IsRunning s
    → let u = reset_seq (pclk_div s) in IsRunning u × (u.pclk ≡ not s.pclk) × (u.left ≡ s.left - 1)
unfolding reset_seq pclk_div
sys_edge s h = ground arith

flipped :
    (n : ℕ) (b : Bool)
    → (if n % 2 == 1 then not (not b) else not b) ≡ (if suc n % 2 == 1 then not b else b)
flipped n true = ground arith
flipped n false = ground arith

pub run_levels :
    (n : ℕ) (s : ClockReset)
    → IsRunning s
    → let u = sys_edges n s in
      IsRunning u × (u.pclk ≡ (if n % 2 == 1 then not s.pclk else s.pclk)) × (u.left ≡ s.left - n)
unfolding sys_edges
run_levels zero s h = ground arith
run_levels (suc n) s h =
    let (running, level, left) = sys_edge s h in
    let (running', level', left') = run_levels n (reset_seq (pclk_div s)) running in
    (running', ground (arith, flipped n s.pclk), omega arith)

pub started-IsRunning : (cycles : ℕ) → IsRunning (started cycles)
unfolding started
started-IsRunning zero = record { same_level = refl; held = refl }
started-IsRunning (suc n) = record { same_level = refl; held = ground arith }

started_lem : (cycles : ℕ) → ((started cycles).pclk ≡ false) × ((started cycles).left ≡ cycles)
unfolding started
started_lem zero = (refl, refl)
started_lem (suc n) = (refl, refl)

-- The reset is held for exactly `reset_cycles` edges of the system clock, and the divided clock
-- changes its level at every edge: it is high after an odd number of them.
pub clock_levels :
    (cycles n : ℕ)
    → let s = sys_edges n (started cycles) in (s.reset ≡ ltb n cycles) × (s.pclk ≡ (n % 2 == 1))
clock_levels cycles n =
    let (running, level, left) = run_levels n (started cycles) (started-IsRunning cycles) in
    let (low, count) = started_lem cycles in (ground (arith, running.held), ground arith)

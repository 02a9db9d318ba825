-- ===== src/Peripherals/Timer.antt =====
-- peripherals/timer/timer.h and peripherals/timer/register.h: the pin-level timer.
pub mod Bus
pub mod Count
pub mod Run
pub mod Reach
pub mod Bench
pub mod Later
use systemc_model.Base.{◌==◌, if◌then◌else◌, ℕ, ◌+◌, ◌^◌, bit_or, Bool, true, false, not, ◌&&◌}
use systemc_model.Base.Bits.{u32, has_any}

-- `Register32` of peripherals/timer/register.h
pub record Register32 : Type 0 where
  pub value : ℕ

abbrev pub write : Register32 → ℕ → Register32
write r reg_val = record { value = reg_val }

abbrev pub read : Register32 → ℕ
read r = r.value

abbrev pub reset : Register32 → Register32
reset r = record { value = 0 }

-- The registers, the pending notification of `irq_changed_ev`, and the output signals.
pub record Timer : Type 0 where
  pub timer_cntrl : Register32
  pub timer_intr : Register32
  pub timer_val : ℕ
  pub timer_cmp : ℕ
  pub irq_changed_ev : Bool
  pub intr1 : Bool
  pub intr2 : Bool
  pub data_out : ℕ

-- The input signals, as the methods read them.
pub record Pins : Type 0 where
  pub reset : Bool
  pub read_en : Bool
  pub write_en : Bool
  pub data_in : ℕ
  pub address : ℕ

abbrev pub enable_bit : ℕ
enable_bit = 0

abbrev pub cmp_bit : ℕ
cmp_bit = 1

abbrev pub ov_bit : ℕ
ov_bit = 2

abbrev pub intr_cmp_mask : ℕ
intr_cmp_mask = 2 ^ 1

abbrev pub intr_ov_mask : ℕ
intr_ov_mask = 2 ^ 2

abbrev pub timer_ovf_count : ℕ
timer_ovf_count = 0xFF

-- The constructor sets the two registers to 0. The code leaves `timer_val` and `timer_cmp` as they
-- are until the first reset or write: they are parameters.
abbrev pub timer : ℕ → ℕ → Timer
timer val cmp = record {
  timer_cntrl = record { value = 0 };
  timer_intr = record { value = 0 };
  timer_val = val;
  timer_cmp = cmp;
  irq_changed_ev = false;
  intr1 = false;
  intr2 = false;
  data_out = 0;
}

-- Running the method uses a pending notification up.
unfoldable pub irq_output_method : Timer → Timer
irq_output_method s =
    let intr = read s.timer_intr in
    record s {
      irq_changed_ev = false;
      intr1 = has_any intr intr_cmp_mask;
      intr2 = has_any intr intr_ov_mask;
    }

unfoldable pub commit_intr : ℕ → Timer → Timer
commit_intr value s =
    if read s.timer_intr == value
    then s
    else record s { timer_intr = write s.timer_intr value; irq_changed_ev = true }

unfoldable pub post_interrupt : ℕ → Timer → Timer
post_interrupt mask s = commit_intr (bit_or (read s.timer_intr) mask) s

unfoldable pub reset_method : Pins → Timer → Timer
unfolding commit_intr
reset_method p s =
    if not p.reset
    then s
    else commit_intr 0
        (record s { timer_cntrl = reset s.timer_cntrl; timer_val = 0; timer_cmp = 0 })

unfoldable pub read_offset : Timer → ℕ → ℕ
read_offset s offset =
    if offset == 0x00
    then read s.timer_cntrl
    else if offset == 0x04
    then s.timer_val
    else if offset == 0x08
    then s.timer_cmp
    else if offset == 0x0C
    then read s.timer_intr
    else 0

unfoldable pub bus_read_method : Pins → Timer → Timer
unfolding read_offset
bus_read_method p s = if not p.read_en then s else record s { data_out = read_offset s p.address }

unfoldable pub write_offset : Timer → ℕ → ℕ → Timer
unfolding commit_intr
write_offset s offset wdata =
    if offset == 0x00
    then record s { timer_cntrl = write s.timer_cntrl wdata }
    else if offset == 0x04
    then record s { timer_val = wdata }
    else if offset == 0x08
    then record s { timer_cmp = wdata }
    else if offset == 0x0C
    then commit_intr wdata s
    else s

unfoldable pub bus_write_method : Pins → Timer → Timer
unfolding write_offset
bus_write_method p s = if not p.write_en then s else write_offset s p.address p.data_in

-- The two tests of a count, in order: compare, then overflow. Each adds to `pending`.
unfoldable pub compare_match : ℕ → Timer → ℕ
compare_match ctrl s =
    if has_any ctrl (2 ^ cmp_bit) && (s.timer_val == s.timer_cmp) then bit_or 0 intr_cmp_mask else 0

unfoldable pub overflow : ℕ → ℕ → Timer → ℕ × Timer
overflow ctrl pending s =
    if has_any ctrl (2 ^ ov_bit) && (s.timer_val == timer_ovf_count)
    then (bit_or pending intr_ov_mask, record s { timer_val = 0 })
    else (pending, s)

-- One round of `timer_thread`, at a rising edge of the clock.
unfoldable pub timer_thread : Timer → Timer
unfolding compare_match overflow post_interrupt commit_intr
timer_thread s =
    let ctrl = read s.timer_cntrl in
    if not (has_any ctrl (2 ^ enable_bit))
    then s
    else let counted = record s { timer_val = u32 (s.timer_val + 1) } in
      let (pending, u) = overflow ctrl (compare_match ctrl counted) counted in
      if not (pending == 0) then post_interrupt pending u else u

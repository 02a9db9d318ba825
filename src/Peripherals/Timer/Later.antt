-- ===== src/Peripherals/Timer/Later.antt =====
-- The timer some turns of its processes later: the firmware's two ways to use it, stopped and running
-- with both events.
use systemc_model.Base.{ltb, if◌then◌else◌, ℕ, ◌+◌, ◌-◌, ◌^◌, ◌≤◌, ◌<◌, ◌≡◌, refl, ◌∙◌, true}
use systemc_model.Base.{false, arith}
use systemc_model.Base.Bits.{testbit, bit_or-lt}
use systemc_model.Peripherals.Timer.{
  Timer, Pins, bus_read_method, irq_output_method, timer_thread, write_offset, commit_intr,
}
use systemc_model.Peripherals.Timer.Count.{ctrl_of, intr_of}
use systemc_model.Peripherals.Timer.Run.{is_on, edge-Advances, thread-disabled}

-- The control register is 0.
pub record IsStopped (v m i : ℕ) (s : Timer) : Type 0 where
  pub ctrl : ctrl_of s ≡ 0
  pub val : s.timer_val ≡ v
  pub cmp : s.timer_cmp ≡ m
  pub intr : intr_of s ≡ i

-- Counting with both events, the compare value being 20.
pub record IsRunning (s : Timer) : Type 0 where
  pub ctrl : ctrl_of s ≡ 7
  pub below : s.timer_val < 255
  pub cmp : s.timer_cmp ≡ 20
  pub small : intr_of s < 2 ^ 32

-- The counts that are left to the two events.
abbrev pub to_compare : Timer → ℕ
to_compare s =
    if testbit (intr_of s) 1
    then 0
    else if ltb s.timer_val 20
    then 20 - s.timer_val
    else 275 - s.timer_val

abbrev pub to_overflow : Timer → ℕ
to_overflow s = if testbit (intr_of s) 2 then 0 else 255 - s.timer_val

-- `u` comes after `s` with at least `n` counts in between.
pub record Later (n : ℕ) (s u : Timer) : Type 0 where
  pub running : IsRunning u
  pub compare_near : to_compare u ≤ to_compare s - n
  pub overflow_near : to_overflow u ≤ to_overflow s - n
  pub compared : testbit (intr_of s) 1 ≡ true → testbit (intr_of u) 1 ≡ true

thread-small : (s : Timer) → intr_of s < 2 ^ 32 → intr_of (timer_thread s) < 2 ^ 32
unfolding timer_thread
thread-small s h =
    ground
      (arith, bit_or-lt 32 (intr_of s) 2, bit_or-lt 32 (intr_of s) 4, bit_or-lt 32 (intr_of s) 6)

pub thread-Later : (s : Timer) → IsRunning s → Later 1 s (timer_thread s)
unfolding testbit
thread-Later s h =
    let on : is_on s 0 ≡ true = rw h.ctrl refl in
    let ce : is_on s 1 ≡ true = rw h.ctrl refl in
    let oe : is_on s 2 ≡ true = rw h.ctrl refl in
    let a = edge-Advances s on oe h.below in
    record {
      running = record {
        ctrl = a.ctrl ∙ h.ctrl;
        below = ground (arith, a.value, h.below);
        cmp = a.target ∙ h.cmp;
        small = thread-small s h.small;
      };
      compare_near = ground (arith, a.value, a.cmp, h.below, h.cmp);
      overflow_near = ground (arith, a.value, a.ov, h.below);
      compared = λ e. ground (arith, a.cmp, e);
    }

pub outputs-Later : (s : Timer) → IsRunning s → Later 0 s (irq_output_method s)
unfolding irq_output_method
outputs-Later s h = ground arith

pub read-Later : (p : Pins) (s : Timer) → IsRunning s → Later 0 s (bus_read_method p s)
unfolding bus_read_method
read-Later p s h = ground arith

pub Later-trans : (m n : ℕ) {s t u : Timer} → Later m s t → Later n t u → Later (m + n) s u
Later-trans m n h k = record {
  running = k.running;
  compare_near = omega (arith, h.compare_near, k.compare_near);
  overflow_near = omega (arith, h.overflow_near, k.overflow_near);
  compared = λ e. k.compared (h.compared e);
}

pub Later-weaken : (n : ℕ) {s t : Timer} → Later n s t → Later 0 s t
Later-weaken n h = record {
  running = h.running;
  compare_near = omega (arith, h.compare_near);
  overflow_near = omega (arith, h.overflow_near);
  compared = h.compared;
}

pub Later-refl : (s : Timer) → IsRunning s → Later 0 s s
Later-refl s h = record {
  running = h;
  compare_near = omega arith;
  overflow_near = omega arith;
  compared = λ e. e;
}

module _ (v m i : ℕ) (s : Timer) (h : IsStopped v m i s) where
  pub thread-IsStopped : IsStopped v m i (timer_thread s)
  unfolding testbit
  thread-IsStopped = let off : is_on s 0 ≡ false = rw (h.ctrl) refl in rw (thread-disabled s off) h

  pub outputs-IsStopped : IsStopped v m i (irq_output_method s)
  unfolding irq_output_method
  outputs-IsStopped = record { ctrl = h.ctrl; val = h.val; cmp = h.cmp; intr = h.intr }

  pub read-IsStopped : (p : Pins) → IsStopped v m i (bus_read_method p s)
  unfolding bus_read_method
  read-IsStopped p = ground arith

  -- The writes to the registers while the timer stands.
  pub write-IsStopped :
      (w : ℕ)
      → IsStopped v m i (write_offset s 0x00 0)
        × IsStopped w m i (write_offset s 0x04 w)
        × IsStopped v w i (write_offset s 0x08 w)
        × IsStopped v m w (write_offset s 0x0C w)
  unfolding write_offset commit_intr
  write-IsStopped w = ground arith

  pub enable-IsRunning : v < 255 → m ≡ 20 → i < 2 ^ 32 → IsRunning (write_offset s 0x00 7)
  unfolding write_offset
  enable-IsRunning below cmp small = ground arith

module _ (s : Timer) (h : IsRunning s) where
  pub status-IsRunning : (w : ℕ) → w < 2 ^ 32 → IsRunning (write_offset s 0x0C w)
  unfolding write_offset commit_intr
  status-IsRunning w small = ground arith

  pub preset-IsRunning : (w : ℕ) → w < 255 → IsRunning (write_offset s 0x04 w)
  unfolding write_offset
  preset-IsRunning w below = ground arith

  pub disable-IsStopped : IsStopped s.timer_val s.timer_cmp (intr_of s) (write_offset s 0x00 0)
  unfolding write_offset
  disable-IsStopped = record { ctrl = refl; val = refl; cmp = refl; intr = refl }

-- ===== src/Peripherals/Timer/Run.antt =====
-- Runs of clock edges with no access in between: how far the counter is, and what is pending.
use systemc_model.Base.{ltb, leb, ◌==◌, if◌then◌else◌, ℕ, zero, suc, ◌+◌, ◌%◌, ◌^◌, ◌<◌, ◌≡◌}
use systemc_model.Base.{refl, ap, ◌∙◌, Bool, true, false, ◌&&◌, ◌||◌, arith}
use systemc_model.Base.Bits.{testbit, u32, has_any-two_pow}
use systemc_model.Peripherals.Timer.{Timer, timer_thread}
use systemc_model.Peripherals.Timer.Count.{ctrl_of, intr_of, timer_thread_lem}

-- `n` rising edges of the clock.
unfoldable pub edges : ℕ → Timer → Timer
edges zero s = s
edges (suc n) s = edges n (timer_thread s)

abbrev pub is_on : Timer → ℕ → Bool
is_on s k = testbit (ctrl_of s) k

pub thread-disabled : (s : Timer) → is_on s 0 ≡ false → timer_thread s ≡ s
unfolding timer_thread
thread-disabled s off = ground (arith, has_any-two_pow (ctrl_of s) 0)

-- A disabled timer stands still.
pub edges-disabled : (n : ℕ) (s : Timer) → is_on s 0 ≡ false → edges n s ≡ s
unfolding edges
edges-disabled zero s off = refl
edges-disabled (suc n) s off = rw (thread-disabled s off) (edges-disabled n s off)

-- No edge clears a status bit or touches the control and compare registers.
pub edges-sticky :
    (n k : ℕ) (s : Timer) → testbit (intr_of s) k ≡ true → testbit (intr_of (edges n s)) k ≡ true
unfolding edges
edges-sticky zero k s h = h
edges-sticky (suc n) k s h =
    edges-sticky n k (timer_thread s) (ground (arith, (timer_thread_lem s).1 k))

-- Enabled with the overflow off, the counter runs through 255: after `n` edges it has advanced by
-- `n` modulo 2 ^ 32, and the overflow status is as it was.
pub edges-free :
    (n : ℕ) (s : Timer)
    → is_on s 0 ≡ true
    → is_on s 2 ≡ false
    → s.timer_val < 2 ^ 32
    → ((edges n s).timer_val ≡ u32 (s.timer_val + n))
      × (testbit (intr_of (edges n s)) 2 ≡ testbit (intr_of s) 2)
unfolding edges
edges-free zero s on off small = (omega arith, refl)
edges-free (suc n) s on off small =
    let u : Timer = timer_thread s in
    let one = timer_thread_lem s in
    let ctrl : ctrl_of u ≡ ctrl_of s = one.3 in
    let rest = edges-free n u (rw ctrl on) (rw ctrl off) (ground arith) in ground (arith, one.1 2)

-- The number of edges, counted from the value 0, at which the counter first meets the compare
-- value `c` after the value `v`.
abbrev due : ℕ → ℕ → ℕ
due v c = if ltb v c then c else c + 255

-- What one edge does to a timer that is enabled with the overflow on, below the overflow.
pub record Advances (s u : Timer) : Type 0 where
  pub value : u.timer_val ≡ (if s.timer_val == 254 then 0 else s.timer_val + 1)
  pub ov : testbit (intr_of u) 2 ≡ (testbit (intr_of s) 2 || (s.timer_val == 254))
  pub cmp :
      testbit (intr_of u) 1
      ≡ (testbit (intr_of s) 1 || (is_on s 1 && (s.timer_val + 1 == s.timer_cmp)))
  pub ctrl : ctrl_of u ≡ ctrl_of s
  pub target : u.timer_cmp ≡ s.timer_cmp

pub edge-Advances :
    (s : Timer)
    → is_on s 0 ≡ true
    → is_on s 2 ≡ true
    → s.timer_val < 255
    → Advances s (timer_thread s)
edge-Advances s on oe below =
    let one = timer_thread_lem s in
    record {
      value = ground (arith, one.0);
      ov = ground (arith, one.1 2);
      cmp = ground (arith, one.1 1);
      ctrl = one.3;
      target = one.4;
    }

value_period :
    (v w n : ℕ) → v < 255 → w ≡ (if v == 254 then 0 else v + 1) → (w + n) % 255 ≡ (v + suc n) % 255
value_period v w n h e = ground arith

ov_period :
    (v w n : ℕ) (old new : Bool)
    → v < 255
    → w ≡ (if v == 254 then 0 else v + 1)
    → new ≡ (old || (v == 254))
    → (new || leb 255 (w + n)) ≡ (old || leb 255 (v + suc n))
ov_period v w n old new h e k = ground arith

abbrev meets : ℕ → ℕ → ℕ → Bool
meets c v total = (leb 1 c && leb c 255) && leb (due v c) total

cmp_period :
    (v w c n : ℕ) (old new ce : Bool)
    → v < 255
    → w ≡ (if v == 254 then 0 else v + 1)
    → new ≡ (old || (ce && (v + 1 == c)))
    → (new || (ce && meets c w (w + n))) ≡ (old || (ce && meets c v (v + suc n)))
cmp_period v w c n old new ce h e k = ground arith

-- Enabled with the overflow on and started below 255, the counter runs in periods of 255 edges, and
-- the overflow status is set at the edge that would make the count 255, whether the compare is on or
-- off. If the compare is on, the compare status is set at the first edge at which the count meets the
-- compare value, which is between 1 and 255; with a compare value of 0 or above 255, or with the
-- compare off, it stays as it was.
pub edges-periodic :
    (n : ℕ) (s : Timer)
    → is_on s 0 ≡ true
    → is_on s 2 ≡ true
    → s.timer_val < 255
    → let v = s.timer_val in
      let c = s.timer_cmp in
      ((edges n s).timer_val ≡ (v + n) % 255)
      × (testbit (intr_of (edges n s)) 2 ≡ (testbit (intr_of s) 2 || leb 255 (v + n)))
      × (testbit (intr_of (edges n s)) 1 ≡ (
          testbit (intr_of s) 1
          || (is_on s 1 && ((leb 1 c && leb c 255) && leb (due v c) (v + n)))))
unfolding edges
edges-periodic zero s on oe below = (omega arith, ground arith, ground arith)
edges-periodic (suc n) s on oe below =
    let u : Timer = timer_thread s in
    let one : Advances s u = edge-Advances s on oe below in
    let lower : u.timer_val < 255 = ground (arith, one.value) in
    let rest = edges-periodic n u (rw (one.ctrl) on) (rw (one.ctrl) oe) lower in
    (
      rest.0 ∙ value_period s.timer_val u.timer_val n below one.value,
      rest.1
          ∙ ov_period s.timer_val u.timer_val n (testbit (intr_of s) 2) (testbit (intr_of u) 2)
              below one.value one.ov,
      rest.2
          ∙ ap
              (λ (ctrl : ℕ).
                testbit (intr_of u) 1
                || (testbit ctrl 1 && meets u.timer_cmp u.timer_val (u.timer_val + n)))
              one.ctrl
          ∙ ap
              (λ (c : ℕ).
                testbit (intr_of u) 1 || (is_on s 1 && meets c u.timer_val (u.timer_val + n)))
              one.target
          ∙ cmp_period s.timer_val u.timer_val s.timer_cmp n (testbit (intr_of s) 1)
              (testbit (intr_of u) 1) (is_on s 1) below one.value one.cmp,
    )

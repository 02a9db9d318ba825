-- ===== src/Firmware/Board/CortexA/Access.antt =====
-- What the accesses of the Cortex-A firmware do to the timer, over any kernel that schedules it.
use systemc_model.Base.{replicate, ℕ, ◌+◌, ◌^◌, ◌<◌, ◌≡◌, refl, ap, ◌∙◌, ◌⊎◌, inl, inr, some}
use systemc_model.Base.{List, arith}
use systemc_model.Tlm.{memcpy, word_bytes, word_of}
use systemc_model.Tlm.Laws.{word_of-word_bytes, word_of-memcpy}
use systemc_model.Transactor.Initiator.{read_payload, write_payload}
use systemc_model.Transactor.Server.{handle, dispatch, tlm_read, tlm_write}
use systemc_model.Interconnect.AddressMap as AddressMap
use systemc_model.Interconnect.AddressMap.{misses, map_region}
use systemc_model.Peripherals.Timer.{Timer, bus_read_method, read_offset, write_offset}
use systemc_model.Peripherals.Timer.Count.{intr_of}
use systemc_model.Peripherals.Timer.Later.{
  IsStopped, IsRunning, Later, read-Later, Later-trans, Later-weaken, read-IsStopped,
}
use systemc_model.Bridges.PinBridge as PinBridge
use systemc_model.Bridges.PinBridge.{BusPins, PinState, clock_period, bus_read, bus_write}
use systemc_model.Bridges.PinBridge.TimerBus.{Turn, turns, threads, IsScheduled}
use systemc_model.Bridges.PinBridge.Cycles.{
  AtRest, Cycle, followed, read_pins, turns-Later, turns-IsStopped, wait-Cycle, bus_write-Cycle,
  bus_read-Cycle,
}
use systemc_model.Machines.SystemcPs.{ps_pl_base}
use systemc_model.Platforms.{cortex_a_transport, interconnect}
use systemc_model.Firmware.Board.CortexA.{fetch, modify}

-- The four registers.
abbrev pub IsRegister : ℕ → Type 0
IsRegister off = ((off ≡ 0x00) ⊎ (off ≡ 0x04)) ⊎ ((off ≡ 0x08) ⊎ (off ≡ 0x0C))

module _ {P : Type 0} (run : ℕ → BusPins → P → P) (data_out : P → ℕ) where
  fetch_lem :
      (off w : ℕ) (s : PinState P)
      → IsRegister off
      → w < 2 ^ 32
      → (bus_read run data_out off s).0 ≡ w
      → fetch run data_out (ps_pl_base + off) s
        ≡ some (w, PinBridge.wait run data_out clock_period (bus_read run data_out off s).1)
  unfolding fetch handle dispatch tlm_read cortex_a_transport interconnect map_region misses
      AddressMap.b_transport PinBridge.b_transport read_payload
  fetch_lem off w s h small got =
      let word : word_of (memcpy 4 (replicate 4 0) 0 (word_bytes w) 0) ≡ w =
        word_of-memcpy (replicate 4 0) w (omega arith) small in
      elim h [
        | inl (inl e) ↦ rw (e, rw e at got, word) refl
        | inl (inr e) ↦ rw (e, rw e at got, word) refl
        | inr (inl e) ↦ rw (e, rw e at got, word) refl
        | inr (inr e) ↦ rw (e, rw e at got, word) refl
      ]

  modify_lem :
      (off v : ℕ) (s : PinState P)
      → IsRegister off
      → v < 2 ^ 32
      → modify run data_out (ps_pl_base + off) v s
        ≡ some (PinBridge.wait run data_out clock_period (bus_write run data_out off v s))
  unfolding modify handle dispatch tlm_write cortex_a_transport interconnect map_region misses
      AddressMap.b_transport PinBridge.b_transport write_payload
  modify_lem off v s h small =
      let word = word_of-word_bytes v small in
      elim h [
        | inl (inl e) ↦ rw (e, word) refl
        | inl (inr e) ↦ rw (e, word) refl
        | inr (inl e) ↦ rw (e, word) refl
        | inr (inr e) ↦ rw (e, word) refl
      ]

module _ {P : Type 0} (run : ℕ → BusPins → P → P) (data_out : P → ℕ) (timer_of : P → Timer)
    (IsQuiet : P → Type 0) (kernel : IsScheduled run data_out timer_of IsQuiet) where
  abbrev pub At : (Timer → Type 0) → PinState P → Type 0
  At I s = AtRest run data_out timer_of IsQuiet kernel s × I (timer_of s.model)

  -- A clock period more.
  waited :
      (f : Timer → Timer) (js : List Turn) (t : Timer) (s : PinState P)
      → AtRest run data_out timer_of IsQuiet kernel s
      → Cycle run data_out timer_of IsQuiet kernel f js t (timer_of s.model)
      → let s' = PinBridge.wait run data_out clock_period s in
        AtRest run data_out timer_of IsQuiet kernel s'
        × Cycle run data_out timer_of IsQuiet kernel f js t (timer_of s'.model)
  unfolding turns
  waited f js t s rest (ks, e, more) =
      let (rest', (ps, e', more')) = wait-Cycle run data_out timer_of IsQuiet kernel s rest in
      (
        rest',
        followed run data_out timer_of IsQuiet kernel f js ks ps t (timer_of s.model) _ e e' more',
      )

  -- A write to a register, among turns.
  pub write_lem :
      (off v : ℕ) (s : PinState P)
      → IsRegister off
      → v < 2 ^ 32
      → AtRest run data_out timer_of IsQuiet kernel s
      → (s' : PinState P) × (modify run data_out (ps_pl_base + off) v s ≡ some s')
        × AtRest run data_out timer_of IsQuiet kernel s'
        × (js : List Turn) × Cycle run data_out timer_of IsQuiet kernel
            (λ t. write_offset t off v)
            js
            (timer_of s.model)
            (timer_of s'.model)
  write_lem off v s h small rest =
      let (rest1, js, cycle) = bus_write-Cycle run data_out timer_of IsQuiet kernel off v s rest in
      let u = bus_write run data_out off v s in
      let (rest2, cycle2) =
        waited (λ t. write_offset t off v) js (timer_of s.model) u rest1 cycle in
      (
        PinBridge.wait run data_out clock_period u,
        modify_lem run data_out off v s h small,
        rest2,
        js,
        cycle2,
      )

  -- A read of a register that holds a word, among turns.
  pub read_lem :
      (off : ℕ) (s : PinState P)
      → IsRegister off
      → ((js : List Turn) → read_offset (turns js (timer_of s.model)) off < 2 ^ 32)
      → AtRest run data_out timer_of IsQuiet kernel s
      → (w : ℕ) × (s' : PinState P) × (fetch run data_out (ps_pl_base + off) s ≡ some (w, s'))
        × AtRest run data_out timer_of IsQuiet kernel s'
        × (js : List Turn) × (w ≡ read_offset (turns js (timer_of s.model)) off)
        × Cycle run data_out timer_of IsQuiet kernel
            (bus_read_method (read_pins off))
            js
            (timer_of s.model)
            (timer_of s'.model)
  read_lem off s h small rest =
      let (rest1, js, got, cycle) =
        bus_read-Cycle run data_out timer_of IsQuiet kernel off s rest in
      let (d, u) = bus_read run data_out off s in
      let (rest2, cycle2) =
        waited (bus_read_method (read_pins off)) js (timer_of s.model) u rest1 cycle in
      (
        d,
        PinBridge.wait run data_out clock_period u,
        fetch_lem run data_out off d s h (rw got (small js)) refl,
        rest2,
        js,
        got,
        cycle2,
      )

  -- What turns leave as it is.
  abbrev pub Stays : (Timer → Type 0) → Type 0
  Stays I = (ps : List Turn) (t : Timer) → I t → I (turns ps t)

  pub write_after :
      (I J : Timer → Type 0) (off w : ℕ) (s : PinState P)
      → IsRegister off
      → w < 2 ^ 32
      → Stays I
      → Stays J
      → ((t : Timer) → I t → J (write_offset t off w))
      → At I s
      → (s' : PinState P) × (modify run data_out (ps_pl_base + off) w s ≡ some s') × At J s'
  write_after I J off w s h small keep keep' effect (rest, i) =
      let (s', e, rest', js, (ks, at, more)) = write_lem off w s h small rest in
      (s', e, (rest', rw at (keep' ks _ (effect _ (keep js (timer_of s.model) i)))))

  pub read_value :
      (v m i : ℕ) (s : PinState P)
      → v < 2 ^ 32
      → At (IsStopped v m i) s
      → (s' : PinState P) × (fetch run data_out (ps_pl_base + 0x04) s ≡ some (v, s'))
        × At (IsStopped v m i) s'
  unfolding read_offset
  read_value v m i s small (rest, h) =
      let stands = λ (js : List Turn). turns-IsStopped v m i js (timer_of s.model) h in
      let (w, s', e, rest', js, got, (ks, at, more)) =
        read_lem 0x04 s (inl (inr refl)) (λ js. rw (stands js).val small) rest in
      let same : w ≡ v = got ∙ (stands js).val in
      (
        s',
        e ∙ ap (λ x. some (x, s')) same,
        (
          rest',
          rw at (turns-IsStopped v m i ks _ (read-IsStopped v m i _ (stands js) (read_pins 0x04))),
        ),
      )

  -- A read of the status while the timer counts: the status at some time, which the timer then counts
  -- on from.
  pub read_status :
      (s : PinState P)
      → At IsRunning s
      → (w : ℕ) × (s' : PinState P) × (fetch run data_out (ps_pl_base + 0x0C) s ≡ some (w, s'))
        × AtRest run data_out timer_of IsQuiet kernel s'
        × (t : Timer) × (n : ℕ) × (w ≡ intr_of t)
        × Later 0 (timer_of s.model) t
        × Later n t (timer_of s'.model)
        × (0 < n)
  unfolding read_offset
  read_status s (rest, h) =
      let ahead = λ (js : List Turn). turns-Later js (timer_of s.model) h in
      let (w, s', e, rest', js, got, (ks, at, more)) =
        read_lem 0x0C s (inr (inr refl)) (λ js. (ahead js).running.small) rest in
      let t = turns js (timer_of s.model) in
      let seen = read-Later (read_pins 0x0C) t (ahead js).running in
      (
        w,
        s',
        e,
        rest',
        t,
        0 + threads ks,
        got,
        Later-weaken (threads js) (ahead js),
        rw at (Later-trans 0 (threads ks) seen (turns-Later ks _ seen.running)),
        omega (arith, more),
      )

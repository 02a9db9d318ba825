-- ===== src/Tests/Registers.antt =====
-- The peripherals of peripherals/ on concrete inputs.
use systemc_model.Base.{◌==◌, length, ℕ, ◌≡◌, refl, ◌≢◌, ◌↔◌, ◌⊎◌, Bool, true, false, not, xor}
use systemc_model.Base.{◌&&◌, ◌||◌, [], ◌∷◌, arith}
use systemc_model.Base.Bits.{testbit, u32}
use systemc_model.Tlm.{Command, Txn, word_of, ok, burst_error}
use systemc_model.Tlm.Laws.{IsWordAccess}
use systemc_model.Transactor.Initiator.{read_payload, write_payload, write_payload-IsWriteOf}
use systemc_model.Peripherals.Sram as Sram
use systemc_model.Peripherals.Sram.Words.{word_at}
use systemc_model.Peripherals.Sram.Refine.{load, store, run, replay, run_refines}
use systemc_model.Peripherals.Sram.Laws.{overrun_exactly}
use systemc_model.Peripherals.Uart as Uart
use systemc_model.Peripherals.Uart.Fifo.{put_all, take_all, loopback_fifo}
use systemc_model.Peripherals.Uart.Laws.{dr_lost}
use systemc_model.Peripherals.Uart.Reach as UartReach
use systemc_model.Peripherals.Timer as Timer
use systemc_model.Peripherals.Timer.Run.{edges, edges-periodic}
use systemc_model.Peripherals.Timer.Count.{intr_of, timer_thread_lem}
use systemc_model.Peripherals.Gpio as Gpio
use systemc_model.Peripherals.Gpio.Edges.{pin_event, write_events}
use systemc_model.Peripherals.Wdt as Wdt
use systemc_model.Peripherals.Wdt.Count.{ticks, ticks_periodic}
use systemc_model.Peripherals.Wdt.Laws.{locked_guard}
use systemc_model.Peripherals.Wdt.Reach as WdtReach

run_refines_example :
    run (Sram.sram_ahb 8) (store 1 7 ∷ load 1 ∷ load 0 ∷ []) ≡ (ok, 0) ∷ (ok, 7) ∷ (ok, 0) ∷ []
unfolding replay word_at
run_refines_example =
    run_refines (store 1 7 ∷ load 1 ∷ load 0 ∷ []) (Sram.sram_ahb 8) 2 refl (omega arith)
      (omega arith, omega arith, (omega arith, (omega arith, tt)))

-- A read of the last word of the address space, from a memory of eight bytes.
abbrev last_word : Txn
last_word = read_payload 0xFFFF_FFFC

overrun_exactly_example : ((Sram.b_transport (Sram.sram_ahb 8) last_word).0.overrun ≡ true) ↔ (
    (u32 0xFFFF_FFFC ≡ 0xFFFF_FFFC) × (last_word.data_length ≡ 4) × (Command.read ≢ Command.ignore))
unfolding read_payload
overrun_exactly_example = overrun_exactly (Sram.sram_ahb 8) last_word (omega arith) refl

abbrev looping : Uart.Uart
looping = record Uart.uart_pl011 { cr = 0x381 }

loopback_fifo_example :
    let (xs, u) = take_all 3 (put_all (72 ∷ 105 ∷ 300 ∷ []) looping) in
    (xs ≡ 72 ∷ 105 ∷ 44 ∷ []) × (u.rx ≡ [])
loopback_fifo_example =
    loopback_fifo (72 ∷ 105 ∷ 300 ∷ []) looping (refl, refl) refl (omega arith)
      (omega arith, (omega arith, (omega arith, tt)))

abbrev short_read : Txn
short_read = record (read_payload 0x00) { data_length = 1 }

dr_lost_example :
    let s = record Uart.uart_pl011 { rx = 65 ∷ [] } in
    ((Uart.b_transport s short_read).1 ≡ record short_read { response = burst_error })
    × ((Uart.b_transport s short_read).0.rx ≡ [])
unfolding read_payload
dr_lost_example =
    dr_lost (record Uart.uart_pl011 { rx = 65 ∷ [] }) short_read 65 [] refl refl (omega arith) refl

uart_always-IsValid_example :
    UartReach.IsValid (Uart.on_reset true (Uart.drive_irq Uart.uart_pl011))
uart_always-IsValid_example =
    UartReach.uart_always-IsValid
      (UartReach.later (UartReach.later UartReach.start UartReach.wake) (UartReach.reset true))

flags-Reach_example :
    let s = Uart.drive_irq Uart.uart_pl011 in
    (testbit (Uart.flags s) 7 ≡ true)
    × (testbit (Uart.flags s) 5 ≡ false)
    × (testbit (Uart.flags s) 3 ≡ false)
    × ((testbit (Uart.flags s) 4 ≡ true) ↔ (s.rx ≡ []))
    × ((testbit (Uart.flags s) 6 ≡ true) ↔ (length s.rx ≡ 16))
flags-Reach_example = UartReach.flags-Reach (UartReach.later UartReach.start UartReach.wake)

-- Enabled, with the compare and the overflow on, at 250 with the compare value 3.
abbrev running : Timer.Timer
running = record (Timer.timer 250 3) { timer_cntrl = record { value = 7 } }

edges-periodic_example :
    ((edges 300 running).timer_val ≡ 40)
    × (testbit (intr_of (edges 300 running)) 2 ≡ true)
    × (testbit (intr_of (edges 300 running)) 1 ≡ true)
unfolding testbit
edges-periodic_example = edges-periodic 300 running refl refl (omega arith)

abbrev strobe : Bool → Bool → ℕ → ℕ → Timer.Pins
strobe read_en write_en address data_in = record {
  reset = false;
  read_en = read_en;
  write_en = write_en;
  data_in = data_in;
  address = address;
}

timer_thread_lem_example :
    let u = Timer.timer_thread running in
    (u.timer_val ≡ 251)
    × ((k : ℕ)
        → testbit (intr_of u) k
          ≡ (testbit 0 k || (true && ((false && (1 == k)) || (false && (2 == k))))))
    × (u.irq_changed_ev ≡ (false || not (intr_of u == intr_of running)))
    × (u.timer_cntrl.value ≡ 7)
    × (u.timer_cmp ≡ 3)
    × (u.intr1 ≡ false)
    × (u.intr2 ≡ false)
    × (u.data_out ≡ 0)
unfolding testbit
timer_thread_lem_example = timer_thread_lem running

-- Pin 0 is an enabled output with an interrupt on its rising edge.
abbrev rising : Gpio.Gpio
rising = record Gpio.gpio_apb { dir = 1; inten = 1; inttype = 1; intpol = 1 }

write_events_example : testbit (Gpio.b_transport rising (write_payload 0x00 1)).0.intstat 0 ≡ true
unfolding pin_event testbit Gpio.write_switch xor
write_events_example =
    write_events rising 0x00 1 (write_payload 0x00 1) 0
      (write_payload-IsWriteOf 0x00 1 (omega arith) (omega arith) (omega arith)) (omega arith)

-- It counts from 3.
abbrev counting : Wdt.Wdt
counting = record Wdt.wdt_apb { load = 3; value = 3; ctrl = 1 }

ticks_periodic_example : ticks 10 counting ≡ record counting { ris = 1; value = 1; irq_ev = true }
ticks_periodic_example = ticks_periodic 2 2 counting refl refl (omega arith)

locked_guard_example :
    let t = write_payload 0x08 3 in
    ((Wdt.b_transport Wdt.wdt_apb t).0 ≡ Wdt.wdt_apb)
    ⊎ (t.command ≡ Command.write)
      × IsWordAccess t
      × (u32 t.address ≡ 0xC00)
      × (word_of t.bytes ≡ Wdt.wdt_unlock)
      × ((Wdt.b_transport Wdt.wdt_apb t).0 ≡ record Wdt.wdt_apb { locked = false })
locked_guard_example = locked_guard Wdt.wdt_apb (write_payload 0x08 3) refl

wdt_always-IsValid_example : WdtReach.IsValid (Wdt.tick false Wdt.wdt_apb)
wdt_always-IsValid_example =
    WdtReach.wdt_always-IsValid (WdtReach.later WdtReach.start (WdtReach.clock false))

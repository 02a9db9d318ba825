-- ===== src/Peripherals/Timer/Bus.antt =====
-- The registers of the timer as seen from its bus pins.
use systemc_model.Base.{◌==◌, if◌then◌else◌, ℕ, ◌≡◌, Bool, true, ◌&&◌, ◌||◌, arith}
use systemc_model.Peripherals.Timer.{
  Timer, Pins, read_offset, write_offset, bus_read_method, bus_write_method,
}

abbrev is_register : ℕ → Bool
is_register off = off == 0x00 || (off == 0x04 || (off == 0x08 || off == 0x0C))

read_after_write :
    (s : Timer) (off v off' : ℕ)
    → read_offset (write_offset s off v) off'
      ≡ (if is_register off && off == off' then v else read_offset s off')
unfolding read_offset write_offset
read_after_write s off v off' = ground arith

-- A read strobe after a write strobe puts the written word on `data_out` if both are at the same of
-- the four registers, and otherwise what it would have put there before the write; at an address
-- of no register that is 0.
pub bus_write_then_read :
    (s : Timer) (p q : Pins)
    → p.write_en ≡ true
    → q.read_en ≡ true
    → (bus_read_method q (bus_write_method p s)).data_out ≡ (
        if is_register p.address && p.address == q.address
        then p.data_in
        else (bus_read_method q s).data_out)
unfolding bus_read_method bus_write_method
bus_write_then_read s p q w r = ground (arith, read_after_write s p.address p.data_in q.address)

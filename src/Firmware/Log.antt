-- ===== src/Firmware/Log.antt =====
-- platforms/basic_cortexM/firmware/log.h: the lines of the log, and the polling of a register.
pub mod Laws
pub mod Wait
use systemc_model.Base.{ltb, ◌==◌, if◌then◌else◌, set, ℕ, zero, suc, ◌+◌, ◌*◌, ◌/◌, ◌%◌, ◌^◌}
use systemc_model.Base.{bit_and, Bool, true, false, List, [], ◌∷◌}
use systemc_model.Base.Bits.{u32, has_any}
use systemc_model.Firmware.Program.{Program, done, put, number, bind, ◌>>=◌, ◌>>◌, read, sh_puts}
use Prim.Native.String.{String}

-- The character of a digit: `hex[d]`, in ASCII.
unfoldable pub hex : ℕ → ℕ
hex d = if ltb d 10 then 48 + d else 55 + d

-- The loop of `log_put_hex32`, with `n` digits to go: `shift` is `4 * n - 4`.
unfoldable pub put_digits : ℕ → ℕ → List ℕ
put_digits zero v = []
put_digits (suc n) v = hex (bit_and (v / 2 ^ (4 * n)) 0xF) ∷ put_digits n v

-- The characters that `log_put_hex32` puts out: "0x", and eight digits.
unfoldable pub log_put_hex32 : ℕ → List ℕ
log_put_hex32 v = 48 ∷ 120 ∷ put_digits 8 v

abbrev pub put_hex32 : ℕ → Program (Unit {0})
put_hex32 v = put (number v) (done tt)

unfoldable pub log_line : String → Program (Unit {0})
log_line msg = do sh_puts msg; sh_puts "\n"

unfoldable pub log_mmio_write : String → ℕ → ℕ → Program (Unit {0})
log_mmio_write reg offset value = do
  sh_puts "[mmio] WRITE "
  sh_puts reg
  sh_puts " @+"
  put_hex32 offset
  sh_puts " = "
  put_hex32 value
  sh_puts "\n"

unfoldable pub log_mmio_read : String → ℕ → ℕ → Program (Unit {0})
log_mmio_read reg offset value = do
  sh_puts "[mmio] READ  "
  sh_puts reg
  sh_puts " @+"
  put_hex32 offset
  sh_puts " -> "
  put_hex32 value
  sh_puts "\n"

unfoldable pub report_set : String → ℕ → ℕ → Program (Unit {0})
report_set label polls v = do
  sh_puts "[poll] "
  sh_puts label
  sh_puts " set after "
  put_hex32 polls
  sh_puts " reads, INTR="
  put_hex32 v
  sh_puts "\n"

unfoldable pub report_waiting : ℕ → ℕ → Program (Unit {0})
report_waiting polls v =
    if polls % 200000 == 0
    then (do
      sh_puts "[poll] still waiting ("
      put_hex32 polls
      sh_puts " reads, INTR="
      put_hex32 v
      sh_puts ")\n")
    else done tt

-- After the last round the register is read once more, in the middle of the message.
unfoldable pub report_timeout : ℕ → String → ℕ → Program (Unit {0})
report_timeout reg label polls = do
  sh_puts "[poll] TIMEOUT "
  sh_puts label
  sh_puts " after "
  put_hex32 polls
  sh_puts " reads, INTR="
  v ← read reg
  put_hex32 v
  sh_puts "\n"

-- The loop, with `spins` rounds to go, after `polls` polls of the register at the address `reg`. The
-- result is whether the code returns 0.
unfoldable pub wait_loop : ℕ → ℕ → String → ℕ → ℕ → Program Bool
wait_loop reg mask label zero polls = do report_timeout reg label polls; done false
wait_loop reg mask label (suc spins) polls = do
  let polls' = u32 (polls + 1)
  v ← read reg
  elim (has_any v mask) [
    | true ↦ report_set label polls' v >> done true
    | false ↦ report_waiting polls' v >> wait_loop reg mask label spins polls'
  ]

unfoldable pub log_wait_bit : ℕ → ℕ → ℕ → String → Program Bool
log_wait_bit reg mask spins label = do
  sh_puts "[poll] waiting for "
  sh_puts label
  sh_puts " (mask "
  put_hex32 mask
  sh_puts ")...\n"
  wait_loop reg mask label spins 0

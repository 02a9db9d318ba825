-- ===== src/Firmware/Log/Laws.antt =====
-- What is printed is the number, and when polling ends.
use systemc_model.Base.{ltb, ◌==◌, if◌then◌else◌, Bool-cases, length, take, drop, ℕ, zero, suc}
use systemc_model.Base.{◌+◌, ◌-◌, ◌*◌, ◌/◌, ◌%◌, ◌^◌, ◌≤◌, ◌<◌, bit_and, ◌≡◌, refl, ap, ◌∙◌}
use systemc_model.Base.{inl, inr, Bool, true, false, none, some, List, [], ◌∷◌, arith}
use systemc_model.Base.Bits.{u32, has_any, bit_and_low_mask}
use systemc_model.Firmware.Program.{
  Program, bind, Bus, Regs, Outcome, finished, run_with, undisturbed,
}
use systemc_model.Firmware.Program.Laws.{run_with-bind}
use systemc_model.Firmware.Log.{
  hex, put_digits, log_put_hex32, report_set, report_waiting, report_timeout, wait_loop,
  log_wait_bit,
}
use Prim.Native.String.{String}
use native.Mathlib.Decide.{ℕ_discrete}
use native.Mathlib.Nat.{pow-suc, div-div-eq-div-mul}

-- Reading hexadecimal characters, the first the highest.
abbrev pub digit_value : ℕ → ℕ
digit_value c = if ltb c 58 then c - 48 else c - 55

abbrev pub hex_value : ℕ → List ℕ → ℕ
hex_value acc [] = acc
hex_value acc (c ∷ cs) = hex_value (16 * acc + digit_value c) cs

digit_value-hex : (d : ℕ) → d < 16 → digit_value (hex d) ≡ d
unfolding hex
digit_value-hex d h = ground arith

digit : (v n : ℕ) → digit_value (hex (bit_and (v / 2 ^ (4 * n)) 0xF)) ≡ v / 2 ^ (4 * n) % 16
digit v n =
    let low : bit_and (v / 2 ^ (4 * n)) 0xF ≡ v / 2 ^ (4 * n) % 16 =
      bit_and_low_mask 4 (v / 2 ^ (4 * n)) in
    rw low (digit_value-hex (v / 2 ^ (4 * n) % 16) (omega arith))

shift : (v n : ℕ) → v / 2 ^ (4 * suc n) ≡ v / 2 ^ (4 * n) / 16
shift v n =
    let e : 4 * suc n ≡ 4 + 4 * n = omega arith in
    rw e (
      ground (
        arith,
        pow-suc 2 (3 + 4 * n),
        pow-suc 2 (2 + 4 * n),
        pow-suc 2 (1 + 4 * n),
        pow-suc 2 (4 * n),
        div-div-eq-div-mul v (2 ^ (4 * n)) 16,
      ))

put_digits-value : (n v acc : ℕ) → acc ≡ v / 2 ^ (4 * n) → hex_value acc (put_digits n v) ≡ v
unfolding put_digits
put_digits-value zero v acc h = h ∙ omega arith
put_digits-value (suc n) v acc h =
    let w = v / 2 ^ (4 * n) in
    put_digits-value n v (16 * acc + digit_value (hex (bit_and w 0xF)))
      (omega (arith, digit v n, shift v n, h))

length-put_digits : (n v : ℕ) → length (put_digits n v) ≡ n
unfolding put_digits
length-put_digits zero v = refl
length-put_digits (suc n) v = ap suc (length-put_digits n v)

-- A 32-bit number is printed as "0x" and eight hexadecimal digits, which read as the number.
pub log_put_hex32-value :
    (v : ℕ)
    → v < 2 ^ 32
    → (take 2 (log_put_hex32 v) ≡ 48 ∷ 120 ∷ [])
      × (length (log_put_hex32 v) ≡ 10)
      × (hex_value 0 (drop 2 (log_put_hex32 v)) ≡ v)
unfolding log_put_hex32
log_put_hex32-value v small =
    (refl, ap (λ n. suc (suc n)) (length-put_digits 8 v), put_digits-value 8 v 0 (omega arith))

-- A register that gives `reg i` at read number `i`, and nothing else.
abbrev pub stream : (ℕ → ℕ) → Bus ℕ
stream reg = record {
  fetch = λ a i. some (reg i, i + 1);
  modify = λ a v i. none;
  pending = λ i. false;
  idle = λ i. none;
}

-- A program alone with the register, after `polls` reads of it.
abbrev pub poll : {A : Type 0} → (ℕ → ℕ) → Program A → Regs → ℕ → Outcome A ℕ
poll reg = run_with (stream reg) (undisturbed (stream reg))

-- The outcome of a polling loop that starts with read number `polls` and has `spins` rounds.
pub data Polled (reg : ℕ → ℕ) (mask polls spins : ℕ) (w : Outcome Bool ℕ) : Type 0 where
  seen :
      (k : ℕ) (r : Regs)
      → w ≡ finished true r (k + 1)
      → polls ≤ k
      → k < polls + spins
      → has_any (reg k) mask ≡ true
      → ((i : ℕ) → polls ≤ i → i < k → has_any (reg i) mask ≡ false)
      → Polled reg mask polls spins w
  unseen :
      (r : Regs) (reads : ℕ)
      → w ≡ finished false r reads
      → reads ≡ polls + spins + 1
      → ((i : ℕ) → polls ≤ i → i < polls + spins → has_any (reg i) mask ≡ false)
      → Polled reg mask polls spins w

-- A read without a bit of the mask before the others.
not_before :
    (reg : ℕ → ℕ) (mask polls e : ℕ)
    → has_any (reg polls) mask ≡ false
    → ((i : ℕ) → polls + 1 ≤ i → i < e → has_any (reg i) mask ≡ false)
    → (i : ℕ) → polls ≤ i
    → i < e
    → has_any (reg i) mask ≡ false
not_before reg mask polls e miss f i lo hi = elim (ℕ_discrete i polls) [
  | yes same ↦ rw same miss
  | no other ↦ f i (omega arith) hi
]

one_more :
    (reg : ℕ → ℕ) (mask polls spins : ℕ) (w : Outcome Bool ℕ)
    → has_any (reg polls) mask ≡ false
    → Polled reg mask (polls + 1) spins w
    → Polled reg mask polls (suc spins) w
one_more reg mask polls spins w miss (seen k r e lo hi hit before) =
    seen k r e (omega arith) (omega arith) hit (not_before reg mask polls k miss before)
one_more reg mask polls spins w miss (unseen r reads e n before) =
    unseen r reads e (omega arith)
      (λ i lo hi. not_before reg mask polls (polls + 1 + spins) miss before i lo (omega arith))

-- The note that polling goes on touches no register.
report_waiting-finished :
    (reg : ℕ → ℕ) (polls v : ℕ) (r : Regs) (i : ℕ)
    → (r' : Regs) × (poll reg (report_waiting polls v) r i ≡ finished tt r' i)
unfolding report_waiting run_with bind
report_waiting-finished reg polls v r i = elim (Bool-cases (polls % 200000 == 0)) [
  | inl noted ↦ rw noted (_, refl)
  | inr other ↦ rw other (_, refl)
]

wait_loop-Polled :
    (reg : ℕ → ℕ) (a mask : ℕ) (label : String) (spins polls : ℕ) (r : Regs)
    → polls + spins < 2 ^ 32
    → Polled reg mask polls spins (poll reg (wait_loop a mask label spins polls) r polls)
unfolding wait_loop run_with bind undisturbed report_set report_timeout
wait_loop-Polled reg a mask label zero polls r h =
    unseen _ _ refl (omega arith) (λ i lo hi. absurd (omega arith))
wait_loop-Polled reg a mask label (suc spins) polls r h =
    let wide : u32 (polls + 1) ≡ polls + 1 = omega arith in
    elim (Bool-cases (has_any (reg polls) mask)) [
      | inl hit ↦
          rw (hit, wide)
            (seen polls _ refl (omega arith) (omega arith) hit (λ i lo hi. absurd (omega arith)))
      | inr miss ↦
          let (r', noted) = report_waiting-finished reg (polls + 1) (reg polls) r (polls + 1) in
          rw
            (
              miss,
              wide,
              run_with-bind (stream reg) (undisturbed (stream reg))
                  (report_waiting (polls + 1) (reg polls))
                  (λ _. wait_loop a mask label spins (polls + 1)) r (polls + 1),
              noted,
            )
            (one_more reg mask polls spins _ miss
              (wait_loop-Polled reg a mask label spins (polls + 1) r' (omega arith)))
    ]

-- Polling stops at the first read that has a bit of the mask, and reports success after that read;
-- if none of the `spins` reads has one, it reports a failure after one read more.
pub log_wait_bit_lem :
    (reg : ℕ → ℕ) (a mask spins : ℕ) (label : String) (r : Regs)
    → spins < 2 ^ 32
    → Polled reg mask 0 spins (poll reg (log_wait_bit a mask spins label) r 0)
unfolding log_wait_bit run_with bind
log_wait_bit_lem reg a mask spins label r h =
    wait_loop-Polled reg a mask label spins 0 _ (omega arith)

-- ===== src/Firmware/Log/Wait.antt =====
-- The polling of a register that makes progress: it ends with success.
use systemc_model.Base.{◌==◌, Bool-cases, ℕ, zero, suc, ◌+◌, ◌%◌, ◌<◌, ◌≡◌, refl, ◌⊎◌, inl, inr}
use systemc_model.Base.{Bool, true, false, some, arith}
use systemc_model.Base.Bits.{u32, has_any}
use systemc_model.Firmware.Program.{bind, Bus}
use systemc_model.Firmware.Program.Total.{Leads, Leads-bind}
use systemc_model.Firmware.Log.{report_set, report_waiting, wait_loop, log_wait_bit}
use Prim.Native.String.{String}

-- From a state of `I` a read of the register gives a word and a state: one of `J` if the word has a
-- bit of the mask, and else one of `I` with less left to wait for.
abbrev pub Polls : {S : Type 0} → Bus S → ℕ → ℕ → (S → Type 0) → (S → Type 0) → (S → ℕ) → Type 0
Polls {S} bus reg mask I J left =
    (s : S)
    → I s
    → (v : ℕ) × (s' : S) × (bus.fetch reg s ≡ some (v, s'))
      × (((has_any v mask ≡ true) × J s') ⊎ ((has_any v mask ≡ false) × I s' × (left s' < left s)))

module _ {S : Type 0} (bus : Bus S) (E : ℕ → Type 0) (reg mask : ℕ) (label : String)
    (I J : S → Type 0) (left : S → ℕ) (polls : Polls bus reg mask I J left) where
  abbrev Found : Bool → S → Type 0
  Found b s = (b ≡ true) × J s

  report_waiting-Leads :
      (Q : S → Type 0) (n v : ℕ) (s : S) → Q s → Leads bus E (λ _ s'. Q s') s (report_waiting n v)
  unfolding report_waiting bind
  report_waiting-Leads Q n v s h = elim (Bool-cases (n % 200000 == 0)) [
    | inl e ↦ rw e h
    | inr e ↦ rw e h
  ]

  wait_loop-Leads :
      (spins n : ℕ) (s : S)
      → I s
      → left s < spins
      → Leads bus E Found s (wait_loop reg mask label spins n)
  unfolding wait_loop bind
  wait_loop-Leads zero n s h small = absurd (omega arith)
  wait_loop-Leads (suc spins) n s h small =
      let (v, s', e, seen) = polls s h in
      (
        v,
        s',
        e,
        elim seen [
          | inl (bit, found) ↦ rw bit (unfold report_set in (refl, found))
          | inr (bit, later, less) ↦ rw bit (
              Leads-bind bus E (λ _ t. I t × (left t < spins)) Found
                (report_waiting (u32 (n + 1)) v) (λ _. wait_loop reg mask label spins (u32 (n + 1)))
                s'
                (report_waiting-Leads (λ t. I t × (left t < spins)) (u32 (n + 1)) v s'
                  (later, omega (arith, less, small)))
                (λ _ t h'. wait_loop-Leads spins (u32 (n + 1)) t h'.0 h'.1))
        ],
      )

  -- With more rounds than there is left to wait for, the bit is found.
  pub log_wait_bit-Leads :
      (spins : ℕ) (s : S)
      → I s
      → left s < spins
      → Leads bus E Found s (log_wait_bit reg mask spins label)
  unfolding log_wait_bit bind
  log_wait_bit-Leads spins s h small = wait_loop-Leads spins 0 s h small

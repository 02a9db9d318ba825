-- ===== src/Bridges/RemoteMmio/Reach.antt =====
-- What holds of the device whatever the guest does and the host answers.
use systemc_model.Base.{if◌then◌else◌, Bool-cases, ℕ, ◌≡◌, refl, sym, ap, ◌∙◌, inl, inr, Bool}
use systemc_model.Base.{true, false, Option, none, some, List, [], arith}
use systemc_model.Base.Bits.{u32}
use systemc_model.Protocol.{CosimResponse, response_of, message_size, op_read, op_write, op_quit}
use systemc_model.Bridges.RemoteMmio.{
  RemoteMmioState, Peer, Outcome, remote_mmio_instance_init, remote_mmio_connect, recv_response,
  after_recv, after_send, update_irqs, accept_response, unsupported, read_value, write_value,
  closed, remote_mmio_transact, remote_mmio_read, remote_mmio_write, remote_mmio_unrealize,
}
use systemc_model.Bridges.RemoteMmio.Lines.{IsShown, update_irqs-IsShown, init-IsShown}
use mathlib.Core.Option

-- The device as far as its lines go is as before, or a word was applied to it.
abbrev pub SameLines : RemoteMmioState → RemoteMmioState → Type 0
SameLines s u = (u.irqs ≡ s.irqs) × (u.irq_last ≡ s.irq_last)

record IsOutcome (s : RemoteMmioState) (o : Outcome) : Type 0 where
  shown : IsShown s → IsShown o.1
  kept : o.0 ≡ none → SameLines s o.1

carry : (s u : RemoteMmioState) → SameLines s u → IsShown s → IsShown u
carry s u e h = record {
  count = ground (arith, h.count);
  shown = λ k lt. ground (arith, h.shown k lt);
}

same : (s u : RemoteMmioState) → SameLines s u → (wire : List ℕ) → IsOutcome s (none, u, wire)
same s u e wire = record { shown = carry s u e; kept = λ _. e }

applied :
    (s u : RemoteMmioState) (v : ℕ) (wire : List ℕ)
    → (IsShown s → IsShown u)
    → IsOutcome s (some v, u, wire)
applied s u v wire h = record { shown = h; kept = λ (e : some v ≡ none). absurd (ground arith) }

if-IsOutcome :
    (b : Bool) (s : RemoteMmioState) (x y : Outcome)
    → IsOutcome s x
    → IsOutcome s y
    → IsOutcome s (if b then x else y)
if-IsOutcome true s x y h k = h
if-IsOutcome false s x y h k = k

accept_response-IsOutcome :
    (resp : CosimResponse) (s : RemoteMmioState) (wire : List ℕ)
    → IsOutcome s (accept_response resp s wire)
unfolding accept_response
accept_response-IsOutcome resp s wire =
    if-IsOutcome _ s _ _ (same s s (refl, refl) wire) (
      applied s (update_irqs resp.irq_bits s) resp.data' wire (update_irqs-IsShown resp.irq_bits s))

after_recv-IsOutcome :
    (s : RemoteMmioState) (wire : List ℕ) (r : Bool × List ℕ) → IsOutcome s (after_recv s wire r)
unfolding after_recv
after_recv-IsOutcome s wire (false, buf) = same s _ (refl, refl) wire
after_recv-IsOutcome s wire (true, buf) = accept_response-IsOutcome (response_of buf) s wire

received :
    (s : RemoteMmioState) (wire : List ℕ) (r : Option (Bool × List ℕ)) (o : Outcome)
    → Option.map (after_recv s wire) r ≡ some o
    → IsOutcome s o
received s wire none o h = absurd (ground arith)
received s wire (some r) o h =
    let e : after_recv s wire r ≡ o = ground arith in rw (sym e) (after_recv-IsOutcome s wire r)

after_send-IsOutcome :
    (peer : Peer) (s : RemoteMmioState) (r : Option (Bool × List ℕ)) (o : Outcome)
    → after_send peer s r ≡ some o
    → IsOutcome s o
unfolding after_send
after_send-IsOutcome peer s none o h = absurd (ground arith)
after_send-IsOutcome peer s (some (false, wire)) o h =
    let e : (none, record s { connected = false }, wire) ≡ o = ground arith in
    rw (sym e) (same s _ (refl, refl) wire)
after_send-IsOutcome peer s (some (true, wire)) o h =
    received s wire (recv_response peer.recvs message_size []) o h

connect-SameLines : (peer : Peer) (s : RemoteMmioState) → SameLines s (remote_mmio_connect peer s).1
unfolding remote_mmio_connect
connect-SameLines peer s = ground arith

after-IsOutcome :
    (s u : RemoteMmioState) (o : Outcome) → SameLines s u → IsOutcome u o → IsOutcome s o
after-IsOutcome s u o e h = record {
  shown = λ k. h.shown (carry s u e k);
  kept = λ n. let (x, y) = h.kept n in (x ∙ e.0, y ∙ e.1);
}

-- A transaction that fails leaves the lines and the word last applied as they were.
transact-IsOutcome :
    (peer : Peer) (op addr wdata : ℕ) (s : RemoteMmioState) (o : Outcome)
    → remote_mmio_transact peer op addr wdata s ≡ some o
    → IsOutcome s o
unfolding remote_mmio_transact
transact-IsOutcome peer op addr wdata s o h =
    let (good, u) = remote_mmio_connect peer s in
    let e : SameLines s u = connect-SameLines peer s in
    elim (Bool-cases good) [
      | inl hit ↦ after-IsOutcome s u o e (after_send-IsOutcome peer u _ o (rw hit at h))
      | inr miss ↦ let k : (none, u, []) ≡ o = ground arith in rw (sym k) (same s u e [])
    ]

-- What happens to the device: accesses of the guest, and its removal.
pub data Step (s : RemoteMmioState) : RemoteMmioState → Type 0 where
  guest_read :
      {u : RemoteMmioState} (peer : Peer) (offset size v : ℕ) (wire : List ℕ)
      → remote_mmio_read peer offset size s ≡ some (v, u, wire)
      → Step s u
  guest_write :
      {u : RemoteMmioState} (peer : Peer) (offset value size : ℕ) (wire : List ℕ)
      → remote_mmio_write peer offset value size s ≡ some (u, wire)
      → Step s u
  removed :
      {u : RemoteMmioState} (peer : Peer) (wire : List ℕ)
      → remote_mmio_unrealize peer s ≡ some (u, wire)
      → Step s u

pub data Reach (path : List ℕ) : RemoteMmioState → Type 0 where
  start : Reach path (remote_mmio_instance_init path)
  later : {s u : RemoteMmioState} → Reach path s → Step s u → Reach path u

-- A mapped result comes from a result.
mapped :
    {A B : Type 0} (f : A → B) (o : Option A) (b : B)
    → Option.map f o ≡ some b
    → (a : A) × (o ≡ some a) × (f a ≡ b)
mapped f none b h = absurd (ground arith)
mapped f (some a) b h = (a, refl, ground arith)

read_value-IsShown : (o : Outcome) → IsShown o.1 → IsShown (read_value o).1
read_value-IsShown (some v, s, wire) h = h
read_value-IsShown (none, s, wire) h = h

Step-IsShown : {s u : RemoteMmioState} → Step s u → IsShown s → IsShown u
unfolding remote_mmio_read remote_mmio_write remote_mmio_unrealize
Step-IsShown {s} {u} (guest_read peer offset size v wire h) k =
    elim (Bool-cases (unsupported offset size)) [
      | inl hit ↦ let e : s ≡ u = ground arith in rw (sym e) k
      | inr miss ↦
          let (o, e, f) =
            mapped read_value (remote_mmio_transact peer op_read (u32 offset) 0 s) (v, u, wire)
              (rw miss at h) in
          rw (sym (ap (λ r. r.1) f))
            (read_value-IsShown o ((transact-IsOutcome peer op_read (u32 offset) 0 s o e).shown k))
    ]
Step-IsShown {s} {u} (guest_write peer offset value size wire h) k =
    elim (Bool-cases (unsupported offset size)) [
      | inl hit ↦ let e : s ≡ u = ground arith in rw (sym e) k
      | inr miss ↦
          let (o, e, f) =
            mapped write_value (remote_mmio_transact peer op_write (u32 offset) (u32 value) s)
              (u, wire) (rw miss at h) in
          rw (sym (ap (λ r. r.0) f))
            ((transact-IsOutcome peer op_write (u32 offset) (u32 value) s o e).shown k)
    ]
Step-IsShown {s} {u} (removed peer wire h) k = elim (Bool-cases s.connected) [
  | inl hit ↦
      let run : Option.map closed (remote_mmio_transact peer op_quit 0 0 s) ≡ some (u, wire) =
        ground arith in
      let (o, e, f) = mapped closed (remote_mmio_transact peer op_quit 0 0 s) (u, wire) run in
      rw (sym (ap (λ r. r.0) f))
        (carry o.1 _ (refl, refl) ((transact-IsOutcome peer op_quit 0 0 s o e).shown k))
  | inr miss ↦ let e : s ≡ u = ground arith in rw (sym e) k
]

-- At every moment of the device's life its eight interrupt lines show the low eight bits of the
-- word that it applied last, whatever the guest does, the host answers, or the socket does.
pub lines_always-IsShown : {path : List ℕ} {s : RemoteMmioState} → Reach path s → IsShown s
lines_always-IsShown {path} start = init-IsShown path
lines_always-IsShown (later r st) = Step-IsShown st (lines_always-IsShown r)

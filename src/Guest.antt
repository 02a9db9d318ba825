-- ===== src/Guest.antt =====
-- The whole way of a guest's access: bridges/remote_mmio.c, transactor/cosim_server.cpp and
-- Soc/cortexm_pl.h.
use systemc_model.Base.{◌==◌, if◌then◌else◌, ℕ, ◌+◌, ◌%◌, ◌^◌, ◌<◌, ◌≡◌, ap, ◌∙◌, Bool, true}
use systemc_model.Base.{some, arith}
use systemc_model.Tlm.{Transport}
use systemc_model.Protocol.{CosimRequest, CosimResponse, request_bytes, cosim_ok}
use systemc_model.Transactor.Server.{handle}
use systemc_model.Transactor.Server.Laws.{handle_lem}
use systemc_model.Soc.{Soc, b_transport}
use systemc_model.Soc.Safety.{IsSound}
use systemc_model.Soc.HostMemory.{read_request, write_request, host_write_then_read}
use systemc_model.Bridges.RemoteMmio.{
  RemoteMmioState, Peer, update_irqs, remote_mmio_read, remote_mmio_write,
}
use systemc_model.Bridges.RemoteMmio.Access.{Delivers, good, read_completes, write_completes}

update_irqs-connected :
    (bits : ℕ) (d : RemoteMmioState) → (update_irqs bits d).connected ≡ d.connected
unfolding update_irqs
update_irqs-connected bits d = ground arith

module _ {T : Type 0} (bridge : Transport T) (wait : ℕ → Soc T → Soc T)
    (wait_sram : (n : ℕ) (s : Soc T) → (wait n s).sram ≡ s.sram) (irq_bits : Soc T → ℕ) where
  abbrev serve : Soc T → CosimRequest → Soc T × Bool × CosimResponse
  serve s req = handle (b_transport bridge) wait irq_bits req s

  served :
      (s : Soc T) (req : CosimRequest)
      → (serve s req).2.status ≡ cosim_ok
      → good (serve s req).2 ≡ true
  served s req h = ground (arith, handle_lem (b_transport bridge) wait irq_bits req s)

  -- A guest whose device is connected stores a word at an aligned address of the memory window and
  -- then loads from one. The sockets take the two requests and deliver the server's two responses,
  -- without a failure and in whatever pieces; the memory is sound and waiting leaves it alone. Then
  -- the two requests are on the wire, and the load gives the word stored, where it is that address,
  -- and the word that the server had there before, where it is another one.
  pub guest_store_then_load :
      (store load : Peer) (a b v : ℕ) (d : RemoteMmioState) (s : Soc T)
      → d.connected ≡ true
      → IsSound s.sram
      → a < 0x1000
      → a % 4 ≡ 0
      → b < 0x1000
      → b % 4 ≡ 0
      → v < 2 ^ 32
      → Delivers store (serve s (write_request (0x8000 + a) v)).2
      → Delivers load
          (serve (serve s (write_request (0x8000 + a) v)).0 (read_request (0x8000 + b))).2
      → (d1 : RemoteMmioState) × (d2 : RemoteMmioState) × (remote_mmio_write store
            (0x8000 + a)
            v
            4
            d
          ≡ some (d1, request_bytes (write_request (0x8000 + a) v)))
        × (remote_mmio_read load (0x8000 + b) 4 d1
            ≡ some (
              if a == b then v else (serve s (read_request (0x8000 + b))).2.data',
              d2,
              request_bytes (read_request (0x8000 + b)),
            ))
  guest_store_then_load store load a b v d s live sound ha aa hb ab small out back =
      let stored = (serve s (write_request (0x8000 + a) v)).2 in
      let s1 = (serve s (write_request (0x8000 + a) v)).0 in
      let loaded = (serve s1 (read_request (0x8000 + b))).2 in
      let (took, gave, word) =
        host_write_then_read bridge wait wait_sram irq_bits a b v s sound ha aa hb ab small in
      let d1 = update_irqs stored.irq_bits d in
      let d2 = update_irqs loaded.irq_bits d1 in
      let live1 : d1.connected ≡ true = update_irqs-connected stored.irq_bits d ∙ live in
      let fine = served s (write_request (0x8000 + a) v) took in
      let fine2 = served s1 (read_request (0x8000 + b)) gave in
      (
        d1,
        d2,
        write_completes store (0x8000 + a) v d stored live (omega arith) (omega arith) small out
            ∙ ap (λ x. some (if x then d1 else d, request_bytes (write_request (0x8000 + a) v)))
                fine,
        read_completes load (0x8000 + b) d1 loaded live1 (omega arith) (omega arith) back
            ∙ ap
                (λ x. some (
                  if x
                  then (loaded.data', d2, request_bytes (read_request (0x8000 + b)))
                  else (0, d1, request_bytes (read_request (0x8000 + b)))))
                fine2
            ∙ ap (λ x. some (x, d2, request_bytes (read_request (0x8000 + b)))) word,
      )

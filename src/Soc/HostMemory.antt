-- ===== src/Soc/HostMemory.antt =====
-- The memory as the host sees it: the requests of transactor/cosim_server.cpp on the window of
-- peripherals/ahb/sram_ahb.h.
use systemc_model.Base.{◌==◌, if◌then◌else◌, ℕ, ◌+◌, ◌%◌, ◌^◌, ◌<◌, ◌≡◌, refl, sym, ap, ◌∙◌}
use systemc_model.Base.{inl, inr, Bool, some, arith}
use systemc_model.Tlm.{Txn, Transport, word_of, ok}
use systemc_model.Tlm.Laws.{word_of-word_bytes, IsReadOf, IsWriteOf}
use systemc_model.Protocol.{CosimRequest, CosimResponse}
use systemc_model.Protocol.{cosim_magic, cosim_version, cosim_ok, op_read, op_write}
use systemc_model.Transactor.Initiator.{read_payload, write_payload}
use systemc_model.Transactor.Server.{waited, handle}
use systemc_model.Transactor.Server.Laws.{handle_access}
use systemc_model.Peripherals.Sram
use systemc_model.Peripherals.Sram.{Sram}
use systemc_model.Peripherals.Sram.Words.{word_at, load_lem, store_lem}
use systemc_model.Soc.{Soc, on_sram, b_transport}
use systemc_model.Soc.Map.{sram, place_of, over_ahb, deliver}
use systemc_model.Soc.Map.Routing.{route-some, transport-eq-route}
use systemc_model.Soc.Safety.{IsSound, sram_never_overrun}

abbrev pub read_request : ℕ → CosimRequest
read_request a = record {
  magic = cosim_magic;
  version = cosim_version;
  op = op_read;
  addr = a;
  data' = 0;
}

abbrev pub write_request : ℕ → ℕ → CosimRequest
write_request a v = record {
  magic = cosim_magic;
  version = cosim_version;
  op = op_write;
  addr = a;
  data' = v;
}

in_window : (a : ℕ) → a < 0x1000 → place_of (0x8000 + a) ≡ some (sram, a)
unfolding place_of
in_window a h = ground arith

module _ {T : Type 0} (bridge : Transport T) where
  -- A transaction for the window reaches the memory.
  reaches :
      (s : Soc T) (t : Txn) (a : ℕ)
      → a < 0x1000
      → t.address ≡ 0x8000 + a
      → let (m, u) = Sram.b_transport s.sram (over_ahb a t) in
        b_transport bridge s t ≡ (record s { sram = m }, record u { address = t.address })
  unfolding deliver on_sram
  reaches s t a h e =
      transport-eq-route bridge s t ∙ route-some bridge s t sram a (ap place_of e ∙ in_window a h)

  loaded :
      (s : Soc T) (a : ℕ)
      → IsSound s.sram
      → a < 0x1000
      → a % 4 ≡ 0
      → let (s', u) = b_transport bridge s (read_payload (0x8000 + a)) in
        (u.response ≡ ok) × (word_of u.bytes ≡ word_at s.sram.mem a)
  unfolding read_payload
  loaded s a sound h aligned =
      let t = read_payload (0x8000 + a) in
      let r : IsReadOf a (over_ahb a t) = record {
        reads = refl;
        access = record { word = refl; wide = omega arith; aligned = aligned };
        here = omega arith;
        room = refl;
      } in
      let (back, kept) =
        load_lem s.sram a (over_ahb a t) r aligned (omega (arith, sound.0)) (omega arith) in
      rw (reaches s t a h refl) (back.good, back.word)

  stored :
      (s : Soc T) (a v : ℕ)
      → IsSound s.sram
      → a < 0x1000
      → a % 4 ≡ 0
      → v < 2 ^ 32
      → let (s', u) = b_transport bridge s (write_payload (0x8000 + a) v) in
        (u.response ≡ ok)
        × ((b : ℕ)
            → b % 4 ≡ 0
            → word_at s'.sram.mem b ≡ (if a == b then v else word_at s.sram.mem b))
  unfolding write_payload
  stored s a v sound h aligned small =
      let t = write_payload (0x8000 + a) v in
      let w : IsWriteOf a v (over_ahb a t) = record {
        writes = refl;
        access = record { word = refl; wide = omega arith; aligned = aligned };
        here = omega arith;
        carries = word_of-word_bytes v small;
        small = small;
      } in
      rw (reaches s t a h refl)
        (store_lem s.sram a v (over_ahb a t) w aligned (omega (arith, sound.0)) (omega arith))

module _ {T : Type 0} (bridge : Transport T) (wait : ℕ → Soc T → Soc T)
    (wait_sram : (d : ℕ) (s : Soc T) → (wait d s).sram ≡ s.sram) (irq_bits : Soc T → ℕ) where
  abbrev serve : CosimRequest → Soc T → Soc T × Bool × CosimResponse
  serve = handle (b_transport bridge) wait irq_bits

  waited_sram :
      (s : Soc T) (t : Txn) → (waited (b_transport bridge) wait irq_bits (s, t)).sram ≡ s.sram
  waited_sram s t = ground (arith, wait_sram t.delay s)

  -- A read of the window gives the word that stands there.
  host_load :
      (a : ℕ) (s : Soc T)
      → IsSound s.sram
      → a < 0x1000
      → a % 4 ≡ 0
      → let (s', quit, resp) = serve (read_request (0x8000 + a)) s in
        (resp.status ≡ cosim_ok) × (resp.data' ≡ word_at s.sram.mem a)
  host_load a s sound h aligned =
      let (took_time, answer) =
        handle_access (b_transport bridge) wait irq_bits (read_request (0x8000 + a)) s
          (record { magic = refl; version = refl }) (inl refl) in
      ground (arith, answer, loaded bridge s a sound h aligned)

  host_store :
      (a v : ℕ) (s : Soc T)
      → IsSound s.sram
      → a < 0x1000
      → a % 4 ≡ 0
      → v < 2 ^ 32
      → let (s', quit, resp) = serve (write_request (0x8000 + a) v) s in
        (resp.status ≡ cosim_ok)
        × IsSound s'.sram
        × ((b : ℕ)
            → b % 4 ≡ 0
            → word_at s'.sram.mem b ≡ (if a == b then v else word_at s.sram.mem b))
  host_store a v s sound h aligned small =
      let (took_time, answer) =
        handle_access (b_transport bridge) wait irq_bits (write_request (0x8000 + a) v) s
          (record { magic = refl; version = refl }) (inr refl) in
      let (good, words) = stored bridge s a v sound h aligned small in
      let t = write_payload (0x8000 + a) v in
      let same =
        ap (λ (x : Soc T). x.sram) took_time
        ∙ waited_sram (b_transport bridge s t).0 (b_transport bridge s t).1 in
      (
        ground (arith, answer, good),
        rw same (sram_never_overrun bridge s t sound),
        λ b even. rw same (words b even),
      )

  -- If the memory is sound and waiting leaves it alone, a write request for an aligned address of
  -- the memory window is served, and afterwards a read request for an aligned address of the window
  -- is served with the word written, where it is that address, and with the word that a read gave
  -- before it, where it is another one.
  pub host_write_then_read :
      (a b v : ℕ) (s : Soc T)
      → IsSound s.sram
      → a < 0x1000
      → a % 4 ≡ 0
      → b < 0x1000
      → b % 4 ≡ 0
      → v < 2 ^ 32
      → let (s', quit, resp) = serve (write_request (0x8000 + a) v) s in
        let before = serve (read_request (0x8000 + b)) s in
        let after = serve (read_request (0x8000 + b)) s' in
        (resp.status ≡ cosim_ok)
        × (after.2.status ≡ cosim_ok)
        × (after.2.data' ≡ (if a == b then v else before.2.data'))
  host_write_then_read a b v s sound ha aa hb ab small =
      let (done, sound', words) = host_store a v s sound ha aa small in
      let s' = (serve (write_request (0x8000 + a) v) s).0 in
      let (fine, after) = host_load b s' sound' hb ab in
      let (_, before) = host_load b s sound hb ab in
      (done, fine, after ∙ words b ab ∙ ap (λ x. if a == b then v else x) (sym before))

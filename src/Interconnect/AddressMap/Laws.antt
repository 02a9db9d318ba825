-- ===== src/Interconnect/AddressMap/Laws.antt =====
-- The one-region decoder as a TLM target, and against the general one.
use systemc_model.Base.{if◌then◌else◌, Bool-cases, ℕ, ◌+◌, ◌-◌, ◌^◌, ◌≤◌, ◌<◌, ◌≡◌, sym, ◌∙◌}
use systemc_model.Base.{◌↔◌, inl, inr, true, false, none, some, [], ◌∷◌, arith}
use systemc_model.Tlm.{Txn, Transport, IsTarget, address_error}
use systemc_model.Interconnect.AddressMap.{AddressMap, map_region, misses, b_transport}
use systemc_model.Interconnect.Decoder
use systemc_model.Interconnect.Decoder.Laws.{restored, down, transport_miss, transport_hit}
use systemc_model.Interconnect.Decoder.{
  Decoder, tlm_decoder, map_slave, unused, decode, find, covers, port,
}

-- Where the region does not wrap round the address space, the guard lets through exactly the
-- addresses of a region that is not empty.
pub misses_iff :
    (m : AddressMap) (addr : ℕ)
    → m.region_base + m.region_size < 2 ^ 64
    → (misses m addr ≡ false) ↔ ((m.region_base ≤ addr) × (addr < m.region_base + m.region_size))
unfolding misses
misses_iff m addr h = ground arith

abbrev single : ℕ → ℕ → Decoder
single base size = record {
  regions = record { base = base; size = size; used = true } ∷ unused ∷ unused ∷ unused ∷ [];
  cycle = 0;
}

map_slave-single :
    (base size : ℕ) (d : Decoder)
    → map_slave 0 base size tlm_decoder ≡ some d
    → (0 < size) × (d ≡ single base size)
unfolding map_slave
map_slave-single base size d e = (ground arith, ground arith)

decode-single :
    (base size addr : ℕ)
    → 0 < size
    → decode (single base size) addr
      ≡ (if misses (record { region_base = base; region_size = size }) addr then none else some 0)
unfolding decode find covers misses
decode-single base size addr h = ground arith

module _ {S : Type 0} (device : Transport S) where
  abbrev within : (m : AddressMap) (t : Txn) → Txn
  within m t = record t { address = t.address - m.region_base }

  b_transport_hit :
      (m : AddressMap) (s : S) (t : Txn)
      → misses m t.address ≡ false
      → b_transport device m s t
        ≡ ((device s (within m t)).0, record (device s (within m t)).1 { address = t.address })
  unfolding b_transport
  b_transport_hit m s t h = rw (h, b_transport)

  b_transport_miss :
      (m : AddressMap) (s : S) (t : Txn)
      → misses m t.address ≡ true
      → b_transport device m s t ≡ (s, record t { response = address_error })
  unfolding b_transport
  b_transport_miss m s t h = rw (h, b_transport)

  -- The map in front of a device that keeps the contract of a target keeps it too.
  pub map-IsTarget : (m : AddressMap) → IsTarget device → IsTarget (b_transport device m)
  map-IsTarget m h = record {
    answers = λ s t. elim (Bool-cases (misses m t.address)) [
      | inl miss ↦ rw (b_transport_miss m s t miss) (ground arith)
      | inr hit ↦ rw (b_transport_hit m s t hit) (h.answers s (within m t))
    ];
    keeps = λ s t. elim (Bool-cases (misses m t.address)) [
      | inl miss ↦ rw (b_transport_miss m s t miss) (ground arith)
      | inr hit ↦ rw (b_transport_hit m s t hit) (
          restored t (within m t) (device s (within m t)).1 (ground arith) (h.keeps s (within m t)))
    ];
    delays = λ s t. elim (Bool-cases (misses m t.address)) [
      | inl miss ↦ rw (b_transport_miss m s t miss) (omega arith)
      | inr hit ↦ rw (b_transport_hit m s t hit) (omega (arith, h.delays s (within m t)))
    ];
  }

  same_step :
      (other1 other2 other3 : Transport S) (base size : ℕ) (s : S) (t : Txn)
      → let v = device s (record t { address = t.address - base }) in
        let w = port device other1 other2 other3 0 s (down (single base size) t 0) in
        ◌≡◌ {A = S × Txn}
          (v.0, record v.1 { address = t.address })
          (w.0, record w.1 { address = t.address })
  unfolding port
  same_step other1 other2 other3 base size s t = let e : t.delay + 0 ≡ t.delay = omega arith in rw e

  -- A map of one region behaves on every transaction as a decoder with that region as its slave 0
  -- and no other, whose accesses cost no time.
  pub map-eq-decoder :
      (other1 other2 other3 : Transport S) (base size : ℕ) (m : AddressMap) (d : Decoder) (s : S)
      (t : Txn)
      → map_slave 0 base size tlm_decoder ≡ some d
      → b_transport device (map_region base size m) s t
        ≡ Decoder.b_transport device other1 other2 other3 d s t
  unfolding map_region
  map-eq-decoder other1 other2 other3 base size m d s t e =
      let mapped = map_slave-single base size d e in
      let region : AddressMap = record { region_base = base; region_size = size } in
      let one : Decoder = single base size in
      rw (mapped.1) (elim (Bool-cases (misses region t.address)) [
        | inl miss ↦
            b_transport_miss region s t miss
            ∙ sym (
                transport_miss device other1 other2 other3 one s t
                  (rw (decode-single base size t.address mapped.0, miss)))
        | inr hit ↦
            b_transport_hit region s t hit
            ∙ same_step other1 other2 other3 base size s t
            ∙ sym (
                transport_hit device other1 other2 other3 one s t 0
                  (rw (decode-single base size t.address mapped.0, hit)))
      ])

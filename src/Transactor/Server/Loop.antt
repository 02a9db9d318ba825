-- ===== src/Transactor/Server/Loop.antt =====
-- An iteration of the server's loop, from the bytes on the socket to the bytes on the socket.
use systemc_model.Base.{length, ℕ, ◌≤◌, ◌≡◌, refl, Bool, true, false, not, ◌&&◌, ◌||◌, some}
use systemc_model.Tlm.{Transport, word_bytes}
use systemc_model.Protocol.{
  CosimRequest, CosimResponse, request_bytes, words_bytes, response_bytes, message_size,
}
use systemc_model.Protocol.Laws.{AreWords, request_of-request_bytes}
use systemc_model.Transactor.Socket.{finished, recv_all, send_all}
use systemc_model.Transactor.Socket.Laws.{
  sends_steadily, receives_steadily, capacity, delivered, send_all-completes, recv_all-completes,
}
use systemc_model.Transactor.Server.{Server, Host, handle, iteration}

module _ {S : Type 0} (initiator : Transport S) (wait : ℕ → S → S) (irq_bits : S → ℕ) where
  length-response_bytes : (r : CosimResponse) → length (response_bytes r) ≡ 20
  unfolding response_bytes words_bytes word_bytes
  length-response_bytes r = refl

  pub met : (a b : Bool) → (a || b) ≡ true → (not a && not b) ≡ false
  met true b h = refl
  met false true h = refl
  met false false h = cc

  -- A request of 32-bit fields, of a client that is connected or accepted now, which arrives whole and
  -- without a failure, in whatever pieces, is served, and where the socket has room for it the response
  -- leaves whole: with `s'` the simulation when the last piece is there, the bytes on the wire are those
  -- of the response to the request in `s'`, and the connection stays open.
  pub iteration_serves :
      (host : Host) (st : Server S) (req : CosimRequest)
      → host.readable ≡ true
      → (st.client || host.accepts) ≡ true
      → receives_steadily host.recvs ≡ true
      → delivered host.recvs ≡ request_bytes req
      → AreWords req.magic req.version req.op req.addr req.data'
      → sends_steadily host.sends ≡ true
      → 20 ≤ capacity host.sends
      → (s' : S) × (s2 : S) × (recv_all wait host.recvs message_size st.sim
          ≡ finished true (request_bytes req) s')
        × (let (s1, quit, resp) = handle initiator wait irq_bits req s' in
            (send_all wait host.sends (response_bytes resp) s1
              ≡ finished true (response_bytes resp) s2)
            × (iteration initiator wait irq_bits host st
                ≡ some (
                  record { sim = s2; client = true; quit = st.quit || quit },
                  response_bytes resp,
                )))
  unfolding iteration
  iteration_serves host st req ready open_ steady whole words clear room =
      let parsed = request_of-request_bytes req words in
      let (s', came) =
        recv_all-completes wait host.recvs message_size st.sim steady (rw whole parsed.1) in
      let came' : recv_all wait host.recvs message_size st.sim
          ≡ finished true (request_bytes req) s' =
        rw whole at came in
      let resp = (handle initiator wait irq_bits req s').2 in
      let s1 = (handle initiator wait irq_bits req s').0 in
      let (s2, left) =
        send_all-completes wait host.sends (response_bytes resp) s1 clear
          (rw (length-response_bytes resp) room) in
      (
        s',
        s2,
        came',
        (left, rw (met st.client host.accepts open_, ready, came', parsed.0, left, iteration) refl),
      )

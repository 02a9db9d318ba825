-- ===== src/Transactor/Server/Thread/Session.antt =====
-- Sessions of a client with the server's loop.
use systemc_model.Base.{Bool-cases, length, take, drop, ℕ, zero, suc, ◌+◌, ◌-◌, ◌≡◌, refl, ap}
use systemc_model.Base.{◌∙◌, inl, inr, Bool, true, false, ◌||◌, some, List, [], ◌∷◌, ◌++◌}
use systemc_model.Base.{arith}
use systemc_model.Tlm.{Transport}
use systemc_model.Protocol.{CosimRequest, CosimResponse, response_bytes, message_size}
use systemc_model.Transactor.Socket.{
  SendCall, RecvCall, took, got, broken, finished, send_loop, recv_loop, send_all, recv_all,
  poll_slice,
}
use systemc_model.Transactor.Server.{Server, Host, handle, iteration}
use systemc_model.Transactor.Server.Loop.{met, iteration_serves}
use systemc_model.Transactor.Server.Thread.{
  server_thread, slices, Later, Serves, idle, next, stop, Asks, Visits, no_more, alone, quiet,
  leaves, asks, breaks, wire_of,
}

module _ {S : Type 0} (initiator : Transport S) (wait : ℕ → S → S) (irq_bits : S → ℕ) where
  abbrev After : S → S → Type 0
  After = Later initiator wait irq_bits

  slices-add :
      (n m : ℕ) (s : S)
      → slices initiator wait irq_bits m (slices initiator wait irq_bits n s)
        ≡ slices initiator wait irq_bits (n + m) s
  slices-add zero m s =
      let same : m ≡ 0 + m = omega arith in ap (λ k. slices initiator wait irq_bits k s) same
  slices-add (suc n) m s =
      let more : suc (n + m) ≡ suc n + m = omega arith in
      slices-add n m (wait poll_slice s) ∙ ap (λ k. slices initiator wait irq_bits k s) more

  After-trans : (s t u : S) → After s t → After t u → After s u
  After-trans s t u (n, e) (m, e') =
      (n + m, e' ∙ ap (slices initiator wait irq_bits m) e ∙ slices-add n m s)

  slice_later : (s t : S) → After (wait poll_slice s) t → After s t
  slice_later s t (n, e) = (suc n, e)

  recv_loop-Later :
      (calls : List RecvCall) (left : ℕ) (buf w : List ℕ) (good : Bool) (s s' : S)
      → recv_loop wait calls left buf s ≡ finished good w s'
      → After s s'
  unfolding recv_loop
  recv_loop-Later calls zero buf w good s s' h = (0, ground arith)
  recv_loop-Later [] (suc left) buf w good s s' h = ground arith
  recv_loop-Later (RecvCall.again ∷ calls) (suc left) buf w good s s' h =
      slice_later s s' (recv_loop-Later calls (suc left) buf w good (wait poll_slice s) s' h)
  recv_loop-Later (broken ∷ calls) (suc left) buf w good s s' h = (0, ground arith)
  recv_loop-Later (got [] ∷ calls) (suc left) buf w good s s' h = (0, ground arith)
  recv_loop-Later (got (b ∷ bs) ∷ calls) (suc left) buf w good s s' h =
      recv_loop-Later calls (suc left - length (b ∷ bs)) (buf ++ (b ∷ bs)) w good s s' h

  send_loop-Later :
      (calls : List SendCall) (left wire w : List ℕ) (good : Bool) (s s' : S)
      → send_loop wait calls left wire s ≡ finished good w s'
      → After s s'
  unfolding send_loop
  send_loop-Later calls [] wire w good s s' h = (0, ground arith)
  send_loop-Later [] (x ∷ left) wire w good s s' h = ground arith
  send_loop-Later (SendCall.again ∷ calls) (x ∷ left) wire w good s s' h =
      slice_later s s' (send_loop-Later calls (x ∷ left) wire w good (wait poll_slice s) s' h)
  send_loop-Later (broken ∷ calls) (x ∷ left) wire w good s s' h = (0, ground arith)
  send_loop-Later (took zero ∷ calls) (x ∷ left) wire w good s s' h = (0, ground arith)
  send_loop-Later (took (suc n) ∷ calls) (x ∷ left) wire w good s s' h =
      send_loop-Later calls (drop (suc n) (x ∷ left)) (wire ++ take (suc n) (x ∷ left)) w good s s'
        h

  -- The simulation may stand still a while before a session.
  Serves-before :
      {reqs : List CosimRequest} {resps : List CosimResponse} {quit : Bool} (s t s' : S)
      → After s t
      → Serves initiator wait irq_bits t reqs resps quit s'
      → Serves initiator wait irq_bits s reqs resps quit s'
  Serves-before s t s' h (idle k) = idle (After-trans s t s' h k)
  Serves-before s t s' h (next {t = u} k e l rest) = next (After-trans s t u h k) e l rest
  Serves-before s t s' h (stop {t = u} k e l) = stop (After-trans s t u h k) e l

  abbrev server : S → Bool → Bool → Server S
  server s client quit = record { sim = s; client = client; quit = quit }

  -- What the loop does from the state `s` on is what the abstract server does.
  abbrev Session : List Host → Bool → S → List CosimRequest → Type 0
  Session hosts client s reqs =
      (s' : S) × (client' : Bool) × (quit : Bool) × (resps : List CosimResponse) × (server_thread
          initiator wait irq_bits hosts (server s client false)
        ≡ some (server s' client' quit, wire_of resps))
      × Serves initiator wait irq_bits s reqs resps quit s'

  quit_ends :
      (hosts : List Host) (s : S) (client : Bool)
      → server_thread initiator wait irq_bits hosts (server s client true)
        ≡ some (server s client true, [])
  unfolding server_thread
  quit_ends [] s client = refl
  quit_ends (host ∷ hosts) s client = refl

  -- An iteration that sends nothing, in front of a session.
  silent :
      (host : Host) (hosts : List Host) (reqs : List CosimRequest) (client client' : Bool) (s t : S)
      → iteration initiator wait irq_bits host (server s client false)
        ≡ some (server t client' false, [])
      → After s t
      → Session hosts client' t reqs
      → Session (host ∷ hosts) client s reqs
  unfolding server_thread
  silent host hosts reqs client client' s t it h (s', c, quit, resps, e, served) =
      (s', c, quit, resps, rw (it, e) refl, Serves-before s t s' h served)

  alone_iteration :
      (host : Host) (s : S)
      → host.accepts ≡ false
      → (t : S) × (iteration initiator wait irq_bits host (server s false false)
          ≡ some (server t false false, []))
        × After s t
  unfolding iteration
  alone_iteration host s h = elim (Bool-cases host.readable) [
    | inl e ↦ (s, rw (h, e) refl, (0, refl))
    | inr e ↦ (wait poll_slice s, rw (h, e) refl, (1, refl))
  ]

  quiet_iteration :
      (host : Host) (client : Bool) (s : S)
      → (client || host.accepts) ≡ true
      → host.readable ≡ false
      → iteration initiator wait irq_bits host (server s client false)
        ≡ some (server (wait poll_slice s) true false, [])
  unfolding iteration
  quiet_iteration host client s there h =
      rw (met initiator wait irq_bits client host.accepts there, h) refl

  recv_loop-breaks :
      (calls : List RecvCall) (left : ℕ) (buf : List ℕ) (s : S)
      → breaks calls left ≡ true
      → (w : List ℕ) × (t : S) × (recv_loop wait calls left buf s ≡ finished false w t)
  unfolding recv_loop
  recv_loop-breaks calls zero buf s h = ground arith
  recv_loop-breaks [] (suc left) buf s h = ground arith
  recv_loop-breaks (RecvCall.again ∷ calls) (suc left) buf s h =
      recv_loop-breaks calls (suc left) buf (wait poll_slice s) h
  recv_loop-breaks (broken ∷ calls) (suc left) buf s h = (buf, s, refl)
  recv_loop-breaks (got [] ∷ calls) (suc left) buf s h = (buf, s, refl)
  recv_loop-breaks (got (b ∷ bs) ∷ calls) (suc left) buf s h =
      recv_loop-breaks calls (suc left - length (b ∷ bs)) (buf ++ (b ∷ bs)) s h

  leaving_iteration :
      (host : Host) (client : Bool) (s : S)
      → (client || host.accepts) ≡ true
      → host.readable ≡ true
      → breaks host.recvs message_size ≡ true
      → (t : S) × (iteration initiator wait irq_bits host (server s client false)
          ≡ some (server t false false, []))
        × After s t
  unfolding iteration recv_all
  leaving_iteration host client s there ready h =
      let (w, t, e) = recv_loop-breaks host.recvs message_size [] s h in
      (
        t,
        rw (met initiator wait irq_bits client host.accepts there, ready, e, iteration) refl,
        recv_loop-Later host.recvs message_size [] w false s t e,
      )

  -- One request in front of a session.
  answered :
      (quit client : Bool) (host : Host) (hosts : List Host) (req : CosimRequest)
      (reqs : List CosimRequest) (resp : CosimResponse) (s t u v : S)
      → After s t
      → handle initiator wait irq_bits req t ≡ (u, quit, resp)
      → After u v
      → iteration initiator wait irq_bits host (server s client false)
        ≡ some (server v true quit, response_bytes resp)
      → ((w : S) → Session hosts true w reqs)
      → Session (host ∷ hosts) client s (req ∷ reqs)
  unfolding server_thread wire_of
  answered true client host hosts req reqs resp s t u v before e behind it goes_on =
      (v, true, true, resp ∷ [], rw (it, quit_ends hosts v true) refl, stop before e behind)
  answered false client host hosts req reqs resp s t u v before e behind it goes_on =
      let (s', c, quit, resps, e', served) = goes_on v in
      (s', c, quit, resp ∷ resps, rw (it, e') refl, next before e behind served)

  asked :
      (host : Host) (hosts : List Host) (req : CosimRequest) (reqs : List CosimRequest)
      (client : Bool) (s : S)
      → (client || host.accepts) ≡ true
      → Asks host req
      → ((w : S) → Session hosts true w reqs)
      → Session (host ∷ hosts) client s (req ∷ reqs)
  unfolding recv_all send_all
  asked host hosts req reqs client s there h goes_on =
      let (t, v, came, (left, served)) =
        iteration_serves initiator wait irq_bits host (server s client false) req h.ready there
          h.steady h.whole h.words h.clear h.room in
      let (u, quit, resp) = handle initiator wait irq_bits req t in
      answered quit client host hosts req reqs resp s t u v
        (recv_loop-Later host.recvs message_size [] _ true s t came) refl
        (send_loop-Later host.sends (response_bytes resp) [] _ true u v left) served goes_on

  -- Whatever clients ask that come and go, in requests of 32-bit fields that arrive whole, in whatever
  -- pieces, or that break off, with quiet iterations in between and with room for the responses, the
  -- loop serves as an abstract server that handles the whole requests one after the other, with time
  -- passing in between: the bytes it sends are those of that server's responses, one for each request
  -- and in order, up to the first request that makes it quit, if there is one.
  pub thread_serves :
      (hosts : List Host) (reqs : List CosimRequest) (client : Bool) (s : S)
      → Visits client hosts reqs
      → (s' : S) × (client' : Bool) × (quit : Bool) × (resps : List CosimResponse) × (server_thread
            initiator wait irq_bits hosts
            (record { sim = s; client = client; quit = false })
          ≡ some (record { sim = s'; client = client'; quit = quit }, wire_of resps))
        × Serves initiator wait irq_bits s reqs resps quit s'
  unfolding server_thread wire_of
  thread_serves hosts reqs client s no_more = (s, client, false, [], refl, idle (0, refl))
  thread_serves hosts reqs client s (alone {host = host} {hosts = hosts'} h rest) =
      let (t, it, k) = alone_iteration host s h in
      silent host hosts' reqs false false s t it k (thread_serves hosts' reqs false t rest)
  thread_serves hosts reqs client s (quiet {host = host} {hosts = hosts'} there h rest) =
      let t = wait poll_slice s in
      silent host hosts' reqs client true s t (quiet_iteration host client s there h) (1, refl)
        (thread_serves hosts' reqs true t rest)
  thread_serves hosts reqs client s (leaves {host = host} {hosts = hosts'} there ready h rest) =
      let (t, it, k) = leaving_iteration host client s there ready h in
      silent host hosts' reqs client false s t it k (thread_serves hosts' reqs false t rest)
  thread_serves hosts reqs client s
        (asks {host = host} {hosts = hosts'} {req = req} {reqs = reqs'} there h rest) =
      asked host hosts' req reqs' client s there h (λ w. thread_serves hosts' reqs' true w rest)

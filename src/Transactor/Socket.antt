-- ===== src/Transactor/Socket.antt =====
-- `send_all` and `recv_all` of transactor/cosim_server.cpp, over what the calls of the socket return.
pub mod Laws
use systemc_model.Base.{length, take, drop, ℕ, zero, suc, ◌-◌, Bool, true, false, List, [], ◌∷◌}
use systemc_model.Base.{◌++◌}

-- One call of `send`: the number of bytes that it took, a call to try again, or a failure.
pub data SendCall : Type 0 where
  took : ℕ → SendCall
  again : SendCall
  broken : SendCall

-- One call of `recv`: the bytes that it delivered (none at the end of the stream), a call to try
-- again, or a failure.
pub data RecvCall : Type 0 where
  got : List ℕ → RecvCall
  again : RecvCall
  broken : RecvCall

-- A transfer: its result, the bytes moved, and the simulation after it; or that the calls listed do
-- not finish it.
pub data Transfer (S : Type 0) : Type 0 where
  finished : Bool → List ℕ → S → Transfer S
  pending : List ℕ → S → Transfer S

-- 100 us
abbrev pub poll_slice : ℕ
poll_slice = 100000

-- `wait` lets the simulation run for a number of nanoseconds.
module _ {S : Type 0} (wait : ℕ → S → S) where
  -- The loop, with the calls to come, the bytes of `buf` still to be sent, and those on the wire.
  unfoldable pub send_loop : List SendCall → List ℕ → List ℕ → S → Transfer S
  send_loop calls [] wire s = finished true wire s
  send_loop [] (x ∷ left) wire s = pending wire s
  send_loop (again ∷ calls) (x ∷ left) wire s = send_loop calls (x ∷ left) wire (wait poll_slice s)
  send_loop (broken ∷ calls) (x ∷ left) wire s = finished false wire s
  send_loop (took zero ∷ calls) (x ∷ left) wire s = finished false wire s
  send_loop (took (suc n) ∷ calls) (x ∷ left) wire s =
      send_loop calls (drop (suc n) (x ∷ left)) (wire ++ take (suc n) (x ∷ left)) s

  unfoldable pub send_all : List SendCall → List ℕ → S → Transfer S
  send_all calls buf s = send_loop calls buf [] s

  -- The loop with `left` bytes still to come.
  unfoldable pub recv_loop : List RecvCall → ℕ → List ℕ → S → Transfer S
  recv_loop calls zero buf s = finished true buf s
  recv_loop [] (suc left) buf s = pending buf s
  recv_loop (again ∷ calls) (suc left) buf s = recv_loop calls (suc left) buf (wait poll_slice s)
  recv_loop (broken ∷ calls) (suc left) buf s = finished false buf s
  recv_loop (got [] ∷ calls) (suc left) buf s = finished false buf s
  recv_loop (got (b ∷ bs) ∷ calls) (suc left) buf s =
      recv_loop calls (suc left - length (b ∷ bs)) (buf ++ (b ∷ bs)) s

  unfoldable pub recv_all : List RecvCall → ℕ → S → Transfer S
  recv_all calls len s = recv_loop calls len [] s

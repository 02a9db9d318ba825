-- ===== src/Transactor/Socket/Laws.antt =====
-- The loops of the socket: what arrives is what was sent, however the bytes are cut up.
use systemc_model.Base.{length, take, drop, length-append, ℕ, zero, suc, ◌+◌, ◌-◌, ◌≤◌, ◌≡◌}
use systemc_model.Base.{refl, sym, ap, ◌∙◌, Bool, true, false, List, [], ◌∷◌, ◌++◌, arith}
use systemc_model.Transactor.Socket.{
  SendCall, RecvCall, took, got, broken, finished, send_loop, send_all, recv_loop, recv_all,
  poll_slice,
}
use mathlib.Core.List.{append_assoc, append-nil}

-- No call fails.
abbrev pub sends_steadily : List SendCall → Bool
sends_steadily [] = true
sends_steadily (took zero ∷ calls) = false
sends_steadily (took (suc n) ∷ calls) = sends_steadily calls
sends_steadily (SendCall.again ∷ calls) = sends_steadily calls
sends_steadily (broken ∷ calls) = false

abbrev pub receives_steadily : List RecvCall → Bool
receives_steadily [] = true
receives_steadily (got [] ∷ calls) = false
receives_steadily (got (b ∷ bs) ∷ calls) = receives_steadily calls
receives_steadily (RecvCall.again ∷ calls) = receives_steadily calls
receives_steadily (broken ∷ calls) = false

-- The bytes that the calls can take, and those that they deliver.
abbrev pub capacity : List SendCall → ℕ
capacity [] = 0
capacity (took n ∷ calls) = n + capacity calls
capacity (SendCall.again ∷ calls) = capacity calls
capacity (broken ∷ calls) = capacity calls

abbrev pub delivered : List RecvCall → List ℕ
delivered [] = []
delivered (got bs ∷ calls) = bs ++ delivered calls
delivered (RecvCall.again ∷ calls) = delivered calls
delivered (broken ∷ calls) = delivered calls

take-drop : {A : Type 0} → (n : ℕ) (xs : List A) → take n xs ++ drop n xs ≡ xs
take-drop zero xs = refl
take-drop (suc n) [] = refl
take-drop (suc n) (x ∷ xs) = ap (λ r. x ∷ r) (take-drop n xs)

pub length-drop : {A : Type 0} → (n : ℕ) (xs : List A) → length (drop n xs) ≡ length xs - n
length-drop zero xs = omega arith
length-drop (suc n) [] = omega arith
length-drop (suc n) (x ∷ xs) = omega (arith, length-drop n xs)

pub split_at :
    (n x : ℕ) (left wire : List ℕ) → (wire ++ (x ∷ take n left)) ++ drop n left ≡ wire ++ (x ∷ left)
split_at n x left wire =
    append_assoc wire (x ∷ take n left) (drop n left) ∙ ap (λ r. wire ++ (x ∷ r)) (take-drop n left)

-- What is on the wire and what is still to send make up the message throughout.
send_loop-wire :
    {S : Type 0} (wait : ℕ → S → S) (calls : List SendCall) (left wire w : List ℕ) (s s' : S)
    → send_loop wait calls left wire s ≡ finished true w s'
    → w ≡ wire ++ left
unfolding send_loop
send_loop-wire wait calls [] wire w s s' h = ground (arith, append-nil wire)
send_loop-wire wait [] (x ∷ left) wire w s s' h = ground arith
send_loop-wire wait (SendCall.again ∷ calls) (x ∷ left) wire w s s' h =
    send_loop-wire wait calls (x ∷ left) wire w (wait poll_slice s) s' h
send_loop-wire wait (broken ∷ calls) (x ∷ left) wire w s s' h = ground arith
send_loop-wire wait (took zero ∷ calls) (x ∷ left) wire w s s' h = ground arith
send_loop-wire wait (took (suc n) ∷ calls) (x ∷ left) wire w s s' h =
    send_loop-wire wait calls (drop n left) (wire ++ (x ∷ take n left)) w s s' h
    ∙ split_at n x left wire

send_loop-total :
    {S : Type 0} (wait : ℕ → S → S) (calls : List SendCall) (left wire : List ℕ) (s : S)
    → sends_steadily calls ≡ true
    → length left ≤ capacity calls
    → (s' : S) × (send_loop wait calls left wire s ≡ finished true (wire ++ left) s')
unfolding send_loop
send_loop-total wait calls [] wire s steady h = (s, rw (append-nil wire) refl)
send_loop-total wait [] (x ∷ left) wire s steady h = absurd (omega arith)
send_loop-total wait (SendCall.again ∷ calls) (x ∷ left) wire s steady h =
    send_loop-total wait calls (x ∷ left) wire (wait poll_slice s) steady h
send_loop-total wait (broken ∷ calls) (x ∷ left) wire s steady h = ground arith
send_loop-total wait (took zero ∷ calls) (x ∷ left) wire s steady h = ground arith
send_loop-total wait (took (suc n) ∷ calls) (x ∷ left) wire s steady h =
    let (s', e) =
      send_loop-total wait calls (drop n left) (wire ++ (x ∷ take n left)) s steady
        (omega (arith, length-drop n left)) in
    (s', e ∙ ap (λ w. finished true w s') (split_at n x left wire))

pub length-zero : {A : Type 0} → (xs : List A) → length xs ≡ 0 → xs ≡ []
length-zero [] h = refl
length-zero (x ∷ xs) h = absurd (omega arith)

recv_loop-total :
    {S : Type 0} (wait : ℕ → S → S) (calls : List RecvCall) (left : ℕ) (buf : List ℕ) (s : S)
    → receives_steadily calls ≡ true
    → length (delivered calls) ≡ left
    → (s' : S) × (recv_loop wait calls left buf s ≡ finished true (buf ++ delivered calls) s')
unfolding recv_loop
recv_loop-total wait [] left buf s steady h = (s, ground (arith, append-nil buf))
recv_loop-total wait (RecvCall.again ∷ calls) zero buf s steady h =
    (s, ap (λ w. finished true w s) (sym (rw (length-zero (delivered calls) h) (append-nil buf))))
recv_loop-total wait (RecvCall.again ∷ calls) (suc left) buf s steady h =
    recv_loop-total wait calls (suc left) buf (wait poll_slice s) steady h
recv_loop-total wait (broken ∷ calls) left buf s steady h = ground arith
recv_loop-total wait (got [] ∷ calls) left buf s steady h = ground arith
recv_loop-total wait (got (b ∷ bs) ∷ calls) zero buf s steady h = absurd (omega arith)
recv_loop-total wait (got (b ∷ bs) ∷ calls) (suc left) buf s steady h =
    let more : length (delivered calls) ≡ suc left - length (b ∷ bs) =
      omega (arith, length-append bs (delivered calls)) in
    let (s', e) =
      recv_loop-total wait calls (suc left - length (b ∷ bs)) (buf ++ (b ∷ bs)) s steady more in
    (s', e ∙ ap (λ w. finished true w s') (append_assoc buf (b ∷ bs) (delivered calls)))

-- When `send_all` reports success, exactly the buffer is on the wire, in order and once.
pub send_all-exact :
    {S : Type 0} (wait : ℕ → S → S) (calls : List SendCall) (buf w : List ℕ) (s s' : S)
    → send_all wait calls buf s ≡ finished true w s'
    → w ≡ buf
unfolding send_all
send_all-exact wait calls buf w s s' h = send_loop-wire wait calls buf [] w s s' h

-- `send_all` succeeds with the buffer on the wire when no call fails and the calls have room for
-- it, however they cut it up and however often they ask to try again.
pub send_all-completes :
    {S : Type 0} (wait : ℕ → S → S) (calls : List SendCall) (buf : List ℕ) (s : S)
    → sends_steadily calls ≡ true
    → length buf ≤ capacity calls
    → (s' : S) × (send_all wait calls buf s ≡ finished true buf s')
unfolding send_all
send_all-completes wait calls buf s steady h = send_loop-total wait calls buf [] s steady h

-- `recv_all` gives the bytes that the calls deliver, in order, when no call fails and they deliver
-- as many as were asked for, however they are cut up.
pub recv_all-completes :
    {S : Type 0} (wait : ℕ → S → S) (calls : List RecvCall) (len : ℕ) (s : S)
    → receives_steadily calls ≡ true
    → length (delivered calls) ≡ len
    → (s' : S) × (recv_all wait calls len s ≡ finished true (delivered calls) s')
unfolding recv_all
recv_all-completes wait calls len s steady h = recv_loop-total wait calls len [] s steady h

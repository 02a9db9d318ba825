-- ===== src/Transactor/Listen.antt =====
-- The listening socket of `CosimServer` of transactor/cosim_server.cpp, from its construction to its
-- destruction.
use systemc_model.Base.{leb, if◌then◌else◌, length, ℕ, ◌<◌, ◌≡◌, ◌↔◌, ◌⊎◌, Bool, true, false}
use systemc_model.Base.{not, ◌&&◌, Option, none, some, List, arith}
use systemc_model.Bridges.RemoteMmio.{sun_path_size}

-- `listening` is `listen_fd_ >= 0`, `client` is `client_fd_ >= 0`, and `file` is whether the socket's
-- file exists.
pub record CosimServer : Type 0 where
  pub socket_path : List ℕ
  pub listening : Bool
  pub client : Bool
  pub quit : Bool
  pub file : Bool

-- The constructor; a file may be left from an earlier run.
abbrev pub cosim_server : List ℕ → Bool → CosimServer
cosim_server path stale = record {
  socket_path = path;
  listening = false;
  client = false;
  quit = false;
  file = stale;
}

-- What the system calls of `start_listening` return: `unlinks` is whether a file at the path can be
-- removed, and `binds` depends on whether there is one.
pub record ListenCalls : Type 0 where
  pub unlinks : Bool
  pub socket_made : Bool
  pub binds : Bool → Bool
  pub listens : Bool

pub data Raised : Type 0 where
  socket_failed path_too_long bind_failed listen_failed : Raised

-- The exception that is thrown, if one is.
unfoldable pub start_listening : ListenCalls → CosimServer → CosimServer × Option Raised
start_listening calls s =
    let unlinked = record s { file = s.file && not calls.unlinks } in
    if not calls.socket_made
    then (record unlinked { listening = false }, some socket_failed)
    else (let opened : CosimServer = record unlinked { listening = true } in
        if leb sun_path_size (length s.socket_path)
        then (opened, some path_too_long)
        else if not (calls.binds unlinked.file)
        then (opened, some bind_failed)
        else (let bound : CosimServer = record opened { file = true } in
            if not calls.listens then (bound, some listen_failed) else (bound, none)))

-- The destructor; the argument is whether a file at the path can be removed.
unfoldable pub destroy : Bool → CosimServer → CosimServer
destroy unlinks s = record s {
  client = if s.client then false else s.client;
  listening = if s.listening then false else s.listening;
  file = s.file && not unlinks;
}

-- Where `bind` fails on a path that has a file, as it is documented to: whatever an earlier run has
-- left, the server comes up exactly when what was left could be removed, the socket is made, the path
-- is shorter than the address's 108 bytes, and binding to a path with no file and listening succeed.
-- However it went, and whether or not a client has been accepted since, the destructor leaves no open
-- descriptor, and it leaves a file exactly when it cannot remove one that was not removed at the start
-- or that has been bound, be it by a start that then failed to listen.
pub start_listening_iff :
    (calls : ListenCalls) (path : List ℕ) (stale client unlinks : Bool)
    → calls.binds true ≡ false
    → let (s, raised) = start_listening calls (cosim_server path stale) in
      let after = destroy unlinks (record s { client = client }) in
      ((raised ≡ none) ↔ (
        ((stale && not calls.unlinks) ≡ false)
        × (calls.socket_made ≡ true)
        × (length path < 108)
        × (calls.binds false ≡ true)
        × (calls.listens ≡ true)))
      × (after.listening ≡ false)
      × (after.client ≡ false)
      × ((after.file ≡ true) ↔ (
          (unlinks ≡ false)
          × (((stale && not calls.unlinks) ≡ true)
              ⊎ (raised ≡ none)
              ⊎ (raised ≡ some listen_failed))))
unfolding start_listening destroy
start_listening_iff calls path stale client unlinks taken = (
  (λ h. ground arith, λ h. ground arith),
  ground arith,
  ground arith,
  (λ h. ground arith, λ h. ground arith),
)

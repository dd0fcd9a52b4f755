-- ===== src/Tests/Socket.antt =====
-- Concrete runs of src/socket.cc. The system gives the descriptors 3, 4 and so on, and keeps those that are
-- open.
use tiger.Base.{ℕ, ◌+◌, List, [], ◌∷◌, Bool, true, none, some, ◌≡◌, refl}
use tiger.Socket.States.{
  inet, stream, Socket, Sys, new_socket, close, connect, reconnect, connect_sock, init_addresses,
}
use tiger.Socket.Owns.{Descriptors, Owns, removed}
use tiger.Socket.Reach.{Reach, here, next, connected, closed, Reach-new_socket}
use tiger.Socket.Stale.{Reach-remote_addr}

abbrev World : Type 0
World = ℕ × List ℕ

-- The peer of a descriptor has the same number as its address.
abbrev sys : Sys ℕ World
sys = record {
  family_of = λ a. inet;
  unknown = λ f. 0;
  socket_call = λ f t p w. (some w.0, (w.0 + 1, w.0 ∷ w.1));
  connect_call = λ fd a w. (true, w);
  bind_call = λ fd a w. (true, w);
  listen_call = λ fd backlog w. (true, w);
  accept_call = λ fd w. (none, w);
  close_call = λ fd w. (w.0, removed fd w.1);
  set_flag = λ fd f w. w;
  sock_name = λ fd w. some 1;
  peer_name = λ fd w. some fd;
  owns_socket = λ fd w. true;
  keep_timeout = λ fd t w. w;
}

abbrev descriptors : Descriptors sys
descriptors = record {
  opened = λ w. w.1;
  opened-socket_call = λ f t p w. refl;
  opened-close_call = λ fd w. refl;
  opened-connect_call = λ fd a w. refl;
  opened-bind_call = λ fd a w. refl;
  opened-listen_call = λ fd backlog w. refl;
  opened-set_flag = λ fd f w. refl;
  opened-keep_timeout = λ fd t w. refl;
}

abbrev fresh : Socket ℕ
fresh = new_socket inet stream 0

abbrev open_world : World
open_world = (3, 0 ∷ [])

abbrev once : Bool × Socket ℕ × World
once = connect sys 50 none fresh open_world

abbrev first_connected : Reach sys (fresh, open_world) (once.1, once.2)
first_connected =
    next (fresh, open_world) (fresh, open_world) (once.1, once.2) (here (fresh, open_world))
      (connected 50 none fresh open_world)

Reach-new_socket_example :
    Owns sys descriptors (0 ∷ []) once.1 once.2 × ((close sys once.1 once.2).2.1 ≡ 0 ∷ [])
Reach-new_socket_example =
    Reach-new_socket sys descriptors (0 ∷ []) inet stream 0 once.1 open_world once.2 refl
      first_connected

abbrev shut : Bool × Socket ℕ × World
shut = close sys once.1 once.2

-- Connected to a second peer, on another descriptor.
abbrev twice : Bool × Socket ℕ × World
twice = connect sys 60 none shut.1 shut.2

abbrev again_connected : Reach sys (once.1, once.2) (twice.1, twice.2)
again_connected =
    next (once.1, once.2) (shut.1, shut.2) (twice.1, twice.2)
      (next (once.1, once.2) (once.1, once.2) (shut.1, shut.2) (here (once.1, once.2))
        (closed once.1 once.2))
      (connected 60 none shut.1 shut.2)

Reach-remote_addr_example :
    (twice.1.remote_addr ≡ some 3)
    × (reconnect sys none twice.1 twice.2
        ≡ connect sys 3 none (record twice.1 { local_addr = none }) twice.2)
unfolding connect connect_sock init_addresses new_socket
Reach-remote_addr_example =
    Reach-remote_addr sys 3 none (once.1, once.2) (twice.1, twice.2) refl again_connected

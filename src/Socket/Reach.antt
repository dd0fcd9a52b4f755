-- ===== src/Socket/Reach.antt =====
-- src/socket.cc: the sequences of operations of a socket.
use tiger.Base.{ℕ, List, Option, ◌≡◌, refl, ap, ◌∙◌, inl}
use tiger.Socket.States.{
  Family, Socket, SocketType, Sys, new_socket, close, connect, reconnect, bind, listen,
}
use tiger.Socket.Owns.{
  Descriptors, Owns, with_held, connect-Owns, reconnect_to-Owns, bind-Owns, listen-Owns, close-Owns,
  close-none,
}

-- The operations of a Socket, but accept, which makes another one.
pub data Step {ℓ} {A : Type 0} {S : Type ℓ} (sys : Sys A S)
    : Socket A × S → Socket A × S → Type ℓ where
  connected :
      (a : A) (o : Option ℕ) (s : Socket A) (w : S)
      → Step sys (s, w) ((connect sys a o s w).1, (connect sys a o s w).2)
  reconnected :
      (o : Option ℕ) (s : Socket A) (w : S)
      → Step sys (s, w) ((reconnect sys o s w).1, (reconnect sys o s w).2)
  bound : (a : A) (s : Socket A) (w : S) → Step sys (s, w) ((bind sys a s w).1, (bind sys a s w).2)
  heard :
      (backlog : ℕ) (s : Socket A) (w : S)
      → Step sys (s, w) ((listen sys backlog s w).1, (listen sys backlog s w).2)
  closed : (s : Socket A) (w : S) → Step sys (s, w) ((close sys s w).1, (close sys s w).2)

pub data Reach {ℓ} {A : Type 0} {S : Type ℓ} (sys : Sys A S)
    : Socket A × S → Socket A × S → Type ℓ where
  here : (t : Socket A × S) → Reach sys t t
  next : (t t' t'' : Socket A × S) → Reach sys t t' → Step sys t' t'' → Reach sys t t''

module _ {ℓ} {A : Type 0} {S : Type ℓ} (sys : Sys A S) (descriptors : Descriptors sys)
    (base : List ℕ) where
  open descriptors use {opened}

  abbrev Holds : Socket A × S → Type ℓ
  Holds t = Owns sys descriptors base t.0 t.1

  Step-Owns : (t t' : Socket A × S) → Step sys t t' → Holds t → Holds t'
  unfolding reconnect
  Step-Owns _ _ (connected a o s w) h = connect-Owns sys descriptors base a o s w h
  Step-Owns _ _ (reconnected o s w) h = reconnect_to-Owns sys descriptors base s.remote_addr o s w h
  Step-Owns _ _ (bound a s w) h = bind-Owns sys descriptors base a s w h
  Step-Owns _ _ (heard backlog s w) h = listen-Owns sys descriptors base backlog s w h
  Step-Owns _ _ (closed s w) h = close-Owns sys descriptors base s w h

  Reach-Owns : (t t' : Socket A × S) → Reach sys t t' → Holds t → Holds t'
  Reach-Owns _ _ (here t) h = h
  Reach-Owns _ _ (next t t' t'' r st) h = Step-Owns t' t'' st (Reach-Owns t t' r h)

  -- Whatever connect, reconnect, bind, listen and close are called on a new socket, in whatever order and
  -- whether they succeed or fail: the descriptors open beyond those at the start are its own, one or
  -- none; it has one whenever it is connected; and after another close none is left open.
  pub Reach-new_socket :
      (family : Family) (type : SocketType) (protocol : ℕ) (s : Socket A) (w w' : S)
      → opened w ≡ base
      → Reach sys (new_socket family type protocol, w) (s, w')
      → Owns sys descriptors base s w' × (opened (close sys s w').2 ≡ base)
  unfolding new_socket
  Reach-new_socket family type protocol s w w' e r =
      let start : Owns sys descriptors base (new_socket family type protocol) w = record {
        held = e;
        has_sock = inl refl;
      } in
      let h = Reach-Owns (new_socket family type protocol, w) (s, w') r start in
      let k = close-Owns sys descriptors base s w' h in
      (h, k.held ∙ ap (λ o. with_held o base) (close-none sys descriptors base s w'))

-- ===== src/Socket/Stale.antt =====
-- src/socket.cc: the remote address that a socket keeps.
use tiger.Base.{ℕ, Bool, true, false, Option, none, some}
use tiger.Base.{◌≡◌, ap, Bool-cases, Option-cases, inl, inr}
use tiger.Socket.States.{
  Socket, Sys, is_valid, new_sock, init_local_address, init_remote_address, init_addresses, close,
  with_sock, connect_sock, connect, reconnect_to, reconnect, bind_sock, bind, listen, name_of,
  after_connect, with_timeout, on_sock, after_bind, same_family,
}
use tiger.Socket.Reach.{Step, Reach, connected, reconnected, bound, heard, closed, here, next}

module _ {ℓ} {A : Type 0} {S : Type ℓ} (sys : Sys A S) (a : A) where
  abbrev Remote : Socket A → Type 0
  Remote s = s.remote_addr ≡ some a

  init_local_address-Remote :
      (s : Socket A) (w : S) → Remote s → Remote (init_local_address sys s w).1
  unfolding init_local_address
  init_local_address-Remote s w h = elim (Option-cases s.local_addr) [
    | inr (b, e) ↦ rw (init_local_address, e) h
    | inl e ↦ elim (Option-cases (name_of sys sys.sock_name s w)) [
      | inr (b, f) ↦ rw (init_local_address, e, f) h
      | inl f ↦ rw (init_local_address, e, f) h
    ]
  ]

  init_remote_address-Remote :
      (s : Socket A) (w : S) → Remote s → Remote (init_remote_address sys s w).1
  unfolding init_remote_address
  init_remote_address-Remote s w h = rw (init_remote_address, h) h

  with_sock-Remote : (s : Socket A) (w : S) → Remote s → Remote (with_sock sys s w).0
  unfolding with_sock new_sock
  with_sock-Remote s w h = elim (Bool-cases (is_valid s)) [
    | inl e ↦ rw (with_sock, e) h
    | inr e ↦ elim (Option-cases (sys.socket_call s.family s.type s.protocol w).0) [
      | inl f ↦ rw (with_sock, e, new_sock, f) h
      | inr (fd, f) ↦ rw (with_sock, e, new_sock, f) h
    ]
  ]

  close-Remote : (s : Socket A) (w : S) → Remote s → Remote (close sys s w).1
  unfolding close
  close-Remote s w h = elim (Option-cases s.sock) [
    | inl e ↦ rw (close, e) h
    | inr (fd, e) ↦ rw (close, e) h
  ]

  on_sock-Remote :
      (o : Option ℕ) (s : Socket A) (w : S) (go : ℕ → Bool × Socket A × S)
      → Remote s
      → ((fd : ℕ) → Remote (go fd).1)
      → Remote (on_sock sys o s w go).1
  unfolding on_sock
  on_sock-Remote none s w go h k = h
  on_sock-Remote (some fd) s w go h k = k fd

  after_connect-Remote :
      (b : Bool) (s : Socket A) (w : S) → Remote s → Remote (after_connect sys b s w).1
  unfolding after_connect init_addresses
  after_connect-Remote true s w h =
      let s' : Socket A = record s { is_connected = true } in
      init_remote_address-Remote (init_local_address sys s' w).1 w
        (init_local_address-Remote s' w h)
  after_connect-Remote false s w h = close-Remote s w h

  connect-Remote :
      (b : A) (o : Option ℕ) (s : Socket A) (w : S) → Remote s → Remote (connect sys b o s w).1
  unfolding connect connect_sock
  connect-Remote b o s w h =
      let h' = with_sock-Remote s w h in
      let s' = (with_sock sys s w).0 in
      let w' = (with_sock sys s w).1 in
      on_sock-Remote s'.sock s' w' (λ fd. connect_sock sys b o fd s' w') h'
        (λ fd.
          let called = sys.connect_call fd b (with_timeout sys o fd w') in
          after_connect-Remote called.0 s' called.1 h')

  reconnect_to-Remote :
      (r : Option A) (o : Option ℕ) (s : Socket A) (w : S)
      → Remote s
      → Remote (reconnect_to sys r o s w).1
  unfolding reconnect_to
  reconnect_to-Remote none o s w h = h
  reconnect_to-Remote (some b) o s w h = connect-Remote b o (record s { local_addr = none }) w h

  after_bind-Remote : (b : Bool) (s : Socket A) (w : S) → Remote s → Remote (after_bind sys b s w).1
  unfolding after_bind
  after_bind-Remote true s w h = init_local_address-Remote s w h
  after_bind-Remote false s w h = h

  bind-Remote : (b : A) (s : Socket A) (w : S) → Remote s → Remote (bind sys b s w).1
  unfolding bind bind_sock
  bind-Remote b s w h =
      let h' = with_sock-Remote s w h in
      let s' = (with_sock sys s w).0 in
      let w' = (with_sock sys s w).1 in
      on_sock-Remote s'.sock s' w' (λ fd. bind_sock sys b fd s' w') h'
        (λ fd. elim (Bool-cases (same_family (sys.family_of b) s'.family)) [
          | inl f ↦
              rw (f, bind_sock)
                (after_bind-Remote (sys.bind_call fd b w').0 s' (sys.bind_call fd b w').1 h')
          | inr f ↦ rw (f, bind_sock) h'
        ])

  Step-Remote : (t t' : Socket A × S) → Step sys t t' → Remote t.0 → Remote t'.0
  unfolding reconnect listen
  Step-Remote _ _ (connected b o s w) h = connect-Remote b o s w h
  Step-Remote _ _ (reconnected o s w) h = reconnect_to-Remote s.remote_addr o s w h
  Step-Remote _ _ (bound b s w) h = bind-Remote b s w h
  Step-Remote _ _ (heard backlog s w) h =
      on_sock-Remote s.sock s w
        (λ fd. ((sys.listen_call fd backlog w).0, s, (sys.listen_call fd backlog w).1)) h (λ fd. h)
  Step-Remote _ _ (closed s w) h = close-Remote s w h

  Reach-Remote : (t t' : Socket A × S) → Remote t.0 → Reach sys t t' → Remote t'.0
  Reach-Remote _ _ h (here t) = h
  Reach-Remote _ _ h (next t t' t'' r st) = Step-Remote t' t'' st (Reach-Remote t t' h r)

  -- Once a socket has a remote address, no connect, reconnect, bind, listen or close changes it: after
  -- any sequence of these, a close and a connect to another peer among them, reconnect is connect to
  -- that first address, with the local address dropped.
  pub Reach-remote_addr :
      (o : Option ℕ) (t t' : Socket A × S)
      → t.0.remote_addr ≡ some a
      → Reach sys t t'
      → (t'.0.remote_addr ≡ some a)
        × (reconnect sys o t'.0 t'.1 ≡ connect sys a o (record t'.0 { local_addr = none }) t'.1)
  unfolding reconnect reconnect_to
  Reach-remote_addr o t t' h r =
      let e = Reach-Remote t t' h r in (e, ap (λ x. reconnect_to sys x o t'.0 t'.1) e)

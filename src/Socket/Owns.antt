-- ===== src/Socket/Owns.antt =====
-- src/socket.cc: the descriptor that a socket holds, and what each operation makes of it.
use tiger.Base.{
  ℕ, ◌==◌, ==_iff, List, [], ◌∷◌, Bool, true, false, not, ◌&&◌, Option, none, some, if◌then◌else◌,
}
use tiger.Base.{◌≡◌, ◌⊎◌, refl, ap, sym, ◌∙◌, Bool-cases, Option-cases, inl, inr}
use tiger.Socket.States.{
  Family, Socket, SocketType, SocketFlag, Sys, is_unix, is_stream, is_valid, new_sock, init_sock,
  init_local_address, init_remote_address, init_addresses, close, with_sock, connect_sock, connect,
  reconnect_to, bind_sock, bind, listen, name_of, with_timeout, after_connect, on_sock, after_bind,
  same_family, so_reuseaddr, tcp_nodelay,
}

unfoldable pub removed : ℕ → List ℕ → List ℕ
removed fd [] = []
removed fd (x ∷ xs) = let rest = removed fd xs in if x == fd then xs else x ∷ rest

-- The descriptors that are open, the last one first, and how the system's calls change them.
pub record Descriptors {ℓ} {A : Type 0} {S : Type ℓ} (sys : Sys A S) : Type ℓ where
  pub opened : S → List ℕ
  pub opened-socket_call :
      (f : Family) (t : SocketType) (p : ℕ) (w : S)
      → opened (sys.socket_call f t p w).1
        ≡ elim (sys.socket_call f t p w).0 [ none ↦ opened w | some fd ↦ fd ∷ opened w ]
  pub opened-close_call : (fd : ℕ) (w : S) → opened (sys.close_call fd w) ≡ removed fd (opened w)
  pub opened-connect_call : (fd : ℕ) (a : A) (w : S) → opened (sys.connect_call fd a w).1 ≡ opened w
  pub opened-bind_call : (fd : ℕ) (a : A) (w : S) → opened (sys.bind_call fd a w).1 ≡ opened w
  pub opened-listen_call :
      (fd backlog : ℕ) (w : S) → opened (sys.listen_call fd backlog w).1 ≡ opened w
  pub opened-set_flag : (fd : ℕ) (f : SocketFlag) (w : S) → opened (sys.set_flag fd f w) ≡ opened w
  pub opened-keep_timeout : (fd t : ℕ) (w : S) → opened (sys.keep_timeout fd t w) ≡ opened w

-- The descriptor of a socket in front of the others.
abbrev pub with_held : Option ℕ → List ℕ → List ℕ
with_held none base = base
with_held (some fd) base = fd ∷ base

-- A socket that is connected has a descriptor.
abbrev pub HasSock : {A : Type 0} → Socket A → Type 0
HasSock s = (s.is_connected ≡ false) ⊎ ((fd : ℕ) × (s.sock ≡ some fd))

abbrev SameSock : {A : Type 0} → Socket A → Socket A → Type 0
SameSock s s' = (s'.sock ≡ s.sock) × (s'.is_connected ≡ s.is_connected)

HasSock-same : {A : Type 0} (s s' : Socket A) → SameSock s s' → HasSock s → HasSock s'
HasSock-same s s' e (inl h) = inl (e.1 ∙ h)
HasSock-same s s' e (inr (fd, h)) = inr (fd, e.0 ∙ h)

unconnected : {A : Type 0} (s : Socket A) → HasSock s → s.sock ≡ none → s.is_connected ≡ false
unconnected s (inl h) e = h
unconnected s (inr (fd, h)) e = absurd (some_none (sym h ∙ e))
  where
    some_none : {n : ℕ} → some n ≡ none → ⊥
    some_none h = cc

is_valid-some : {A : Type 0} (s : Socket A) (fd : ℕ) → s.sock ≡ some fd → is_valid s ≡ true
unfolding is_valid
is_valid-some s fd e = rw e refl

removed_first : (fd : ℕ) (xs : List ℕ) → removed fd (fd ∷ xs) ≡ xs
unfolding removed
removed_first fd xs = rw ((==_iff fd fd).1 refl) refl

module _ {ℓ} {A : Type 0} {S : Type ℓ} (sys : Sys A S) where
  init_local_address-same : (s : Socket A) (w : S) → SameSock s (init_local_address sys s w).1
  unfolding init_local_address
  init_local_address-same s w = elim (Option-cases s.local_addr) [
    | inr (a, e) ↦ rw (init_local_address, e) (refl, refl)
    | inl e ↦ elim (Option-cases (name_of sys sys.sock_name s w)) [
      | inr (a, f) ↦ rw (init_local_address, e, f) (refl, refl)
      | inl f ↦ rw (init_local_address, e, f) (refl, refl)
    ]
  ]

  init_remote_address-same : (s : Socket A) (w : S) → SameSock s (init_remote_address sys s w).1
  unfolding init_remote_address
  init_remote_address-same s w = elim (Option-cases s.remote_addr) [
    | inr (a, e) ↦ rw (init_remote_address, e) (refl, refl)
    | inl e ↦ elim (Option-cases (name_of sys sys.peer_name s w)) [
      | inr (a, f) ↦ rw (init_remote_address, e, f) (refl, refl)
      | inl f ↦ rw (init_remote_address, e, f) (refl, refl)
    ]
  ]

  init_addresses-same : (s : Socket A) (w : S) → SameSock s (init_addresses sys s w)
  unfolding init_addresses
  init_addresses-same s w =
      let a = init_local_address-same s w in
      let b = init_remote_address-same (init_local_address sys s w).1 w in (b.0 ∙ a.0, b.1 ∙ a.1)

module _ {ℓ} {A : Type 0} {S : Type ℓ} (sys : Sys A S) (descriptors : Descriptors sys)
    (base : List ℕ) where
  open descriptors use {
    opened, opened-socket_call, opened-close_call, opened-connect_call, opened-bind_call,
    opened-listen_call, opened-set_flag, opened-keep_timeout,
  }

  -- A socket holds its descriptor, and no other is open but those of `base`.
  pub record Owns (s : Socket A) (w : S) : Type ℓ where
    pub held : opened w ≡ with_held s.sock base
    pub has_sock : HasSock s

  pub Owns-same :
      (s s' : Socket A) (w w' : S) → SameSock s s' → opened w' ≡ opened w → Owns s w → Owns s' w'
  Owns-same s s' w w' e f h = record {
    held = f ∙ h.held ∙ ap (λ o. with_held o base) (sym e.0);
    has_sock = HasSock-same s s' e h.has_sock;
  }

  opened-init_sock : (s : Socket A) (fd : ℕ) (w : S) → opened (init_sock sys s fd w) ≡ opened w
  unfolding init_sock
  opened-init_sock s fd w =
      let first = opened-set_flag fd so_reuseaddr w in
      elim (Bool-cases (is_stream s.type && not (is_unix s.family))) [
        | inl e ↦
            rw (init_sock, e)
              (opened-set_flag fd tcp_nodelay (sys.set_flag fd so_reuseaddr w) ∙ first)
        | inr e ↦ rw (init_sock, e) first
      ]

  new_sock-Owns :
      (s : Socket A) (w : S)
      → s.sock ≡ none
      → Owns s w
      → Owns (new_sock sys s w).0 (new_sock sys s w).1
  unfolding new_sock
  new_sock-Owns s w e h =
      let before : opened w ≡ base = h.held ∙ ap (λ o. with_held o base) e in
      let made = opened-socket_call s.family s.type s.protocol w in
      elim (Option-cases (sys.socket_call s.family s.type s.protocol w).0) [
        | inl f ↦
            rw (new_sock, f)
              (record {
                held = (rw f at made) ∙ before;
                has_sock = inl (unconnected s h.has_sock e);
              })
        | inr (fd, f) ↦
            rw (new_sock, f)
              (record {
                held =
                    opened-init_sock s fd (sys.socket_call s.family s.type s.protocol w).1
                    ∙ (rw f at made)
                    ∙ ap (λ l. fd ∷ l) before;
                has_sock = inr (fd, refl);
              })
      ]

  with_sock-Owns :
      (s : Socket A) (w : S) → Owns s w → Owns (with_sock sys s w).0 (with_sock sys s w).1
  unfolding with_sock is_valid
  with_sock-Owns s w h = elim (Option-cases s.sock) [
    | inl e ↦ rw (with_sock, is_valid, e) (new_sock-Owns s w e h)
    | inr (fd, e) ↦ rw (with_sock, is_valid-some s fd e) h
  ]

  pub close-Owns : (s : Socket A) (w : S) → Owns s w → Owns (close sys s w).1 (close sys s w).2
  unfolding close
  close-Owns s w h = elim (Option-cases s.sock) [
    | inl e ↦ rw (close, e) (record { held = h.held; has_sock = inl refl })
    | inr (fd, e) ↦
        rw (close, e)
          (record {
            held =
                opened-close_call fd w
                ∙ ap (removed fd) (h.held ∙ ap (λ o. with_held o base) e)
                ∙ removed_first fd base;
            has_sock = inl refl;
          })
  ]

  -- connect behind ::connect.
  connected-Owns :
      (s : Socket A) (fd : ℕ) (w w' : S)
      → s.sock ≡ some fd
      → opened w' ≡ opened w
      → Owns s w
      → Owns (init_addresses sys (record s { is_connected = true }) w') w'
  connected-Owns s fd w w' e f h =
      let s' : Socket A = record s { is_connected = true } in
      Owns-same s' (init_addresses sys s' w') w' w' (init_addresses-same sys s' w') refl
        (record { held = f ∙ h.held; has_sock = inr (fd, e) })

  after_connect-Owns :
      (b : Bool) (s : Socket A) (fd : ℕ) (w w' : S)
      → s.sock ≡ some fd
      → opened w' ≡ opened w
      → Owns s w
      → Owns (after_connect sys b s w').1 (after_connect sys b s w').2
  unfolding after_connect
  after_connect-Owns true s fd w w' e f h = connected-Owns s fd w w' e f h
  after_connect-Owns false s fd w w' e f h = close-Owns s w' (Owns-same s s w w' (refl, refl) f h)

  opened-with_timeout :
      (o : Option ℕ) (fd : ℕ) (w : S) → opened (with_timeout sys o fd w) ≡ opened w
  unfolding with_timeout
  opened-with_timeout none fd w = refl
  opened-with_timeout (some t) fd w = opened-keep_timeout fd t w

  on_sock-Owns :
      (o : Option ℕ) (s : Socket A) (w : S) (go : ℕ → Bool × Socket A × S)
      → Owns s w
      → ((fd : ℕ) → o ≡ some fd → Owns (go fd).1 (go fd).2)
      → Owns (on_sock sys o s w go).1 (on_sock sys o s w go).2
  unfolding on_sock
  on_sock-Owns none s w go h k = h
  on_sock-Owns (some fd) s w go h k = k fd refl

  pub connect-Owns :
      (a : A) (o : Option ℕ) (s : Socket A) (w : S)
      → Owns s w
      → Owns (connect sys a o s w).1 (connect sys a o s w).2
  unfolding connect connect_sock
  connect-Owns a o s w h =
      let s' = (with_sock sys s w).0 in
      let w' = (with_sock sys s w).1 in
      let h' = with_sock-Owns s w h in
      on_sock-Owns s'.sock s' w' (λ fd. connect_sock sys a o fd s' w') h'
        (λ fd e.
          after_connect-Owns _ s' fd w' _ e
            (opened-connect_call fd a (with_timeout sys o fd w') ∙ opened-with_timeout o fd w') h')

  after_bind-Owns :
      (b : Bool) (s : Socket A) (w w' : S)
      → opened w' ≡ opened w
      → Owns s w
      → Owns (after_bind sys b s w').1 (after_bind sys b s w').2
  unfolding after_bind
  after_bind-Owns true s w w' f h =
      Owns-same s (init_local_address sys s w').1 w w' (init_local_address-same sys s w') f h
  after_bind-Owns false s w w' f h = Owns-same s s w w' (refl, refl) f h

  pub bind-Owns :
      (a : A) (s : Socket A) (w : S) → Owns s w → Owns (bind sys a s w).1 (bind sys a s w).2
  unfolding bind bind_sock
  bind-Owns a s w h =
      let s' = (with_sock sys s w).0 in
      let w' = (with_sock sys s w).1 in
      let h' = with_sock-Owns s w h in
      on_sock-Owns s'.sock s' w' (λ fd. bind_sock sys a fd s' w') h'
        (λ fd e. elim (Bool-cases (same_family (sys.family_of a) s'.family)) [
          | inl f ↦
              rw (f, bind_sock)
                (after_bind-Owns (sys.bind_call fd a w').0 s' w' _ (opened-bind_call fd a w') h')
          | inr f ↦ rw (f, bind_sock) h'
        ])

  pub listen-Owns :
      (backlog : ℕ) (s : Socket A) (w : S)
      → Owns s w
      → Owns (listen sys backlog s w).1 (listen sys backlog s w).2
  unfolding listen
  listen-Owns backlog s w h =
      on_sock-Owns s.sock s w _ h
        (λ fd e. Owns-same s s w _ (refl, refl) (opened-listen_call fd backlog w) h)

  pub reconnect_to-Owns :
      (r : Option A) (o : Option ℕ) (s : Socket A) (w : S)
      → Owns s w
      → Owns (reconnect_to sys r o s w).1 (reconnect_to sys r o s w).2
  unfolding reconnect_to
  reconnect_to-Owns none o s w h = h
  reconnect_to-Owns (some a) o s w h =
      let s' : Socket A = record s { local_addr = none } in
      connect-Owns a o s' w (Owns-same s s' w w (refl, refl) refl h)

  pub close-none : (s : Socket A) (w : S) → (close sys s w).1.sock ≡ none
  unfolding close
  close-none s w = elim (Option-cases s.sock) [
    | inl e ↦ rw (close, e) e
    | inr (fd, e) ↦ rw (close, e) refl
  ]

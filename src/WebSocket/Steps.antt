-- ===== src/WebSocket/Steps.antt =====
-- src/servers/http/ws_session.cc and src/servers/http/ws_connection.cc: one frame as the receiver reads
-- it from a stream that delivers.
use tiger.Base.{ℕ, zero, suc, ◌^◌, ◌≤◌, ◌<◌, ◌≡◌, refl, ap, ◌∙◌, arith}
use tiger.Base.{List, [], ◌∷◌, ◌++◌}
use tiger.Base.{length, length-append, take, drop}
use mathlib.Core.List.{append_assoc}
use tiger.Stream.Loops.{Stream}
use tiger.Stream.Reliable.{IsReliable, read_fixed_size_lem}
use tiger.WebSocket.Wire.{not_zero}
use tiger.WebSocket.Session.{go, Io, ◌>>=◌, pure, receive}

take_front : (xs ys : List ℕ) (n : ℕ) → length xs ≡ n → take n (xs ++ ys) ≡ xs
take_front [] ys zero h = refl
take_front [] ys (suc n) h = absurd (omega arith)
take_front (x ∷ xs) ys zero h = absurd (omega arith)
take_front (x ∷ xs) ys (suc n) h = ap (◌∷◌ x) (take_front xs ys n (omega arith))

drop_front : (xs ys : List ℕ) (n : ℕ) → length xs ≡ n → drop n (xs ++ ys) ≡ ys
drop_front [] ys zero h = refl
drop_front [] ys (suc n) h = absurd (omega arith)
drop_front (x ∷ xs) ys zero h = absurd (omega arith)
drop_front (x ∷ xs) ys (suc n) h = drop_front xs ys n (omega arith)

module _ {ℓ} {S : Type ℓ} (stream : Stream S) (r : IsReliable stream) where
  open r use {pending, sent}

  -- A call that takes these bytes off the front of what is on its way, and sends none.
  unfoldable pub Takes : {A : Type 0} → Io S A → A → List ℕ → Type ℓ
  Takes m a bytes =
      (s : S) (rest : List ℕ)
      → pending s ≡ bytes ++ rest
      → (t : S) × (m s ≡ go a t) × (pending t ≡ rest) × (sent t ≡ sent s)

  pub receive-Takes :
      (n : ℕ) (bytes : List ℕ)
      → length bytes ≡ n
      → 0 < n
      → n < 2 ^ 31
      → Takes (receive stream n) bytes bytes
  unfolding Takes receive
  receive-Takes n bytes e h small s rest p =
      let enough : n ≤ length (pending s) =
        omega (arith, ap length p, length-append {0} bytes rest) in
      let (t, done, after, same) = read_fixed_size_lem stream r n s small enough in
      (
        t,
        rw (done, receive)
            (rw (not_zero n h) (ap (λ b. go b t) (ap (take n) p ∙ take_front bytes rest n e))),
        after ∙ ap (drop n) p ∙ drop_front bytes rest n e,
        same,
      )

  pub pure-Takes : {A : Type 0} (a : A) → Takes (pure a) a []
  unfolding Takes
  pure-Takes a s rest p = (s, refl, p, refl)

  pub >>=-Takes :
      {A B : Type 0} (m : Io S A) (f : A → Io S B) (a : A) (b : B) (xs ys : List ℕ)
      → Takes m a xs
      → Takes (f a) b ys
      → Takes (m >>= f) b (xs ++ ys)
  unfolding Takes
  >>=-Takes m f a b xs ys h k s rest p =
      let (t, first, left, same) = h s (ys ++ rest) (p ∙ append_assoc xs ys rest) in
      let (u, second, left', same') = k t rest left in
      (u, rw (first, ◌>>=◌) second, left', same' ∙ same)

  -- The last call takes all the bytes, and what follows is computed.
  pub last-Takes :
      {A B : Type 0} (m : Io S A) (f : A → B) (a : A) (b : B) (xs : List ℕ)
      → Takes m a xs
      → f a ≡ b
      → Takes (m >>= λ x. pure (f x)) b xs
  unfolding Takes
  last-Takes m f a b xs h e s rest p =
      let (t, first, left, same) = h s rest p in
      (t, rw (first, ◌>>=◌) (ap (λ x. go x t) e), left, same)

-- ===== src/WebSocket/Session.antt =====
-- src/servers/http/ws_session.cc and src/servers/http/ws_connection.cc: receiving and sending messages
-- over a stream. `cur_len` is an int; a masked message of 2^31 bytes or more, for which `cur_len + i`
-- overflows, is not modelled.
use tiger.Base.{
  ℕ, zero, suc, ◌+◌, ◌%◌, ◌^◌, Bool, true, false, not, ◌&&◌, ◌||◌, List, [], ◌∷◌, ◌++◌,
}
use tiger.Base.{Option, none, some, leb, ltb, ◌==◌, if◌then◌else◌, length}
use tiger.Base.Int.{ℤ, pos, negsuc, widened_int}
use tiger.ByteArray.Defs.{Endian}
use tiger.ByteArray.Typed.{object_value}
use tiger.Stream.Loops.{Stream, all, stopped, out_of_fuel, read_fixed_size, write_fixed_size}
use tiger.WebSocket.Frame.{
  WsFrameHead, continue_frame, text_frame, bin_frame, close_frame, ping_frame, pong_frame,
  head_bytes, head_of, new_head, apply_mask, bswap_on_little_endian, payload_code, length_bytes,
}

-- What a part of the loop's body does: it goes on, or it leaves the loop by `break`.
pub data Step {ℓ} (A : Type 0) (S : Type ℓ) : Type ℓ where
  go : A → S → Step A S
  break : S → Step A S
  stuck : Step A S

abbrev pub Io {ℓ} : Type ℓ → Type 0 → Type ℓ
Io S A = S → Step A S

infixl 5 ◌>>=◌ ◌>>◌
abbrev pub ◌>>=◌ {ℓ} : {S : Type ℓ} {A B : Type 0} → Io S A → (A → Io S B) → Io S B
◌>>=◌ m f s = elim (m s) [ go a t ↦ f a t | break t ↦ break t | stuck ↦ stuck ]

abbrev pub ◌>>◌ {ℓ} : {S : Type ℓ} {B : Type 0} → Io S (Unit {0}) → Io S B → Io S B
m >> k = m >>= λ _. k

abbrev pub pure {ℓ} : {S : Type ℓ} {A : Type 0} → A → Io S A
pure a s = go a s

-- A round of recv_message ends the message or wants the next frame.
pub data Round : Type 0 where
  again : ℕ → List ℕ → Round
  finished : ℕ → List ℕ → Round

-- recv_message: the message, or nullptr on a stream that it has closed.
pub data Received {ℓ} (S : Type ℓ) : Type ℓ where
  message : ℕ → List ℕ → S → Received S
  closed : S → Received S
  unfinished : Received S

-- The result of a call that sends.
pub data Sent {ℓ} (S : Type ℓ) : Type ℓ where
  returned : ℤ → S → Sent S
  unfinished : Sent S

module _ {ℓ} {S : Type ℓ} (stream : Stream S) where
  -- `if (read_fixed_size(buffer, n) <= 0) break;`: a read of no bytes returns 0.
  unfoldable pub receive : ℕ → Io S (List ℕ)
  receive n s = elim (read_fixed_size stream n s) [
    | all bytes t ↦ if n == 0 then break t else go bytes t
    | stopped code t ↦ break t
    | out_of_fuel ↦ stuck
  ]

  -- `if (write_fixed_size(buffer, n) <= 0) break;`
  unfoldable pub transmit : List ℕ → Io S (Unit {0})
  transmit bytes s = elim (write_fixed_size stream bytes s) [
    | all u t ↦ if length bytes == 0 then break t else go tt t
    | stopped code t ↦ break t
    | out_of_fuel ↦ stuck
  ]

  -- `if (pong() <= 0) break;`, where pong closes the stream itself when it fails.
  unfoldable pub pong_or_break : Io S (Unit {0})
  pong_or_break s = elim (transmit (head_bytes (new_head pong_frame true 0 false)) s) [
    | go u t ↦ go tt t
    | break t ↦ break (stream.close t)
    | stuck ↦ stuck
  ]

  -- ping closes the stream for a result below zero, pong for zero too.
  unfoldable pub ping : S → Sent S
  ping s = elim (write_fixed_size stream (head_bytes (new_head ping_frame true 0 false)) s) [
    | all u t ↦ returned (pos 2) t
    | stopped (pos n) t ↦ returned (pos n) t
    | stopped (negsuc n) t ↦ returned (negsuc n) (stream.close t)
    | out_of_fuel ↦ Sent.unfinished
  ]

  unfoldable pub pong : S → Sent S
  pong s = elim (write_fixed_size stream (head_bytes (new_head pong_frame true 0 false)) s) [
    | all u t ↦ returned (pos 2) t
    | stopped code t ↦ returned code (stream.close t)
    | out_of_fuel ↦ Sent.unfinished
  ]

  -- The rest of a frame behind its length. `max_size` is the configured
  -- "tiger.websocket.msgMaxSize", and `cur_len` the length of `data` as an int.
  unfoldable pub recv_payload : ℕ → ℕ → List ℕ → WsFrameHead → ℕ → Io S Round
  recv_payload max_size opcode data' h len =
      let opcode' = if opcode == 0 && not (h.opcode == continue_frame) then h.opcode else opcode in
      let rest : Io S Round = do
        mask ← if h.mask then receive 4 else pure (0 ∷ 0 ∷ 0 ∷ 0 ∷ [])
        bytes ← receive len
        let data'' = data' ++ (if h.mask then apply_mask mask 0 bytes else bytes)
        pure (if h.fin then finished opcode' data'' else again opcode' data'')
      in if leb max_size ((widened_int (length data') + len) % 2 ^ 64) then break else rest

module _ {ℓ} {S : Type ℓ} (stream : Stream S) (platform : Endian) where
  unfoldable pub recv_length : WsFrameHead → Io S ℕ
  recv_length h =
      let short : Io S ℕ = do
        bytes ← receive stream 2
        pure (bswap_on_little_endian platform 2 (object_value platform bytes))
      in let long : Io S ℕ = do
        bytes ← receive stream 8
        pure (bswap_on_little_endian platform 8 (object_value platform bytes))
        in if h.payload == 126 then short else if h.payload == 127 then long else pure h.payload

  -- One round of the loop; `must_mask` is the server's test of the mask bit.
  unfoldable pub recv_frame : Bool → ℕ → ℕ → List ℕ → Io S Round
  recv_frame must_mask max_size opcode data' = do
    bytes ← receive stream 2
    let h = head_of bytes
    let payload : Io S Round = do
      len ← recv_length h
      recv_payload stream max_size opcode data' h len
    let ping' : Io S Round = do pong_or_break stream; pure (again opcode data')
    if h.opcode == ping_frame
        then ping'
        else if h.opcode == pong_frame
        then pure (again opcode data')
        else if (h.opcode == continue_frame) || (h.opcode == text_frame) || (h.opcode == bin_frame)
        then (if must_mask && not h.mask then break else payload)
        else if h.opcode == close_frame
        then break
        else pure (again opcode data')

  -- The loop of recv_message. The fuel is the number of frames it may read.
  unfoldable pub recv_loop : Bool → ℕ → ℕ → ℕ → List ℕ → S → Received S
  recv_loop must_mask max_size zero opcode data' s = Received.unfinished
  recv_loop must_mask max_size (suc fuel) opcode data' s =
      elim (recv_frame must_mask max_size opcode data' s) [
        | go (again opcode' data'') t ↦ recv_loop must_mask max_size fuel opcode' data'' t
        | go (finished opcode' data'') t ↦ message opcode' data'' t
        | break t ↦ closed (stream.close t)
        | stuck ↦ Received.unfinished
      ]

  -- WSSession::recv_message and WSConnection::recv_message.
  unfoldable pub session_recv_message : ℕ → ℕ → S → Received S
  session_recv_message max_size fuel s = recv_loop true max_size fuel 0 [] s

  unfoldable pub connection_recv_message : ℕ → ℕ → S → Received S
  connection_recv_message max_size fuel s = recv_loop false max_size fuel 0 [] s

  -- The body of send_message: head, length, the client's mask, and the data.
  unfoldable pub send_frame : Option (List ℕ) → ℕ → List ℕ → Bool → Io S ℕ
  send_frame none opcode data' fin = do
    transmit stream (head_bytes (new_head opcode fin (payload_code (length data')) false))
    if ltb (length data') 126
        then pure tt
        else transmit stream (length_bytes platform (length data'))
    transmit stream data'
    pure (length data' + 2)
  send_frame (some mask) opcode data' fin = do
    transmit stream (head_bytes (new_head opcode fin (payload_code (length data')) true))
    if ltb (length data') 126
        then pure tt
        else transmit stream (length_bytes platform (length data'))
    transmit stream mask
    transmit stream (apply_mask mask 0 data')
    pure (length data' + 2)

  -- send_message: the size of the data and the head, or -1 on a stream that it has closed.
  unfoldable pub send_message : Option (List ℕ) → ℕ → List ℕ → Bool → S → Sent S
  send_message mask opcode data' fin s = elim (send_frame mask opcode data' fin s) [
    | go n t ↦ returned (pos n) t
    | break t ↦ returned (negsuc 0) (stream.close t)
    | stuck ↦ Sent.unfinished
  ]

  -- WSSession::send_message, and WSConnection::send_message with the four bytes of `rand()`.
  unfoldable pub session_send_message : ℕ → List ℕ → Bool → S → Sent S
  session_send_message opcode data' fin s = send_message none opcode data' fin s

  unfoldable pub connection_send_message : List ℕ → ℕ → List ℕ → Bool → S → Sent S
  connection_send_message mask opcode data' fin s = send_message (some mask) opcode data' fin s

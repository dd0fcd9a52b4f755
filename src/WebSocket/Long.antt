-- ===== src/WebSocket/Long.antt =====
-- src/servers/http/ws_session.cc and src/servers/http/ws_connection.cc: the messages that do not arrive,
-- empty ones and those of 65536 bytes or more.
use tiger.Base.{ℕ, ◌≡◌, refl, arith}
use tiger.Base.{Bool, false, List, [], ◌++◌, none}
use tiger.Base.Int.{negsuc}
use tiger.ByteArray.Defs.{Endian}
use tiger.ByteArray.Typed.{object_bytes, object_value}
use tiger.Stream.Loops.{Stream, write_fixed_size}
use tiger.Stream.Reliable.{IsReliable}
use tiger.WebSocket.Frame.{
  head_bytes, new_head, bswap_on_little_endian, bswap_on_big_endian, payload_code,
}
use tiger.WebSocket.Wire.{Sends, transmit-Sends}
use tiger.WebSocket.Session.{
  go, break, ◌>>=◌, returned, send_message, session_send_message, send_frame, transmit,
}

-- The length that the receiver of a long message reads.
read_length : Endian → ℕ → ℕ
read_length platform size =
    bswap_on_little_endian platform 8
      (object_value platform (object_bytes platform 8 (bswap_on_big_endian platform 8 size)))

module _ {ℓ} {S : Type ℓ} (stream : Stream S) (r : IsReliable stream) (platform : Endian) where
  open r use {pending, sent}

  transmit-empty : (s : S) → transmit stream [] s ≡ break s
  unfolding transmit write_fixed_size
  transmit-empty s = refl

  send_frame-empty :
      (op : ℕ) (fin : Bool) (s t : S)
      → transmit stream (head_bytes (new_head op fin 0 false)) s ≡ go tt t
      → send_frame stream platform none op [] fin s ≡ break t
  unfolding send_frame payload_code
  send_frame-empty op fin s t e = rw (e, ◌>>=◌) (rw (transmit-empty t, ◌>>=◌) refl)

  -- A server's send_message of an empty text sends the head of a frame, and then gives -1 and closes
  -- the stream.
  pub send_message_empty :
      (op : ℕ) (fin : Bool) (s : S)
      → (t : S) × (session_send_message stream platform op [] fin s
          ≡ returned (negsuc 0) (stream.close t))
        × (sent t ≡ sent s ++ head_bytes (new_head op fin 0 false))
  unfolding session_send_message send_message Sends
  send_message_empty op fin s =
      let (t, first, out, kept) =
        transmit-Sends stream r (head_bytes (new_head op fin 0 false))
          (unfold head_bytes in omega arith) (unfold head_bytes in omega arith) s in
      (t, rw (send_frame-empty op fin s t first, send_message) refl, out)

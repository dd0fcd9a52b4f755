-- ===== src/WebSocket/Message.antt =====
-- src/servers/http/ws_session.cc and src/servers/http/ws_connection.cc: whole messages, in one frame or
-- in several, from a sender's stream to a receiver's.
use tiger.Base.{ℕ, zero, suc, ◌+◌, ◌%◌, ◌^◌, ◌≤◌, ◌<◌, ◌≡◌, refl, ap, ◌∙◌, arith}
use tiger.Base.{Bool, true, false, not, ◌&&◌, List, [], ◌∷◌, ◌++◌, Option, some, All}
use tiger.Base.{ap₂, length, length-append}
use tiger.Base.Int.{pos}
use mathlib.Core.List.{append_assoc}
use tiger.ByteArray.Defs.{Endian}
use tiger.ByteArray.Order.{IsByte}
use tiger.Stream.Loops.{Stream}
use tiger.Stream.Reliable.{IsReliable}
use tiger.WebSocket.Wire.{frame_wire, is_masked, IsMask, send_message_lem}
use tiger.WebSocket.Session.{
  go, again, finished, message, returned, recv_frame, recv_loop, session_recv_message,
  connection_send_message,
}
use tiger.WebSocket.Steps.{Takes}
use tiger.WebSocket.Receive.{next_opcode, round, recv_frame-Takes}

-- A frame's payload and its mask.
pub record Fragment : Type 0 where
  pub bytes : List ℕ
  pub mask : Option (List ℕ)

-- What a receiver takes: some bytes, less than 65536, with a mask where it must have one.
pub record IsFragment (must_mask : Bool) (f : Fragment) : Type 0 where
  pub some_bytes : 0 < length f.bytes
  pub short : length f.bytes < 65536
  pub bytes-IsByte : All IsByte f.bytes
  pub mask-IsMask : IsMask f.mask
  pub as_wanted : (must_mask && not (is_masked f.mask)) ≡ false

-- The frames of a message: the first one has the opcode, the others are CONTINUE, and the last one
-- has the bit `fin`.
unfoldable pub message_wire : Endian → ℕ → Fragment → List Fragment → List ℕ
message_wire platform op f [] = frame_wire platform f.mask op f.bytes true
message_wire platform op f (g ∷ gs) =
    frame_wire platform f.mask op f.bytes false ++ message_wire platform 0 g gs

unfoldable pub message_bytes : Fragment → List Fragment → List ℕ
message_bytes f [] = f.bytes
message_bytes f (g ∷ gs) = f.bytes ++ message_bytes g gs

next_opcode-zero : (opcode : ℕ) → next_opcode opcode 0 ≡ opcode
unfolding next_opcode
next_opcode-zero opcode = ground arith

next_opcode_first : (op : ℕ) → next_opcode 0 op ≡ op
unfolding next_opcode
next_opcode_first op = ground arith

module _ {ℓ} {S : Type ℓ} (stream : Stream S) (r : IsReliable stream) (platform : Endian) where
  open r use {pending, sent}

  recv_loop-again :
      (must_mask : Bool) (max_size fuel opcode opcode' : ℕ) (bytes bytes' : List ℕ) (s t : S)
      → recv_frame stream platform must_mask max_size opcode bytes s ≡ go (again opcode' bytes') t
      → recv_loop stream platform must_mask max_size (suc fuel) opcode bytes s
        ≡ recv_loop stream platform must_mask max_size fuel opcode' bytes' t
  unfolding recv_loop
  recv_loop-again must_mask max_size fuel opcode opcode' bytes bytes' s t e = rw (e, recv_loop) refl

  recv_loop-finished :
      (must_mask : Bool) (max_size fuel opcode opcode' : ℕ) (bytes bytes' : List ℕ) (s t : S)
      → recv_frame stream platform must_mask max_size opcode bytes s
        ≡ go (finished opcode' bytes') t
      → recv_loop stream platform must_mask max_size (suc fuel) opcode bytes s
        ≡ message opcode' bytes' t
  unfolding recv_loop
  recv_loop-finished must_mask max_size fuel opcode opcode' bytes bytes' s t e =
      rw (e, recv_loop) refl

  recv_loop_lem :
      (must_mask : Bool) (max_size fuel opcode op : ℕ) (bytes0 : List ℕ) (f : Fragment)
      (fs : List Fragment) (s : S) (rest : List ℕ)
      → op ≤ 2
      → IsFragment must_mask f
      → All (IsFragment must_mask) fs
      → length bytes0 + length (message_bytes f fs) < max_size
      → length bytes0 + length (message_bytes f fs) < 2 ^ 31
      → length fs < fuel
      → pending s ≡ message_wire platform op f fs ++ rest
      → (t : S) × (recv_loop stream platform must_mask max_size fuel opcode bytes0 s
          ≡ message (next_opcode opcode op) (bytes0 ++ message_bytes f fs) t)
        × (pending t ≡ rest)
        × (sent t ≡ sent s)
  unfolding Takes message_wire message_bytes round
  recv_loop_lem must_mask max_size zero opcode op bytes0 f fs s rest o a gs_ok fits big h p =
      absurd (omega arith)
  recv_loop_lem must_mask max_size (suc fuel) opcode op bytes0 f [] s rest o a gs_ok fits big h p =
      let (t, done, left, same) =
        recv_frame-Takes stream r platform must_mask max_size opcode op bytes0 f.bytes true f.mask
          a.some_bytes a.short a.mask-IsMask a.bytes-IsByte o a.as_wanted fits big s rest p in
      (
        t,
        recv_loop-finished must_mask max_size fuel opcode _ bytes0 _ s t done
            ∙ ap (λ n. message (next_opcode opcode n) (bytes0 ++ f.bytes) t) {x = op % 16} {y = op}
                (omega arith),
        left,
        same,
      )
  recv_loop_lem must_mask max_size (suc fuel) opcode op bytes0 f (g ∷ gs) s rest o a gs_ok fits big
        h p =
      let (t, done, left, same) =
        recv_frame-Takes stream r platform must_mask max_size opcode op bytes0 f.bytes false f.mask
          a.some_bytes a.short a.mask-IsMask a.bytes-IsByte o a.as_wanted
          (omega (arith, fits, length-append {0} f.bytes (message_bytes g gs)))
          (omega (arith, big, length-append {0} f.bytes (message_bytes g gs))) s
          (message_wire platform 0 g gs ++ rest)
          (p
            ∙ append_assoc (frame_wire platform f.mask op f.bytes false)
                (message_wire platform 0 g gs) rest) in
      let (u, finish, left', same') =
        recv_loop_lem must_mask max_size fuel (next_opcode opcode (op % 16)) 0 (bytes0 ++ f.bytes) g
          gs t rest (omega arith) gs_ok.0 gs_ok.1
          (omega (
            arith,
            fits,
            length-append {0} f.bytes (message_bytes g gs),
            length-append {0} bytes0 f.bytes,
          ))
          (omega (
            arith,
            big,
            length-append {0} f.bytes (message_bytes g gs),
            length-append {0} bytes0 f.bytes,
          ))
          (omega arith) left in
      (
        u,
        recv_loop-again must_mask max_size fuel opcode _ bytes0 _ s t done
            ∙ finish
            ∙ ap₂ (λ n bs. message n bs u)
                (next_opcode-zero (next_opcode opcode (op % 16))
                  ∙ ap (next_opcode opcode) {x = op % 16} {y = op} (omega arith))
                (append_assoc bytes0 f.bytes (message_bytes g gs)),
        left',
        same' ∙ same,
      )

  -- On a reliable stream that brings the frames of a message, recv_message gives its opcode and its
  -- bytes put together, takes these frames off the stream, and sends nothing. Each frame has between
  -- 1 and 65535 bytes, all of them together fewer than the configured size and than 2^31; a server
  -- wants masks.
  pub recv_message_lem :
      (must_mask : Bool) (max_size fuel op : ℕ) (f : Fragment) (fs : List Fragment) (s : S)
      (rest : List ℕ)
      → op ≤ 2
      → IsFragment must_mask f
      → All (IsFragment must_mask) fs
      → length (message_bytes f fs) < max_size
      → length (message_bytes f fs) < 2 ^ 31
      → length fs < fuel
      → pending s ≡ message_wire platform op f fs ++ rest
      → (t : S) × (recv_loop stream platform must_mask max_size fuel 0 [] s
          ≡ message op (message_bytes f fs) t)
        × (pending t ≡ rest)
        × (sent t ≡ sent s)
  recv_message_lem must_mask max_size fuel op f fs s rest o a gs_ok fits big h p =
      let (t, done, left, same) =
        recv_loop_lem must_mask max_size fuel 0 op [] f fs s rest o a gs_ok (omega arith)
          (omega arith) h p in
      (t, done ∙ ap (λ n. message n (message_bytes f fs) t) (next_opcode_first op), left, same)

-- What a client sends over one reliable stream a server receives over another, when the second one
-- brings what the first one has sent: opcode and bytes are the same. The text has between 1 and 65535
-- bytes, fewer than the server's configured size.
pub message_round_trip {ℓ κ} :
    {S : Type ℓ} {T : Type κ} (client : Stream S) (rc : IsReliable client) (server : Stream T)
    (rs : IsReliable server) (platform : Endian) (max_size op : ℕ) (mask bytes rest : List ℕ)
    (s : S) (u : T)
    → op ≤ 2
    → IsFragment true (record { bytes = bytes; mask = some mask })
    → length bytes < max_size
    → max_size ≤ 2 ^ 32
    → rs.pending u ≡ frame_wire platform (some mask) op bytes true ++ rest
    → (t : S) × (v : T) × (connection_send_message client platform mask op bytes true s
        ≡ returned (pos (length bytes + 2)) t)
      × (rc.sent t ≡ rc.sent s ++ frame_wire platform (some mask) op bytes true)
      × (session_recv_message server platform max_size 1 u ≡ message op bytes v)
      × (rs.pending v ≡ rest)
unfolding connection_send_message session_recv_message message_wire message_bytes
message_round_trip client rc server rs platform max_size op mask bytes rest s u o f fits big p =
    let (t, out, went, kept) =
      send_message_lem client rc platform (some mask) op bytes true s f.some_bytes
        (omega (arith, f.short)) f.mask-IsMask in
    let (v, done, left, same) =
      recv_message_lem server rs platform true max_size 1 op
        (record { bytes = bytes; mask = some mask }) [] u rest o f tt fits
        (unfold message_bytes in omega (arith, f.short)) (omega arith) p in
    (t, v, out, went, done, left)

-- ===== src/Tests/WebSocket.antt =====
-- src/streams/stream.cc, src/servers/http/ws_session.cc and src/servers/http/ws_connection.cc on
-- concrete inputs, over a stream that moves one byte in each call.
use tiger.Base.{ℕ, ◌+◌, true, List, [], ◌∷◌, ◌++◌, some}
use tiger.Base.{◌≡◌, refl, arith, length, take, drop, replicate}
use tiger.Base.Int.{pos, negsuc}
use tiger.ByteArray.Defs.{little}
use tiger.Stream.Loops.{Moved, failed, all, out_of_fuel, read_fixed_size, write_array_loop}
use tiger.Stream.Reliable.{read_fixed_size_lem, write_array_loop-stuck}
use tiger.WebSocket.Session.{
  message, returned, recv_loop, session_recv_message, connection_send_message,
}
use tiger.WebSocket.Wire.{is_masked, frame_wire, IsMask}
use tiger.WebSocket.Message.{
  Fragment, IsFragment, message_wire, message_bytes, recv_message_lem, message_round_trip,
}
use tiger.Tests.Pipe.{Pipe, pipe, pipe-IsReliable}

abbrev key : List ℕ
key = 1 ∷ 2 ∷ 3 ∷ 4 ∷ []

abbrev hi : List ℕ
hi = 104 ∷ 105 ∷ []

read_fixed_size_lem_example :
    (s : Pipe) × (read_fixed_size pipe 2 (7 ∷ 8 ∷ 9 ∷ [], []) ≡ all (take 2 (7 ∷ 8 ∷ 9 ∷ [])) s)
    × (s.0 ≡ drop 2 (7 ∷ 8 ∷ 9 ∷ []))
    × (s.1 ≡ [])
read_fixed_size_lem_example =
    read_fixed_size_lem pipe pipe-IsReliable 2 (7 ∷ 8 ∷ 9 ∷ [], []) (omega arith) (omega arith)

abbrev broken : ℕ → Pipe → Moved ℕ Pipe
broken k p = failed (negsuc 0) p

write_array_loop-stuck_example : write_array_loop broken 50 3 ([], []) ≡ out_of_fuel
write_array_loop-stuck_example =
    write_array_loop-stuck broken 0 50 3 ([], []) (λ k t. refl) (omega arith)

key-IsMask : IsMask (some key)
key-IsMask = unfold IsMask in (refl, omega arith)

abbrev part : Fragment
part = record { bytes = hi; mask = some key }

part-IsFragment : IsFragment true part
unfolding is_masked
part-IsFragment = record {
  some_bytes = omega arith;
  short = omega arith;
  bytes-IsByte = omega arith;
  mask-IsMask = key-IsMask;
  as_wanted = refl;
}

abbrev frames : List ℕ
frames = message_wire little 1 part (part ∷ []) ++ 5 ∷ []

recv_message_lem_example :
    (s : Pipe) × (recv_loop pipe little true 100 2 0 [] (frames, [])
      ≡ message 1 (message_bytes part (part ∷ [])) s)
    × (s.0 ≡ 5 ∷ [])
    × (s.1 ≡ [])
recv_message_lem_example =
    recv_message_lem pipe pipe-IsReliable little true 100 2 1 part (part ∷ []) (frames, []) (5 ∷ [])
      (omega arith) part-IsFragment (part-IsFragment, tt) (unfold message_bytes in omega arith)
      (unfold message_bytes in omega arith) (omega arith) refl

message_round_trip_example :
    (s : Pipe) × (t : Pipe) × (connection_send_message pipe little key 1 hi true ([], [])
      ≡ returned (pos (length hi + 2)) s)
    × (s.1 ≡ [] ++ frame_wire little (some key) 1 hi true)
    × (session_recv_message pipe little 100 1 (frame_wire little (some key) 1 hi true ++ [], [])
        ≡ message 1 hi t)
    × (t.0 ≡ [])
message_round_trip_example =
    message_round_trip pipe pipe-IsReliable pipe pipe-IsReliable little 100 1 key hi [] ([], [])
      (frame_wire little (some key) 1 hi true ++ [], []) (omega arith) part-IsFragment (omega arith)
      (omega arith) refl

abbrev long : List ℕ
long = replicate 65536 7

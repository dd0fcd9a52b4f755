-- ===== src/WebSocket/Frame.antt =====
-- src/servers/http/ws_session.h: the head of a frame in memory, as gcc lays out its bit fields on a
-- little-endian machine; the mask of the payload; and the byte order of the length.
use tiger.Base.{ℕ, ◌+◌, ◌*◌, ◌/◌, ◌%◌, bit_xor, Bool, true, false, List, [], ◌∷◌}
use tiger.Base.{ltb, ◌==◌, if◌then◌else◌, get_or}
use tiger.ByteArray.Defs.{Endian, little, big}
use tiger.ByteArray.Typed.{byteswap, object_bytes}

pub record WsFrameHead : Type 0 where
  pub opcode : ℕ
  pub rsv3 : Bool
  pub rsv2 : Bool
  pub rsv1 : Bool
  pub fin : Bool
  pub payload : ℕ
  pub mask : Bool

-- The opcodes CONTINUE, TEXT_FRAME, BIN_FRAME, CLOSE, PING and PONG.
abbrev pub continue_frame : ℕ
continue_frame = 0

abbrev pub text_frame : ℕ
text_frame = 1

abbrev pub bin_frame : ℕ
bin_frame = 2

abbrev pub close_frame : ℕ
close_frame = 8

abbrev pub ping_frame : ℕ
ping_frame = 9

abbrev pub pong_frame : ℕ
pong_frame = 10

unfoldable pub bit : Bool → ℕ
bit false = 0
bit true = 1

-- The two bytes of a head, and the head that two bytes are.
unfoldable pub head_bytes : WsFrameHead → List ℕ
head_bytes h =
    (h.opcode + 16 * bit h.rsv3 + 32 * bit h.rsv2 + 64 * bit h.rsv1 + 128 * bit h.fin)
    ∷ (h.payload + 128 * bit h.mask)
    ∷ []

unfoldable pub head_of : List ℕ → WsFrameHead
head_of bytes =
    let a = get_or bytes 0 0 in
    let b = get_or bytes 1 0 in
    record {
      opcode = a % 16;
      rsv3 = a / 16 % 2 == 1;
      rsv2 = a / 32 % 2 == 1;
      rsv1 = a / 64 % 2 == 1;
      fin = a / 128 % 2 == 1;
      payload = b % 128;
      mask = b / 128 % 2 == 1;
    }

-- A head with the reserved bits 0, as after `memset`.
unfoldable pub new_head : ℕ → Bool → ℕ → Bool → WsFrameHead
new_head opcode fin payload mask = record {
  opcode = opcode % 16;
  rsv3 = false;
  rsv2 = false;
  rsv1 = false;
  fin = fin;
  payload = payload;
  mask = mask;
}

-- `data[i] ^= mask[i % 4]`, from the byte number `i` on.
unfoldable pub apply_mask : List ℕ → ℕ → List ℕ → List ℕ
apply_mask mask i [] = []
apply_mask mask i (b ∷ bs) = bit_xor b (get_or mask (i % 4) 0) ∷ apply_mask mask (i + 1) bs

-- bswap_on_little_endian and bswap_on_big_endian of endian.h, for `w` bytes.
unfoldable pub bswap_on_little_endian : Endian → ℕ → ℕ → ℕ
bswap_on_little_endian little w v = byteswap w v
bswap_on_little_endian big w v = v

unfoldable pub bswap_on_big_endian : Endian → ℕ → ℕ → ℕ
bswap_on_big_endian little w v = v
bswap_on_big_endian big w v = byteswap w v

-- `ws_head.payload` for a message of this size.
unfoldable pub payload_code : ℕ → ℕ
payload_code size = if ltb size 126 then size else if ltb size 65536 then 126 else 127

-- What send_message writes behind the head for the length.
unfoldable pub length_bytes : Endian → ℕ → List ℕ
unfolding payload_code bswap_on_little_endian bswap_on_big_endian
length_bytes platform size =
    if payload_code size == 126
    then object_bytes platform 2 (bswap_on_little_endian platform 2 size)
    else if payload_code size == 127
    then object_bytes platform 8 (bswap_on_big_endian platform 8 size)
    else []

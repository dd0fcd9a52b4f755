-- ===== src/ByteArray/Typed.antt =====
-- src/bytearray.cc and src/endian.h: the typed writes and reads.
-- `platform` is __TIGER_BYTE_ORDER, the order in which the machine keeps the bytes of an integer.
-- A signed integer is written as its two's complement pattern.
use tiger.Base.{ℕ, zero, suc, ◌+◌, ◌-◌, ◌*◌, ◌/◌, ◌%◌, ◌^◌, bit_and, bit_or, bit_xor}
use tiger.Base.{List, [], ◌∷◌, ltb, leb, if◌then◌else◌, length}
use tiger.Base.Int.{ℤ, pos, negsuc}
use mathlib.Core.List.{reverse}
use tiger.ByteArray.Defs.{Endian, little, big, M, ◌>>=◌, ◌>>◌, pure, same_endian}
use tiger.ByteArray.Access.{write, read}

-- The `w` bytes of an integer, the lowest first, and the integer of such bytes.
unfoldable pub le_bytes : ℕ → ℕ → List ℕ
le_bytes zero v = []
le_bytes (suc w) v = (v % 256) ∷ le_bytes w (v / 256)

unfoldable pub of_le_bytes : List ℕ → ℕ
of_le_bytes [] = 0
of_le_bytes (b ∷ bs) = b + 256 * of_le_bytes bs

-- The memory of an integer variable, and the variable with such memory.
unfoldable pub object_bytes : Endian → ℕ → ℕ → List ℕ
object_bytes little w v = le_bytes w v
object_bytes big w v = reverse (le_bytes w v)

unfoldable pub object_value : Endian → List ℕ → ℕ
object_value little bytes = of_le_bytes bytes
object_value big bytes = of_le_bytes (reverse bytes)

-- `byteswap` of endian.h, for a `w`-byte integer: bswap_16, bswap_32, bswap_64.
unfoldable pub byteswap : ℕ → ℕ → ℕ
byteswap w v = of_le_bytes (reverse (le_bytes w v))

-- The two's complement pattern of `w` bytes, and the integer that one stands for.
unfoldable pub to_pattern : ℕ → ℤ → ℕ
to_pattern w (pos n) = n
to_pattern w (negsuc n) = 256 ^ w - 1 - n

unfoldable pub of_pattern : ℕ → ℕ → ℤ
of_pattern w v = if ltb (2 * v) (256 ^ w) then pos v else negsuc (256 ^ w - 1 - v)

-- The common body of the fixed-width methods for `w` bytes.
unfoldable pub write_fixed : Endian → ℕ → ℕ → M (Unit {0})
write_fixed platform w v s =
    write (object_bytes platform w (if same_endian s.endian platform then v else byteswap w v)) s

unfoldable pub read_fixed : Endian → ℕ → M ℕ
read_fixed platform w s =
    (do
      bytes ← read w
      let v = object_value platform bytes
      pure (if same_endian s.endian platform then v else byteswap w v))
      s

unfoldable pub write_fixed_uint8 : ℕ → M (Unit {0})
write_fixed_uint8 v = write (v ∷ [])

unfoldable pub write_fixed_int8 : ℤ → M (Unit {0})
write_fixed_int8 v = write (to_pattern 1 v ∷ [])

unfoldable pub read_fixed_uint8 : M ℕ
read_fixed_uint8 = do bytes ← read 1; pure (of_le_bytes bytes)

unfoldable pub read_fixed_int8 : M ℤ
read_fixed_int8 = do v ← read_fixed_uint8; pure (of_pattern 1 v)

module _ (platform : Endian) where
  unfoldable pub write_fixed_uint16 : ℕ → M (Unit {0})
  write_fixed_uint16 v = write_fixed platform 2 v

  unfoldable pub write_fixed_uint32 : ℕ → M (Unit {0})
  write_fixed_uint32 v = write_fixed platform 4 v

  unfoldable pub write_fixed_uint64 : ℕ → M (Unit {0})
  write_fixed_uint64 v = write_fixed platform 8 v

  unfoldable pub write_fixed_int16 : ℤ → M (Unit {0})
  write_fixed_int16 v = write_fixed platform 2 (to_pattern 2 v)

  unfoldable pub write_fixed_int32 : ℤ → M (Unit {0})
  write_fixed_int32 v = write_fixed platform 4 (to_pattern 4 v)

  unfoldable pub write_fixed_int64 : ℤ → M (Unit {0})
  write_fixed_int64 v = write_fixed platform 8 (to_pattern 8 v)

  unfoldable pub read_fixed_uint16 : M ℕ
  read_fixed_uint16 = read_fixed platform 2

  unfoldable pub read_fixed_uint32 : M ℕ
  read_fixed_uint32 = read_fixed platform 4

  unfoldable pub read_fixed_uint64 : M ℕ
  read_fixed_uint64 = read_fixed platform 8

  unfoldable pub read_fixed_int16 : M ℤ
  read_fixed_int16 = do v ← read_fixed platform 2; pure (of_pattern 2 v)

  unfoldable pub read_fixed_int32 : M ℤ
  read_fixed_int32 = do v ← read_fixed platform 4; pure (of_pattern 4 v)

  unfoldable pub read_fixed_int64 : M ℤ
  read_fixed_int64 = do v ← read_fixed platform 8; pure (of_pattern 8 v)

-- Encode_Zigzag: `((uint32_t)(-v) << 1) - 1` for a negative `v`, and `v << 1` otherwise; `bits` is
-- 32 or 64. On the least integer the code relies on `-v` wrapping.
unfoldable pub encode_zigzag : ℕ → ℤ → ℕ
encode_zigzag bits (pos n) = 2 * n % 2 ^ bits
encode_zigzag bits (negsuc n) = (2 * (n + 1) % 2 ^ bits + 2 ^ bits - 1) % 2 ^ bits

-- Decode_Zigzag: `(v >> 1) ^ -(v & 1)`, as a pattern of `w` bytes.
unfoldable pub decode_zigzag : ℕ → ℕ → ℤ
decode_zigzag w v = of_pattern w (bit_xor (v / 2) ((256 ^ w - bit_and v 1) % 256 ^ w))

-- The loop of write_uint32 and write_uint64: the bytes that it leaves in `tmp`. The fuel is the
-- length of `tmp`; `none` of the rounds may go past it.
unfoldable pub varint_bytes : ℕ → ℕ → List ℕ
varint_bytes zero v = []
varint_bytes (suc fuel) v =
    let rest = bit_or (bit_and v 0x7f) 0x80 ∷ varint_bytes fuel (v / 128) in
    if leb 0x80 v then rest else (v % 256) ∷ []

unfoldable pub write_uint32 : ℕ → M (Unit {0})
write_uint32 v = write (varint_bytes 5 v)

unfoldable pub write_uint64 : ℕ → M (Unit {0})
write_uint64 v = write (varint_bytes 10 v)

unfoldable pub write_int32 : ℤ → M (Unit {0})
write_int32 v = write_uint32 (encode_zigzag 32 v)

unfoldable pub write_int64 : ℤ → M (Unit {0})
write_int64 v = write_uint64 (encode_zigzag 64 v)

-- The loop of read_uint32 and read_uint64, with the rounds that are left: `i` goes up by 7 while it
-- is below the `bits` of the result.
unfoldable pub read_varint_loop : ℕ → ℕ → ℕ → ℕ → M ℕ
read_varint_loop bits zero i v = pure v
read_varint_loop bits (suc rounds) i v = do
  b ← read_fixed_uint8
  if ltb b 0x80
      then pure (bit_or v (b * 2 ^ i % 2 ^ bits))
      else read_varint_loop bits rounds (i + 7) (bit_or v (bit_and b 0x7f * 2 ^ i % 2 ^ bits))

-- `i` is 0, 7, 14, 21, 28.
unfoldable pub read_uint32 : M ℕ
read_uint32 = read_varint_loop 32 5 0 0

-- `i` is 0, 7, and so on up to 63.
unfoldable pub read_uint64 : M ℕ
read_uint64 = read_varint_loop 64 10 0 0

unfoldable pub read_int32 : M ℤ
read_int32 = do v ← read_uint32; pure (decode_zigzag 4 v)

unfoldable pub read_int64 : M ℤ
read_int64 = do v ← read_uint64; pure (decode_zigzag 8 v)

-- A text is the list of its bytes. The length is cut to the width of its field, the text is not.
module _ (platform : Endian) where
  unfoldable pub write_fixed_str16 : List ℕ → M (Unit {0})
  write_fixed_str16 v = do write_fixed_uint16 platform (length v % 2 ^ 16); write v

  unfoldable pub write_fixed_str32 : List ℕ → M (Unit {0})
  write_fixed_str32 v = do write_fixed_uint32 platform (length v % 2 ^ 32); write v

  unfoldable pub write_fixed_str64 : List ℕ → M (Unit {0})
  write_fixed_str64 v = do write_fixed_uint64 platform (length v % 2 ^ 64); write v

  unfoldable pub read_fixed_str16 : M (List ℕ)
  read_fixed_str16 = do len ← read_fixed_uint16 platform; read len

  unfoldable pub read_fixed_str32 : M (List ℕ)
  read_fixed_str32 = do len ← read_fixed_uint32 platform; read len

  unfoldable pub read_fixed_str64 : M (List ℕ)
  read_fixed_str64 = do len ← read_fixed_uint64 platform; read len

unfoldable pub write_str : List ℕ → M (Unit {0})
write_str v = do write_uint64 (length v % 2 ^ 64); write v

unfoldable pub write_str_without_len : List ℕ → M (Unit {0})
write_str_without_len v = write v

unfoldable pub read_str : M (List ℕ)
read_str = do len ← read_uint64; read len

-- ===== src/Tests/ByteArray.antt =====
-- src/bytearray.cc on concrete inputs: blocks of four bytes.
use tiger.ByteArray.Typed.{byteswap, le_bytes, of_le_bytes}
use tiger.ByteArray.Defs.{Outcome, fault, out_of_fuel}
use tiger.Base.{◌-◌, Option, some, none}
use tiger.Base.{ℕ, ◌+◌, ◌^◌, ◌≡◌, refl, arith, List, [], ◌∷◌}
use tiger.Base.{length}
use tiger.Base.Int.{pos, negsuc}
use tiger.ByteArray.Defs.{little, big, Node, ByteArray, ok, out_of_range, ◌>>◌, slice, new}
use tiger.ByteArray.Access.{write, read, read_at, set_position}
use tiger.ByteArray.Memory.{peek}
use tiger.ByteArray.Valid.{IsValid}
use tiger.ByteArray.WriteCall.{Wrote, write_lem}
use tiger.ByteArray.Read.{ReadTo, read_lem}
use tiger.ByteArray.Seek.{Placed, new-IsValid, set_position_lem}
use tiger.ByteArray.ReadAt.{read_at_lem}
use tiger.ByteArray.Typed.{
  object_bytes, varint_bytes, write_fixed, read_fixed, encode_zigzag, write_uint64, read_uint64,
  write_int64, read_int64,
}
use tiger.ByteArray.Fixed.{read_fixed-write_fixed}
use tiger.ByteArray.Varint.{read_uint64-write_uint64}
use tiger.ByteArray.Zigzag.{read_int64-write_int64}

abbrev heap : ℕ → ℕ → ℕ
heap k a = 0xcd

abbrev fresh : ByteArray
fresh = new heap 4

fresh-IsValid : IsValid fresh
fresh-IsValid = new-IsValid heap 4 (omega arith)

abbrev block : ℕ → Node
block k = record { ptr = λ a. k + a; size = 4 }

abbrev text : List ℕ
text = 5 ∷ 6 ∷ 7 ∷ []

-- Six bytes in four blocks, read up to the second.
abbrev loaded : ByteArray
loaded = record {
  base_size = 4;
  position = 1;
  capacity = 12;
  size = 6;
  endian = big;
  nodes = block 10 ∷ block 20 ∷ block 30 ∷ block 40 ∷ [];
  cur = 0;
  heap = heap;
}

loaded-IsValid : IsValid loaded
loaded-IsValid = record {
  layout = record {
    base_pos = omega arith;
    sizes = omega arith;
    start = omega arith;
    stop = omega arith;
    inside = omega arith;
  };
  position_le = omega arith;
  size_le = omega arith;
  capacity_le = omega arith;
  size_inside = omega arith;
}

abbrev result {ℓ} : {A : Type ℓ} → Outcome A → Option A
result (ok a s) = some a
result (out_of_range s) = none
result fault = none
result out_of_fuel = none

-- Seven bytes written over two blocks, and read back.
across_blocks :
    result ((do write (1 ∷ 2 ∷ 3 ∷ 4 ∷ 5 ∷ 6 ∷ 7 ∷ []); set_position 2; read 4) fresh)
    ≡ some (3 ∷ 4 ∷ 5 ∷ 6 ∷ [])
unfolding new write read set_position
across_blocks = refl

too_far : read 6 loaded ≡ out_of_range loaded
unfolding read
too_far = refl

-- 300 is 0x012c: big first by default, on a little machine.
big_first :
    result ((do write_fixed little 2 300; set_position 0; read 2) fresh) ≡ some (1 ∷ 44 ∷ [])
unfolding new write_fixed write set_position read object_bytes byteswap le_bytes of_le_bytes
big_first = refl

varint_300 : varint_bytes 10 300 ≡ 172 ∷ 2 ∷ []
unfolding varint_bytes
varint_300 = refl

zigzag_codes :
    encode_zigzag 32 (negsuc 0)
      ∷ encode_zigzag 32 (pos 1)
      ∷ encode_zigzag 32 (negsuc (2 ^ 31 - 1))
      ∷ []
    ≡ 1 ∷ 2 ∷ (2 ^ 32 - 1) ∷ []
unfolding encode_zigzag
zigzag_codes = refl

write_lem_example :
    (t : ByteArray) × (write (7 ∷ 8 ∷ 9 ∷ 10 ∷ []) loaded ≡ ok tt t)
    × Wrote loaded (7 ∷ 8 ∷ 9 ∷ 10 ∷ []) t
write_lem_example = write_lem (7 ∷ 8 ∷ 9 ∷ 10 ∷ []) loaded loaded-IsValid

read_lem_example :
    (t : ByteArray) × (read 4 loaded ≡ ok (slice (peek loaded.nodes) 1 4) t)
    × IsValid t
    × ReadTo loaded 4 t
read_lem_example = read_lem 4 loaded loaded-IsValid (omega arith)

read_at_lem_example : read_at 3 2 loaded ≡ ok (slice (peek loaded.nodes) 2 3) loaded
read_at_lem_example = read_at_lem 3 2 loaded loaded-IsValid (omega arith)

set_position_lem_example : (t : ByteArray) × (set_position 8 loaded ≡ ok tt t) × Placed loaded 8 t
set_position_lem_example = set_position_lem 8 loaded loaded-IsValid (omega arith) (omega arith)

read_fixed-write_fixed_example :
    (r : ByteArray) × ((do write_fixed little 4 77; set_position 1; read_fixed little 4) loaded
      ≡ ok 77 r)
    × IsValid r
    × (r.position ≡ 5)
read_fixed-write_fixed_example =
    read_fixed-write_fixed little 4 77 loaded loaded-IsValid (omega arith)

read_uint64-write_uint64_example :
    (r : ByteArray) × ((do write_uint64 300; set_position 1; read_uint64) loaded ≡ ok 300 r)
    × IsValid r
    × (r.position ≡ 1 + length (varint_bytes 10 300))
read_uint64-write_uint64_example = read_uint64-write_uint64 300 loaded loaded-IsValid (omega arith)

read_int64-write_int64_example :
    (r : ByteArray) × ((do write_int64 (negsuc 299); set_position 1; read_int64) loaded
      ≡ ok (negsuc 299) r)
    × IsValid r
    × (r.position ≡ 1 + length (varint_bytes 10 (encode_zigzag 64 (negsuc 299))))
read_int64-write_int64_example =
    read_int64-write_int64 (negsuc 299) loaded loaded-IsValid (omega arith)

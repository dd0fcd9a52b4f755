-- ===== src/Stream/Loops.antt =====
-- src/streams/stream.h and src/streams/stream.cc: the class Stream and its fixed-size loops.
-- The virtual methods are the record `Stream`, over the state `S` of what is behind the stream. A
-- result of zero or below is `failed`. A loop's fuel is the number of bytes that are left.
use tiger.Base.{ℕ, zero, suc, ◌+◌, ◌-◌, ◌%◌, ◌^◌, List, [], ◌∷◌, ◌++◌, length, drop}
use tiger.Base.{Bool, ◌||◌, ◌&&◌, ltb, ◌==◌, if◌then◌else◌}
use tiger.Base.Int.{ℤ, pos, negsuc, int_of}

-- What one call did: it moved something, one byte at least, or nothing, with the code it returned.
pub data Moved {ℓ} (A : Type 0) (S : Type ℓ) : Type ℓ where
  moved : A → S → Moved A S
  failed : ℤ → S → Moved A S

pub record Stream {ℓ} (S : Type ℓ) : Type ℓ where
  -- `read(buffer, len)`: the bytes that it put into the buffer.
  pub read : ℕ → S → Moved (List ℕ) S
  -- `write(buffer, len)`: how many of the bytes it took.
  pub write : List ℕ → S → Moved ℕ S
  pub close : S → S

-- The result of a loop: all of it, the code that is returned otherwise, or no fuel left.
pub data Fixed {ℓ} (A : Type 0) (S : Type ℓ) : Type ℓ where
  all : A → S → Fixed A S
  stopped : ℤ → S → Fixed A S
  out_of_fuel : Fixed A S

-- `int64_t left = len` for a size_t; the loop does not begin when it is negative.
unfoldable pub left_of : ℕ → ℕ
left_of len = if ltb (len % 2 ^ 64) (2 ^ 63) then len % 2 ^ 64 else 0

-- `return len` from a function that gives an int: a code that is not above zero, for a length that is
-- not zero, is no success to those who call.
unfoldable pub is_success : ℕ → Bool
is_success len = len == 0 || (ltb 0 (len % 2 ^ 32) && ltb (len % 2 ^ 32) (2 ^ 31))

unfoldable pub return_len {ℓ} : {A : Type 0} {S : Type ℓ} → ℕ → Fixed A S → Fixed A S
unfolding is_success
return_len len (all a s) = if is_success len then all a s else stopped (int_of len) s
return_len len (stopped code s) = stopped code s
return_len len out_of_fuel = out_of_fuel

module _ {ℓ} {S : Type ℓ} (stream : Stream S) where
  -- `buffer` holds what has been read.
  unfoldable pub read_loop : ℕ → ℕ → List ℕ → S → Fixed (List ℕ) S
  read_loop fuel zero buffer s = all buffer s
  read_loop zero (suc left) buffer s = out_of_fuel
  read_loop (suc fuel) (suc left) buffer s = elim (stream.read (suc left) s) [
    | failed code s' ↦ stopped code s'
    | moved bytes s' ↦ read_loop fuel (suc left - length bytes) (buffer ++ bytes) s'
  ]

  unfoldable pub read_fixed_size : ℕ → S → Fixed (List ℕ) S
  unfolding read_loop return_len left_of
  read_fixed_size len s = return_len len (read_loop (left_of len) (left_of len) [] s)

  unfoldable pub write_loop : ℕ → List ℕ → S → Fixed (Unit {0}) S
  write_loop fuel [] s = all tt s
  write_loop zero (b ∷ bs) s = out_of_fuel
  write_loop (suc fuel) (b ∷ bs) s = elim (stream.write (b ∷ bs) s) [
    | failed code s' ↦ stopped code s'
    | moved n s' ↦ write_loop fuel (drop n (b ∷ bs)) s'
  ]

  unfoldable pub write_fixed_size : List ℕ → S → Fixed (Unit {0}) S
  unfolding write_loop return_len
  write_fixed_size buffer s = return_len (length buffer) (write_loop (length buffer) buffer s)

-- The loops on a ByteArray see only how many bytes each call moved; `call` is the virtual method
-- `read(ba, left)` or `write(ba, left)`.
module _ {ℓ} {S : Type ℓ} (call : ℕ → S → Moved ℕ S) where
  unfoldable pub read_array_loop : ℕ → ℕ → S → Fixed (Unit {0}) S
  read_array_loop fuel zero s = all tt s
  read_array_loop zero (suc left) s = out_of_fuel
  read_array_loop (suc fuel) (suc left) s = elim (call (suc left) s) [
    | failed code s' ↦ stopped code s'
    | moved n s' ↦ read_array_loop fuel (suc left - n) s'
  ]

  -- `left -= write_len` for a code of zero or below.
  unfoldable pub give_back : ℕ → ℤ → ℕ
  give_back left (pos n) = left - n
  give_back left (negsuc n) = left + n + 1

  -- The test behind the call is `len <= 0`, which is false in the loop.
  unfoldable pub write_array_loop : ℕ → ℕ → S → Fixed (Unit {0}) S
  unfolding give_back
  write_array_loop fuel zero s = all tt s
  write_array_loop zero (suc left) s = out_of_fuel
  write_array_loop (suc fuel) (suc left) s = elim (call (suc left) s) [
    | failed code s' ↦ write_array_loop fuel (give_back (suc left) code) s'
    | moved n s' ↦ write_array_loop fuel (suc left - n) s'
  ]

-- ===== src/Stream/Reliable.antt =====
-- src/streams/stream.cc: a stream that delivers, and what the loops do on it.
use tiger.Base.{ℕ, zero, suc, ◌+◌, ◌-◌, ◌^◌, ◌≤◌, ◌<◌, ◌≡◌, refl, sym, ap, ◌∙◌, arith, true, lt→ltb}
use native.Mathlib.Nat.{mod-eq_of_lt}
use tiger.Base.{List, [], ◌∷◌, ◌++◌, length, take, drop, take-append-drop, length-take, length-drop}
use mathlib.Core.List.{append-nil, append_assoc}
use tiger.Base.Int.{negsuc}
use tiger.Stream.Loops.{
  Moved, moved, failed, Stream, all, out_of_fuel, read_loop, read_fixed_size, write_loop,
  write_fixed_size, write_array_loop, give_back, left_of, is_success, return_len,
}

-- Bytes are on their way to the stream, and it has sent bytes. A call of `read` gives some of the
-- first ones, at least one if there are any, and a call of `write` takes some of the first ones of
-- its buffer, at least one. How many is not known.
pub record IsReliable {ℓ} {S : Type ℓ} (stream : Stream S) : Type ℓ where
  pub pending : S → List ℕ
  pub sent : S → List ℕ
  pub read_some :
      (k : ℕ) (s : S)
      → 0 < k
      → 0 < length (pending s)
      → (n : ℕ) × (s' : S) × (0 < n)
        × (n ≤ k)
        × (n ≤ length (pending s))
        × (stream.read k s ≡ moved (take n (pending s)) s')
        × (pending s' ≡ drop n (pending s))
        × (sent s' ≡ sent s)
  pub write_some :
      (buffer : List ℕ) (s : S)
      → 0 < length buffer
      → (n : ℕ) × (s' : S) × (0 < n)
        × (n ≤ length buffer)
        × (stream.write buffer s ≡ moved n s')
        × (sent s' ≡ sent s ++ take n buffer)
        × (pending s' ≡ pending s)

take-nil : (n : ℕ) → take {A = ℕ} n [] ≡ []
take-nil zero = refl
take-nil (suc n) = refl

drop-nil : (n : ℕ) → drop {A = ℕ} n [] ≡ []
drop-nil zero = refl
drop-nil (suc n) = refl

pub take-drop_split :
    (n m : ℕ) (xs : List ℕ) → n ≤ m → take n xs ++ take (m - n) (drop n xs) ≡ take m xs
take-drop_split zero m xs h = ap (λ k. take k xs) {x = m - 0} {y = m} (omega arith)
take-drop_split (suc n) zero xs h = absurd (omega arith)
take-drop_split (suc n) (suc m) [] h = take-nil (suc m - suc n)
take-drop_split (suc n) (suc m) (x ∷ xs) h = ap (◌∷◌ x) (
    ap (λ k. take n xs ++ take k (drop n xs)) {x = suc m - suc n} {y = m - n} (omega arith)
    ∙ take-drop_split n m xs (omega arith))

pub drop-drop : (n m : ℕ) (xs : List ℕ) → n ≤ m → drop (m - n) (drop n xs) ≡ drop m xs
drop-drop zero m xs h = ap (λ k. drop k xs) {x = m - 0} {y = m} (omega arith)
drop-drop (suc n) zero xs h = absurd (omega arith)
drop-drop (suc n) (suc m) [] h = drop-nil (suc m - suc n)
drop-drop (suc n) (suc m) (x ∷ xs) h =
    ap (λ k. drop k (drop n xs)) {x = suc m - suc n} {y = m - n} (omega arith)
    ∙ drop-drop n m xs (omega arith)

left_of_small : (len : ℕ) → len < 2 ^ 31 → left_of len ≡ len
unfolding left_of
left_of_small len h =
    rw (mod-eq_of_lt {n = len} {m = 2 ^ 64} (omega arith), lt→ltb len (2 ^ 63) (omega arith)) refl

is_success_small : (len : ℕ) → len < 2 ^ 31 → is_success len ≡ true
unfolding is_success
is_success_small zero h = refl
is_success_small (suc len) h =
    rw (mod-eq_of_lt {n = suc len} {m = 2 ^ 32} (omega arith), lt→ltb (suc len) (2 ^ 31) h)
      (ground arith)

-- An int holds a length below 2^31.
return_len_small {ℓ} :
    {A : Type 0} {S : Type ℓ} (len : ℕ) (a : A) (s : S)
    → len < 2 ^ 31
    → return_len len (all a s) ≡ all a s
unfolding return_len
return_len_small len a s h = rw (return_len, is_success_small len h) refl

module _ {ℓ} {S : Type ℓ} (stream : Stream S) (r : IsReliable stream) where
  open r use {pending, sent, read_some, write_some}

  -- One round of `read_fixed_size`.
  read_round :
      (fuel left n : ℕ) (buffer bytes : List ℕ) (s s' : S)
      → stream.read (suc left) s ≡ moved bytes s'
      → length bytes ≡ n
      → read_loop stream (suc fuel) (suc left) buffer s
        ≡ read_loop stream fuel (suc left - n) (buffer ++ bytes) s'
  unfolding read_loop
  read_round fuel left n buffer bytes s s' e f = rw (e, read_loop) (rw f refl)

  read_loop_lem :
      (fuel left : ℕ) (buffer : List ℕ) (s : S)
      → left ≤ fuel
      → left ≤ length (pending s)
      → (s' : S) × (read_loop stream fuel left buffer s ≡ all (buffer ++ take left (pending s)) s')
        × (pending s' ≡ drop left (pending s))
        × (sent s' ≡ sent s)
  read_loop_lem fuel zero buffer s h k =
      (s, unfold read_loop in ap (λ b. all b s) (sym (append-nil buffer)), refl, refl)
  read_loop_lem zero (suc left) buffer s h k = absurd (omega arith)
  read_loop_lem (suc fuel) (suc left) buffer s h k =
      let (n, s1, some_bytes, few, held, got, rest, same) =
        read_some (suc left) s (omega arith) (omega arith) in
      let count : length (take n (pending s)) ≡ n =
        omega (arith, held, length-take {0} n (pending s)) in
      let (s2, done, after, kept) =
        read_loop_lem fuel (suc left - n) (buffer ++ take n (pending s)) s1 (omega arith)
          (omega (arith, held, ap length rest, length-drop {0} n (pending s))) in
      (
        s2,
        read_round fuel left n buffer (take n (pending s)) s s1 got count
            ∙ done
            ∙ ap (λ b. all b s2)
                (append_assoc buffer (take n (pending s)) (take (suc left - n) (pending s1))
                  ∙ ap (◌++◌ buffer) (
                      ap (λ p. take n (pending s) ++ take (suc left - n) p) rest
                      ∙ take-drop_split n (suc left) (pending s) few)),
        after ∙ ap (drop (suc left - n)) rest ∙ drop-drop n (suc left) (pending s) few,
        kept ∙ same,
      )

  -- On a reliable stream with enough bytes on their way, read_fixed_size of a length below 2^31 gives
  -- the first `len` of them, in whatever pieces they come, and leaves the others.
  pub read_fixed_size_lem :
      (len : ℕ) (s : S)
      → len < 2 ^ 31
      → len ≤ length (pending s)
      → (s' : S) × (read_fixed_size stream len s ≡ all (take len (pending s)) s')
        × (pending s' ≡ drop len (pending s))
        × (sent s' ≡ sent s)
  unfolding read_fixed_size
  read_fixed_size_lem len s small h =
      let (s', done, after, same) = read_loop_lem len len [] s (omega arith) h in
      (
        s',
        rw (read_fixed_size, left_of_small len small, done)
            (return_len_small len (take len (pending s)) s' small),
        after,
        same,
      )

  write_round :
      (fuel n b : ℕ) (bs : List ℕ) (s s' : S)
      → stream.write (b ∷ bs) s ≡ moved n s'
      → write_loop stream (suc fuel) (b ∷ bs) s ≡ write_loop stream fuel (drop n (b ∷ bs)) s'
  unfolding write_loop
  write_round fuel n b bs s s' e = rw (e, write_loop) refl

  write_loop_lem :
      (fuel : ℕ) (buffer : List ℕ) (s : S)
      → length buffer ≤ fuel
      → (s' : S) × (write_loop stream fuel buffer s ≡ all tt s')
        × (sent s' ≡ sent s ++ buffer)
        × (pending s' ≡ pending s)
  write_loop_lem fuel [] s h = (s, unfold write_loop in refl, sym (append-nil (sent s)), refl)
  write_loop_lem zero (b ∷ bs) s h = absurd (omega arith)
  write_loop_lem (suc fuel) (b ∷ bs) s h =
      let (n, s1, some_bytes, few, took, went, same) = write_some (b ∷ bs) s (omega arith) in
      let (s2, done, all_sent, kept) =
        write_loop_lem fuel (drop n (b ∷ bs)) s1
          (omega (arith, some_bytes, h, length-drop {0} n (b ∷ bs))) in
      (
        s2,
        write_round fuel n b bs s s1 took ∙ done,
        all_sent
            ∙ ap (λ x. x ++ drop n (b ∷ bs)) went
            ∙ append_assoc (sent s) (take n (b ∷ bs)) (drop n (b ∷ bs))
            ∙ ap (◌++◌ (sent s)) (take-append-drop n (b ∷ bs)),
        kept ∙ same,
      )

  -- On a reliable stream write_fixed_size sends the whole buffer, of less than 2^31 bytes, in whatever
  -- pieces it goes.
  pub write_fixed_size_lem :
      (buffer : List ℕ) (s : S)
      → length buffer < 2 ^ 31
      → (s' : S) × (write_fixed_size stream buffer s ≡ all tt s')
        × (sent s' ≡ sent s ++ buffer)
        × (pending s' ≡ pending s)
  unfolding write_fixed_size
  write_fixed_size_lem buffer s small =
      let (s', done, out, same) = write_loop_lem (length buffer) buffer s (omega arith) in
      (s', rw (write_fixed_size, done) (return_len_small (length buffer) tt s' small), out, same)

-- When the stream gives an error again and again, write_fixed_size on a ByteArray never returns: no
-- number of rounds is enough.
pub write_array_loop-stuck {ℓ} :
    {S : Type ℓ} (call : ℕ → S → Moved ℕ S) (code : ℕ) (fuel left : ℕ) (s : S)
    → ((k : ℕ) (t : S) → call k t ≡ failed (negsuc code) t)
    → 0 < left
    → write_array_loop call fuel left s ≡ out_of_fuel
unfolding write_array_loop give_back
write_array_loop-stuck call code fuel zero s h k = absurd (omega arith)
write_array_loop-stuck call code zero (suc left) s h k = refl
write_array_loop-stuck call code (suc fuel) (suc left) s h k =
    rw (h (suc left) s, write_array_loop)
      (write_array_loop-stuck call code fuel (suc left + code + 1) s h (omega arith))

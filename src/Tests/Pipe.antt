-- ===== src/Tests/Pipe.antt =====
-- A stream that moves one byte in each call: what comes in, and what has gone out.
use tiger.Base.{ℕ, ◌≤◌, ◌<◌, List, [], ◌∷◌, ◌++◌, refl, arith, length, take, drop, ◌≡◌}
use tiger.Base.Int.{pos}
use tiger.Stream.Loops.{Moved, moved, failed, Stream}
use tiger.Stream.Reliable.{IsReliable}

abbrev pub Pipe : Type 0
Pipe = List ℕ × List ℕ

abbrev pub read : ℕ → Pipe → Moved (List ℕ) Pipe
read k ([], out) = failed (pos 0) ([], out)
read k (b ∷ bs, out) = moved (b ∷ []) (bs, out)

abbrev pub write : List ℕ → Pipe → Moved ℕ Pipe
write [] p = failed (pos 0) p
write (b ∷ bs) (coming, out) = moved 1 (coming, out ++ b ∷ [])

abbrev pub pipe : Stream Pipe
pipe = record { read = read; write = write; close = λ p. ([], p.1) }

abbrev pub pipe-IsReliable : IsReliable pipe
pipe-IsReliable = record {
  pending = λ p. p.0;
  sent = λ p. p.1;
  read_some = read_some;
  write_some = write_some;
}
  where
    read_some :
        (k : ℕ) (s : Pipe)
        → 0 < k
        → 0 < length (s.0)
        → (n : ℕ) × (s' : Pipe) × (0 < n)
          × (n ≤ k)
          × (n ≤ length (s.0))
          × (read k s ≡ moved (take n (s.0)) s')
          × (s'.0 ≡ drop n (s.0))
          × (s'.1 ≡ s.1)
    read_some k ([], out) h j = absurd (omega arith)
    read_some k (b ∷ bs, out) h j =
        (1, (bs, out), omega arith, omega arith, omega arith, refl, refl, refl)

    write_some :
        (buffer : List ℕ) (s : Pipe)
        → 0 < length buffer
        → (n : ℕ) × (s' : Pipe) × (0 < n)
          × (n ≤ length buffer)
          × (write buffer s ≡ moved n s')
          × (s'.1 ≡ s.1 ++ take n buffer)
          × (s'.0 ≡ s.0)
    write_some [] s h = absurd (omega arith)
    write_some (b ∷ bs) (coming, out) h =
        (1, (coming, out ++ b ∷ []), omega arith, omega arith, refl, refl, refl)

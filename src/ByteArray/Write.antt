-- ===== src/ByteArray/Write.antt =====
-- `write` puts its bytes at the position, whatever nodes they fall into.
use tiger.ByteArray.Valid.{Kept-room}
use mathlib.Core.Path.{subst}
use tiger.Base.{ℕ, zero, suc, ◌+◌, ◌*◌, ◌≤◌, ◌<◌, ◌≡◌, refl, sym, ap, ◌∙◌, arith}
use tiger.Base.{List, [], ◌∷◌, le→leb, lt→leb, length, take, drop}
use tiger.Base.{length-take, length-drop, take-append-drop}
use native.Mathlib.Decide.{dec_le}
use tiger.ByteArray.Defs.{
  ByteArray, ok, M, ◌>>=◌, ◌>>◌, cur_size, store, pass_full, move, next_node,
}
use tiger.ByteArray.Access.{write_loop}
use tiger.ByteArray.Valid.{Layout, Written}
use tiger.ByteArray.Rounds.{Written-nil, Written-trans, last_round, next_round}

abbrev last_step : ℕ → List ℕ → M (Unit {0})
last_step npos rest = do store npos rest; pass_full (npos + length rest); move (length rest)

abbrev next_step : ℕ → List ℕ → ℕ → ℕ → List ℕ → M (Unit {0})
next_step npos chunk m fuel rest = do
  store npos chunk
  move m
  next_node
  c ← cur_size
  write_loop fuel rest 0 c

write_loop_last :
    (fuel : ℕ) (b : ℕ) (bs : List ℕ) (npos ncap : ℕ)
    → length (b ∷ bs) ≤ ncap
    → write_loop (suc fuel) (b ∷ bs) npos ncap ≡ last_step npos (b ∷ bs)
unfolding write_loop
write_loop_last fuel b bs npos ncap h = rw (le→leb (length (b ∷ bs)) ncap h)

write_loop_next :
    (fuel : ℕ) (b : ℕ) (bs : List ℕ) (npos ncap : ℕ)
    → ncap < length (b ∷ bs)
    → write_loop (suc fuel) (b ∷ bs) npos ncap
      ≡ next_step npos (take ncap (b ∷ bs)) ncap fuel (drop ncap (b ∷ bs))
unfolding write_loop
write_loop_next fuel b bs npos ncap h = rw (lt→leb (length (b ∷ bs)) ncap h)

-- With room behind the position the loop ends, without a fault, and has written all that is left.
pub write_loop_lem :
    (fuel : ℕ) (rest : List ℕ) (npos ncap : ℕ) (s : ByteArray)
    → Layout s
    → s.cur * s.base_size + npos ≡ s.position
    → npos + ncap ≡ s.base_size
    → s.position + length rest < length s.nodes * s.base_size
    → length rest ≤ fuel
    → (t : ByteArray) × (write_loop fuel rest npos ncap s ≡ ok tt t) × Written s rest t
write_loop_lem fuel [] npos ncap s v at ends room enough =
    (s, unfold write_loop in refl, Written-nil s v)
write_loop_lem zero (b ∷ bs) npos ncap s v at ends room enough = absurd (omega arith)
write_loop_lem (suc fuel) (b ∷ bs) npos ncap s v at ends room enough =
    elim (dec_le (length (b ∷ bs)) ncap) [
      | yes fits ↦
          let (t, e, w) = last_round s npos (b ∷ bs) v at room (omega arith) in
          (t, ap (λ (m : M (Unit {0})). m s) (write_loop_last fuel b bs npos ncap fits) ∙ e, w)
      | no more ↦
          let rest : List ℕ = b ∷ bs in
          let chunk = take ncap rest in
          let later = drop ncap rest in
          let len : length chunk ≡ ncap = omega (arith, length-take ncap rest) in
          let (t, e, c, w) =
            next_round s npos chunk v at (omega (arith, len)) (write_loop fuel later 0)
              (omega (arith, len)) in
          let (u, e', w') =
            write_loop_lem fuel later 0 t.base_size t w.layout (omega (arith, c)) (omega arith)
              (omega (arith, len, length-drop ncap rest, w.position, Kept-room s t w.kept))
              (omega (arith, length-drop ncap rest, v.stop)) in
          (
            u,
            ap (λ (m : M (Unit {0})). m s) (write_loop_next fuel b bs npos ncap (omega arith))
                ∙ ap (λ (m : ℕ). next_step npos chunk m fuel later s) (sym len)
                ∙ e
                ∙ e',
            subst (λ xs. Written s xs u) (take-append-drop ncap rest)
                (Written-trans s t u chunk later w w'),
          )
    ]

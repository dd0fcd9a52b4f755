-- ===== src/FdManager/TableLaws.antt =====
-- src/fdmanager.cc: what get_fd finds after add_fd and del_fd.
use tiger.Base.{ℕ, zero, suc, ◌+◌, ◌-◌, ◌*◌, ◌≤◌, ◌<◌, Bool, false, [], ◌∷◌, ◌++◌}
use tiger.Base.{Option, none, some, leb, ◌==◌, if◌then◌else◌, length, set, take}
use tiger.Base.{replicate, arith, ◌≡◌, refl, ap, ◌∙◌, Bool-cases, inl, inr, length-append}
use tiger.Base.{length-take, length-replicate, leb→le, le→leb, lt→ltb, le→ltb, ==_iff, ◌≢◌}
use tiger.FdManager.Table.{FdEntity, FdManager, new_entity, resize, at, del_fd, grown_size, add_fd}

pub at-set :
    (datas : FdManager) (fd other : ℕ) (e : Option FdEntity)
    → fd < length datas
    → at (set datas fd e) other ≡ (if other == fd then e else at datas other)
unfolding at
at-set [] fd other e h = absurd (omega arith)
at-set (d ∷ ds) zero zero e h = refl
at-set (d ∷ ds) zero (suc other) e h = ground arith
at-set (d ∷ ds) (suc fd) zero e h = ground arith
at-set (d ∷ ds) (suc fd) (suc other) e h =
    at-set ds fd other e (omega arith)
    ∙ ap (λ b. if b then e else at ds other) {x = other == fd} {y = suc other == suc fd}
        (ground arith)

at-none : (n i : ℕ) → at (replicate n none) i ≡ none
unfolding at
at-none zero i = refl
at-none (suc n) zero = refl
at-none (suc n) (suc i) = at-none n i

-- A longer table has nothing new in it.
at-resize : (n i : ℕ) (datas : FdManager) → length datas ≤ n → at (resize n datas) i ≡ at datas i
unfolding at resize
at-resize zero i [] h = refl
at-resize (suc n) i [] h = at-none (suc n - 0) i
at-resize zero i (d ∷ ds) h = absurd (omega arith)
at-resize (suc n) zero (d ∷ ds) h = refl
at-resize (suc n) (suc i) (d ∷ ds) h =
    ap (λ k. at (take n ds ++ replicate k none) i) {x = suc n - suc (length ds)} {y = n - length ds}
      (omega arith)
    ∙ at-resize n i ds (omega arith)

at-beyond : (datas : FdManager) (i : ℕ) → length datas ≤ i → at datas i ≡ none
unfolding at
at-beyond [] i h = refl
at-beyond (d ∷ ds) zero h = absurd (omega arith)
at-beyond (d ∷ ds) (suc i) h = at-beyond ds i (omega arith)

grown_size_lem :
    (fd size : ℕ)
    → size ≤ fd
    → 2 * fd + 1 ≢ 3 * size
    → (size ≤ grown_size fd size) × (fd < grown_size fd size)
unfolding grown_size
grown_size_lem fd size h ne = ground arith

grown_size_short : (fd size : ℕ) → 2 * fd + 1 ≡ 3 * size → (size ≤ fd) × (grown_size fd size ≡ fd)
unfolding grown_size
grown_size_short fd size e = ground arith

length-resize : (n : ℕ) (datas : FdManager) → length datas ≤ n → length (resize n datas) ≡ n
unfolding resize
length-resize n datas h = omega (
  arith,
  length-append (take n datas) (replicate (n - length datas) none),
  length-take n datas,
  length-replicate {A = Option FdEntity} (n - length datas) none,
)

-- add_fd stores a new entity under its descriptor, growing the table where it is too short, and
-- every other descriptor keeps what it had, when the descriptor and a half is not one and a half
-- times the size of the table.
at-add_fd :
    (fstat : ℕ → Option Bool) (fd : ℕ) (datas : FdManager)
    → 2 * fd + 1 ≢ 3 * length datas
    → (datas' : FdManager) × (add_fd fstat fd datas ≡ some (new_entity fstat fd, datas'))
      × ((other : ℕ)
          → at datas' other ≡ (if other == fd then some (new_entity fstat fd) else at datas other))
unfolding add_fd
at-add_fd fstat fd datas ne = elim (Bool-cases (leb (length datas) fd)) [
  | inl e ↦
      let n = grown_size fd (length datas) in
      let (le, lt) = grown_size_lem fd (length datas) (leb→le (length datas) fd e) ne in
      let room : fd < length (resize n datas) = omega (arith, length-resize n datas le, lt) in
      let new = some (new_entity fstat fd) in
      rw e (
        rw (lt→ltb fd (length (resize n datas)) room) (
          set (resize n datas) fd new,
          refl,
          λ other.
              at-set (resize n datas) fd other new room
              ∙ ap (λ x. if other == fd then new else x) (at-resize n other datas le),
        ))
  | inr e ↦
      let room = below fd (length datas) e in
      let new = some (new_entity fstat fd) in
      rw e (
        rw (lt→ltb fd (length datas) room)
          (set datas fd new, refl, λ other. at-set datas fd other new room))
]
  where
    below : (fd n : ℕ) → leb n fd ≡ false → fd < n
    below fd n e = ground arith

-- When one and a half times the size of the table is the descriptor and a half, add_fd writes behind
-- the end of the table that it has made.
pub add_fd_beyond :
    (fstat : ℕ → Option Bool) (fd : ℕ) (datas : FdManager)
    → 2 * fd + 1 ≡ 3 * length datas
    → add_fd fstat fd datas ≡ none
unfolding add_fd
add_fd_beyond fstat fd datas e =
    let (le, same) = grown_size_short fd (length datas) e in
    let n = grown_size fd (length datas) in
    rw (le→leb (length datas) fd le) (
      rw
        (le→ltb fd (length (resize n datas))
          (omega (arith, same, length-resize n datas (omega (arith, same, le)))))
        refl)

-- del_fd forgets a descriptor, in the table or not, and every other one keeps what it had.
pub at-del_fd :
    (fd other : ℕ) (datas : FdManager)
    → at (del_fd fd datas) other ≡ (if other == fd then none else at datas other)
unfolding del_fd
at-del_fd fd other datas = elim (Bool-cases (leb (length datas) fd)) [
  | inl e ↦ elim (Bool-cases (other == fd)) [
    | inl f ↦ rw e (
        rw f (
          at-beyond datas other (omega (arith, leb→le (length datas) fd e, (==_iff other fd).0 f))))
    | inr f ↦ rw e (rw f refl)
  ]
  | inr e ↦ rw e (at-set datas fd other none (below fd (length datas) e))
]
  where
    below : (fd n : ℕ) → leb n fd ≡ false → fd < n
    below fd n e = ground arith

-- ===== src/Connection/Total.antt =====
-- src/servers/http/http_connection.cc: what m_total counts, over every sequence of get_connection and
-- ReleasePtr.
use tiger.Base.{ℕ, ◌+◌, ◌-◌, ◌<◌, false, not, ◌||◌, List, [], ◌∷◌, ◌++◌, Option, none, some}
use tiger.Base.{
  leb, length, ◌≡◌, refl, ap, sym, arith, inl, inr, Bool-cases, All, All-append, length-append,
}
use mathlib.Core.Path.{subst}
use tiger.Connection.Pool.{Connection, Pool, new_pool, get_connection, release}
use tiger.Connection.Borrow.{IsAnswer, get_connection_lem, left_of}

-- A pool and the connections it has given out.
pub record Owner : Type 0 where
  pub pool : Pool
  pub lent : List Connection

abbrev pub owner : Pool → List Connection → Owner
owner p cs = record { pool = p; lent = cs }

pub data Step : Owner → Owner → Type 0 where
  borrow :
      (now : ℕ) (opened : Option ℕ) (c : Connection) (p p' : Pool) (lent : List Connection)
      → get_connection now opened p ≡ (some c, p')
      → Step (owner p lent) (owner p' (c ∷ lent))
  refused :
      (now : ℕ) (opened : Option ℕ) (p p' : Pool) (lent : List Connection)
      → get_connection now opened p ≡ (none, p')
      → Step (owner p lent) (owner p' lent)
  disconnect_lent :
      (p : Pool) (before : List Connection) (c : Connection) (after : List Connection)
      → Step
          (owner p (before ++ c ∷ after))
          (owner p (before ++ record c { connected = false } ∷ after))
  disconnect_pooled :
      (p : Pool) (before : List Connection) (c : Connection) (after lent : List Connection)
      → Step
          (owner (record p { conns = before ++ c ∷ after }) lent)
          (owner (record p { conns = before ++ record c { connected = false } ∷ after }) lent)
  give_back :
      (now : ℕ) (p : Pool) (before : List Connection) (c : Connection) (after : List Connection)
      → Step (owner p (before ++ c ∷ after)) (owner (release now c p) (before ++ after))

pub data Reach : Owner → Owner → Type 0 where
  here : (o : Owner) → Reach o o
  next : (o o' o'' : Owner) → Reach o o' → Step o' o'' → Reach o o''

abbrev pub IsReusable : ℕ → Connection → Type 0
IsReusable limit c = c.request < limit

pub record IsBalanced (o : Owner) : Type 0 where
  pub total : o.pool.total ≡ length o.pool.conns + length o.lent
  pub reusable : All (IsReusable o.pool.max_request) o.pool.conns

module _ (P : Connection → Type 0) where
  All-behind : (xs ys : List Connection) → All P (xs ++ ys) → All P ys
  All-behind [] ys h = h
  All-behind (x ∷ xs) ys h = All-behind xs ys h.1

  All-split :
      (xs : List Connection) (c : Connection) (ys : List Connection)
      → All P (xs ++ c ∷ ys)
      → (c' : Connection) → P c'
      → All P (xs ++ c' ∷ ys)
  All-split [] c ys h c' q = (q, h.1)
  All-split (x ∷ xs) c ys h c' q = (h.0, All-split xs c ys h.1 c' q)

  All-at :
      (xs : List Connection) (c : Connection) (ys : List Connection) → All P (xs ++ c ∷ ys) → P c
  All-at [] c ys h = h.0
  All-at (x ∷ xs) c ys h = All-at xs c ys h.1

length-between :
    (xs : List Connection) (c : Connection) (ys : List Connection)
    → length (xs ++ c ∷ ys) ≡ length (xs ++ ys) + 1
length-between xs c ys = omega (arith, length-append xs (c ∷ ys), length-append xs ys)

-- What get_connection gives, counted.
abbrev GivenCounted : List Connection → Option Connection × Pool → Type 0
GivenCounted lent (some c, p) = IsBalanced (owner p (c ∷ lent))
GivenCounted lent (none, p) = IsBalanced (owner p lent)

-- An answer keeps the balance, when the search that led to it has split conns.
answer-counted :
    (opened : Option ℕ) (found : Option Connection) (p : Pool) (dropped rest lent : List Connection)
    (r : Option Connection × Pool)
    → p.conns ≡ dropped ++ left_of found rest
    → IsBalanced (owner p lent)
    → IsAnswer opened found (record p { conns = rest; total = p.total - length dropped }) r
    → GivenCounted lent r
answer-counted opened (some c) p dropped rest lent r e h a =
    subst (GivenCounted lent) (sym a) (record {
      total = omega (arith, h.total, ap length e, length-append dropped (c ∷ rest));
      reusable =
          (All-behind (IsReusable p.max_request) dropped (c ∷ rest)
            (subst (All (IsReusable p.max_request)) e h.reusable)).1;
    })
answer-counted none none p dropped rest lent r e h a = subst (GivenCounted lent) (sym a) (record {
  total = omega (arith, h.total, ap length e, length-append dropped rest);
  reusable =
      All-behind (IsReusable p.max_request) dropped rest
        (subst (All (IsReusable p.max_request)) e h.reusable);
})
answer-counted (some time) none p dropped rest lent r e h a =
    subst (GivenCounted lent) (sym a) (record {
      total = omega (arith, h.total, ap length e, length-append dropped rest);
      reusable =
          All-behind (IsReusable p.max_request) dropped rest
            (subst (All (IsReusable p.max_request)) e h.reusable);
    })

get_connection-counted :
    (now : ℕ) (opened : Option ℕ) (p : Pool) (lent : List Connection)
    → IsBalanced (owner p lent)
    → GivenCounted lent (get_connection now opened p)
get_connection-counted now opened p lent h =
    let g = get_connection_lem now opened p in
    let t = g.taken in
    answer-counted opened t.found p t.dropped t.rest lent (get_connection now opened p) t.split h
      g.given

-- ReleasePtr deletes the connection, or keeps it.
closed-IsBalanced :
    (c : Connection) (p : Pool) (before after : List Connection)
    → IsBalanced (owner p (before ++ c ∷ after))
    → IsBalanced (owner (record p { total = p.total - 1 }) (before ++ after))
closed-IsBalanced c p before after h = record {
  total = omega (arith, h.total, length-between before c after);
  reusable = h.reusable;
}

kept-IsBalanced :
    (c c' : Connection) (p : Pool) (before after : List Connection)
    → c'.request < p.max_request
    → IsBalanced (owner p (before ++ c ∷ after))
    → IsBalanced (owner (record p { conns = p.conns ++ (c' ∷ []) }) (before ++ after))
kept-IsBalanced c c' p before after l h = record {
  total = omega (arith, h.total, length-between before c after, length-append p.conns (c' ∷ []));
  reusable = All-append (IsReusable p.max_request) p.conns (c' ∷ []) h.reusable (l, tt);
}

release-IsBalanced :
    (now : ℕ) (c : Connection) (p : Pool) (before after : List Connection)
    → IsBalanced (owner p (before ++ c ∷ after))
    → IsBalanced (owner (release now c p) (before ++ after))
unfolding release
release-IsBalanced now c p before after h =
    elim (Bool-cases (not c.connected || leb (c.create_time + p.max_alive_time) now)) [
      | inl e ↦ rw (e, release) (closed-IsBalanced c p before after h)
      | inr e ↦ elim (Bool-cases (leb p.max_request (c.request + 1))) [
        | inl f ↦ rw (e, f, release) (closed-IsBalanced c p before after h)
        | inr f ↦
            rw (e, f, release)
              (kept-IsBalanced c (record c { request = c.request + 1 }) p before after
                (ground arith) h)
      ]
    ]

Step-IsBalanced : (o o' : Owner) → Step o o' → IsBalanced o → IsBalanced o'
Step-IsBalanced _ _ (borrow now opened c p p' lent e) h =
    subst (GivenCounted lent) e (get_connection-counted now opened p lent h)
Step-IsBalanced _ _ (refused now opened p p' lent e) h =
    subst (GivenCounted lent) e (get_connection-counted now opened p lent h)
Step-IsBalanced _ _ (disconnect_lent p before c after) h = record {
  total = omega (
    arith,
    h.total,
    length-between before c after,
    length-between before (record c { connected = false }) after,
  );
  reusable = h.reusable;
}
Step-IsBalanced _ _ (disconnect_pooled p before c after lent) h = record {
  total = omega (
    arith,
    h.total,
    length-between before c after,
    length-between before (record c { connected = false }) after,
  );
  reusable =
      All-split (IsReusable p.max_request) before c after h.reusable
        (record c { connected = false })
        (All-at (IsReusable p.max_request) before c after h.reusable);
}
Step-IsBalanced _ _ (give_back now p before c after) h = release-IsBalanced now c p before after h

-- Whatever connections a pool gives out, fails to give, gets back and sees disconnect, in whatever
-- order and at whatever times, starting with a new pool: m_total is the number of the connections in
-- conns and those that are lent, so it is never negative, and every connection in conns has been used
-- fewer times than max_request.
pub Reach-IsBalanced :
    (size alive limit : ℕ) (o : Owner)
    → Reach (owner (new_pool size alive limit) []) o
    → IsBalanced o
unfolding new_pool
Reach-IsBalanced size alive limit _ (here _) = record { total = refl; reusable = tt }
Reach-IsBalanced size alive limit o'' (next _ o' _ r s) =
    Step-IsBalanced o' o'' s (Reach-IsBalanced size alive limit o' r)

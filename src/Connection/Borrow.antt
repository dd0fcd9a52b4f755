-- ===== src/Connection/Borrow.antt =====
-- src/servers/http/http_connection.cc: which connection the pool gives, and what becomes of the others.
use tiger.Base.{ℕ, ◌+◌, ◌-◌, ◌≤◌, ◌<◌, true, false, List, [], ◌∷◌, ◌++◌, Option, none, some}
use tiger.Base.{
  ltb, ltb→lt, length, ◌≡◌, ◌⊎◌, refl, ap, ◌∙◌, arith, inl, inr, Bool-cases, true-false, All,
}
use tiger.Connection.Pool.{
  Connection, Pool, is_invalid, take_valid, found_or_opened, get_connection,
}

-- A connection that the peer has closed, or that is too old.
abbrev pub IsInvalid : ℕ → ℕ → Connection → Type 0
IsInvalid now alive c = (c.connected ≡ false) ⊎ (c.create_time + alive < now)

is_invalid-IsInvalid :
    (now alive : ℕ) (c : Connection) → is_invalid now alive c ≡ true → IsInvalid now alive c
unfolding is_invalid
is_invalid-IsInvalid now alive c e = elim (Bool-cases c.connected) [
  | inr f ↦ inl f
  | inl f ↦ inr (ltb→lt (c.create_time + alive) now (rw f at e))
]

is_invalid-valid :
    (now alive : ℕ) (c : Connection)
    → is_invalid now alive c ≡ false
    → (c.connected ≡ true) × (now ≤ c.create_time + alive)
unfolding is_invalid
is_invalid-valid now alive c e = elim (Bool-cases c.connected) [
  | inr f ↦ absurd (true-false refl (rw f at e))
  | inl f ↦ (f, young (rw f at e))
]
  where
    young : ltb (c.create_time + alive) now ≡ false → now ≤ c.create_time + alive
    young h = ground arith

-- The connections a search leaves: the one it takes and those behind it.
abbrev pub left_of : Option Connection → List Connection → List Connection
left_of none rest = rest
left_of (some c) rest = c ∷ rest

-- A search takes a valid connection, or has none left.
abbrev pub Fits : ℕ → ℕ → Option Connection → List Connection → Type 0
Fits now alive none rest = rest ≡ []
Fits now alive (some c) rest = (c.connected ≡ true) × (now ≤ c.create_time + alive)

pub record Taken (now alive : ℕ) (conns : List Connection) : Type 0 where
  pub dropped : List Connection
  pub found : Option Connection
  pub rest : List Connection
  pub split : conns ≡ dropped ++ left_of found rest
  pub all_invalid : All (IsInvalid now alive) dropped
  pub fits : Fits now alive found rest
  pub result : take_valid now alive conns ≡ (length dropped, found, rest)

-- What the loop leaves behind one more connection.
drop_one :
    (now alive : ℕ) (c : Connection) (cs : List Connection)
    → is_invalid now alive c ≡ true
    → (t : Taken now alive cs)
    → take_valid now alive (c ∷ cs) ≡ (length t.dropped + 1, t.found, t.rest)
unfolding take_valid
drop_one now alive c cs e t = rw (e, t.result, take_valid) refl

keep_one :
    (now alive : ℕ) (c : Connection) (cs : List Connection)
    → is_invalid now alive c ≡ false
    → take_valid now alive (c ∷ cs) ≡ (0, some c, cs)
unfolding take_valid
keep_one now alive c cs e = rw (e, take_valid) refl

pub take_valid_lem : (now alive : ℕ) (conns : List Connection) → Taken now alive conns
unfolding take_valid
take_valid_lem now alive [] = record {
  dropped = [];
  found = none;
  rest = [];
  split = refl;
  all_invalid = tt;
  fits = refl;
  result = refl;
}
take_valid_lem now alive (c ∷ cs) = elim (Bool-cases (is_invalid now alive c)) [
  | inr e ↦ record {
    dropped = [];
    found = some c;
    rest = cs;
    split = refl;
    all_invalid = tt;
    fits = is_invalid-valid now alive c e;
    result = keep_one now alive c cs e;
  }
  | inl e ↦
      let t = take_valid_lem now alive cs in
      record {
        dropped = c ∷ t.dropped;
        found = t.found;
        rest = t.rest;
        split = ap (λ l. c ∷ l) t.split;
        all_invalid = (is_invalid-IsInvalid now alive c e, t.all_invalid);
        fits = t.fits;
        result = drop_one now alive c cs e t ∙ ap (λ n. (n, t.found, t.rest)) (omega arith);
      }
]

-- The result for a connection that was found, or for one that has been opened at a time, with the pool
-- p that the search leaves.
abbrev pub IsAnswer : Option ℕ → Option Connection → Pool → Option Connection × Pool → Type 0
IsAnswer opened (some c) p r = r ≡ (some c, p)
IsAnswer none none p r = r ≡ (none, p)
IsAnswer (some time) none p r = r ≡ (
  some (record { create_time = time; request = 0; connected = true }),
  record p { total = p.total + 1 },
)

answer :
    (opened : Option ℕ) (found : Option Connection) (p : Pool)
    → IsAnswer opened found p (found_or_opened opened found p)
unfolding found_or_opened
answer opened (some c) p = refl
answer none none p = refl
answer (some time) none p = refl

-- What is left of conns behind the invalid ones at its front, and the connection that follows them.
pub record Given (now : ℕ) (opened : Option ℕ) (p : Pool) : Type 0 where
  pub taken : Taken now p.max_alive_time p.conns
  pub given :
      IsAnswer opened taken.found
        (record p { conns = taken.rest; total = p.total - length taken.dropped })
        (get_connection now opened p)

-- For every time and every pool, get_connection drops the connections at the front of conns that are
-- closed or too old, and no other (dropped), counts them off total, and returns the connection behind
-- them (found), which is connected and not too old and is taken out, while those behind it stay in
-- their order. When all are closed or too old, conns is left empty, and nothing is returned if nothing
-- has been opened; what has been opened is returned, connected and with no request yet, and adds one
-- to total.
pub get_connection_lem : (now : ℕ) (opened : Option ℕ) (p : Pool) → Given now opened p
unfolding get_connection
get_connection_lem now opened p =
    let t = take_valid_lem now p.max_alive_time p.conns in
    let p' : Pool = record p { conns = t.rest; total = p.total - length t.dropped } in
    record { taken = t; given = rw (t.result, get_connection) (answer opened t.found p') }

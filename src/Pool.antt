-- ===== src/Pool.antt =====
-- pkg/pool/conn.go: the pool of idle connections, each operation run on its own. The channel is the
-- list of what is in it, the oldest first; a connection is a number.
mod Tests
pub mod Buffer
pub mod Overlap
pub mod Alive
use qtrp.Common.{
  ℕ, ◌≤◌, ◌≡◌, Bool, true, false, Option, none, some, List, [], ◌∷◌, ◌++◌, Result, ok, err, arith,
  ltb, if◌then◌else◌, length, length-append, refl,
}

pub record ConnPool : Type 0 where
  pub conns : List ℕ
  pub max_size : ℕ
  pub closed : Bool

-- NewConnPool
unfoldable pub new_conn_pool : ℕ → ConnPool
new_conn_pool max_size = record { conns = []; max_size = max_size; closed = false }

pub data PoolError : Type 0 where
  pool_closed : PoolError
  factory_error : ℕ → PoolError

-- What an operation hands out, which connections it closes, and the pool behind it.
pub record Outcome (A : Type 0) : Type 0 where
  pub value : A
  pub dropped : List ℕ
  pub pool : ConnPool

-- The receive of Get: `alive` is the answer of isAlive on the connection received, `made` that of the
-- factory.
unfoldable pub take_conn :
    List ℕ → Bool → Result PoolError ℕ → ConnPool → Outcome (Result PoolError ℕ)
take_conn [] alive made p = record { value = made; dropped = []; pool = p }
take_conn (c ∷ conns) true made p = record {
  value = ok c;
  dropped = [];
  pool = record p { conns = conns };
}
take_conn (c ∷ conns) false made p = record {
  value = made;
  dropped = c ∷ [];
  pool = record p { conns = conns };
}

-- ConnPool.Get
unfoldable pub get : Bool → Result PoolError ℕ → ConnPool → Outcome (Result PoolError ℕ)
unfolding take_conn
get alive made p =
    let taken = take_conn p.conns alive made p in
    if p.closed then record { value = err pool_closed; dropped = []; pool = p } else taken

-- ConnPool.Put; `none` is a nil connection.
unfoldable pub put : Option ℕ → ConnPool → Outcome (Unit {0})
put none p = record { value = tt; dropped = []; pool = p }
put (some c) p =
    if p.closed
    then record { value = tt; dropped = c ∷ []; pool = p }
    else (if ltb (length p.conns) p.max_size
        then record { value = tt; dropped = []; pool = record p { conns = p.conns ++ (c ∷ []) } }
        else record { value = tt; dropped = c ∷ []; pool = p })

-- ConnPool.Close
unfoldable pub close : ConnPool → Outcome (Unit {0})
close p =
    if p.closed
    then record { value = tt; dropped = []; pool = p }
    else record { value = tt; dropped = p.conns; pool = record p { conns = []; closed = true } }

-- ConnPool.Size
unfoldable pub size : ConnPool → ℕ
size p = length p.conns

-- A call of the pool.
pub data Call : Type 0 where
  gets : Bool → Result PoolError ℕ → Call
  puts : Option ℕ → Call
  closes : Call

-- A sequence of calls.
unfoldable pub run : List Call → ConnPool → ConnPool
run [] p = p
run (gets alive made ∷ calls) p = run calls (get alive made p).pool
run (puts c ∷ calls) p = run calls (put c p).pool
run (closes ∷ calls) p = run calls (close p).pool

-- No more connections than the size, and none when closed.
pub record IsSound (max_size : ℕ) (p : ConnPool) : Type 0 where
  pub same_size : p.max_size ≡ max_size
  pub bounded : length p.conns ≤ max_size
  pub emptied : p.closed ≡ true → p.conns ≡ []

get-IsSound :
    (n : ℕ) (alive : Bool) (made : Result PoolError ℕ) (p : ConnPool)
    → IsSound n p
    → IsSound n (get alive made p).pool
unfolding get
get-IsSound n alive made p i = record {
  same_size = ground (arith, i.same_size);
  bounded = ground (arith, i.bounded);
  emptied = λ e. ground (arith, i.emptied);
}

put-IsSound : (n : ℕ) (c : Option ℕ) (p : ConnPool) → IsSound n p → IsSound n (put c p).pool
unfolding put
put-IsSound n none p i = i
put-IsSound n (some c) p i = record {
  same_size = ground (arith, i.same_size);
  bounded = ground (arith, i.same_size, i.bounded, length-append p.conns (c ∷ []));
  emptied = λ e. ground (arith, i.emptied);
}

close-IsSound : (n : ℕ) (p : ConnPool) → IsSound n p → IsSound n (close p).pool
unfolding close
close-IsSound n p i = record {
  same_size = ground (arith, i.same_size);
  bounded = ground (arith, i.bounded);
  emptied = λ e. ground (arith, i.emptied);
}

-- However a pool is used one call after the other, it never keeps more connections than its size, and
-- none once it is closed.
pub run-IsSound : (n : ℕ) (calls : List Call) (p : ConnPool) → IsSound n p → IsSound n (run calls p)
unfolding run
run-IsSound n [] p i = i
run-IsSound n (gets alive made ∷ calls) p i =
    run-IsSound n calls (get alive made p).pool (get-IsSound n alive made p i)
run-IsSound n (puts c ∷ calls) p i = run-IsSound n calls (put c p).pool (put-IsSound n c p i)
run-IsSound n (closes ∷ calls) p i = run-IsSound n calls (close p).pool (close-IsSound n p i)

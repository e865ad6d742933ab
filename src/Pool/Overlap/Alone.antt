-- ===== src/Pool/Overlap/Alone.antt =====
-- pkg/pool/conn.go: that a call which no other overlaps is the function of Pool.
use qtrp.Common.{
  ℕ, ◌≡◌, refl, ap, ◌∙◌, Bool, true, false, Option, none, some, List, [], ◌∷◌, ◌++◌, Result, ltb,
  history, length, then_steps, then_steps-eq-some,
}
use qtrp.Pool
use qtrp.Pool.{ConnPool, PoolError, Call, run}
use qtrp.Pool.Buffer.{pick}
use qtrp.Pool.Overlap.{
  Shared, Event, gets, closes, drains, puts, sends, takes, send_conn, drain, step,
}

-- What has become of the connections.
pub record Past : Type 0 where
  pub entered : List ℕ
  pub given : List ℕ
  pub dropped : List ℕ
  pub lost : List ℕ
  pub panics : ℕ

-- A pool that no call is at.
abbrev pub idle : ConnPool → Past → Shared
idle p past = record {
  conns = p.conns;
  max_size = p.max_size;
  closed = p.closed;
  chan_closed = p.closed;
  draining = false;
  getting = 0;
  putting = [];
  entered = past.entered;
  given = past.given;
  dropped = past.dropped;
  lost = past.lost;
  panics = past.panics;
}

-- Steps that lead from one pool to another, with no panic and no connection lost.
abbrev pub Leads : ConnPool → ConnPool → Past → Type 0
Leads p q past =
    (es : List Event) × (next : Past) × (history step es (idle p past) ≡ some (idle q next))
    × (next.lost ≡ past.lost)
    × (next.panics ≡ past.panics)

pool_of : List ℕ → ℕ → Bool → ConnPool
pool_of cs n closed = record { conns = cs; max_size = n; closed = closed }

get_alone :
    (cs : List ℕ) (n : ℕ) (closed alive : Bool) (made : Result PoolError ℕ) (past : Past)
    → Leads (pool_of cs n closed) (Pool.get alive made (pool_of cs n closed)).pool past
unfolding pool_of Pool.get step history
get_alone cs n true alive made past = (gets ∷ [], past, refl, refl, refl)
get_alone [] n false alive made past = (gets ∷ takes alive ∷ [], past, refl, refl, refl)
get_alone (c ∷ cs) n false true made past =
    (gets ∷ takes true ∷ [], record past { given = c ∷ past.given }, refl, refl, refl)
get_alone (c ∷ cs) n false false made past =
    (gets ∷ takes false ∷ [], record past { dropped = c ∷ past.dropped }, refl, refl, refl)

put_room :
    (cs : List ℕ) (n c : ℕ) (past : Past) (room : Bool)
    → ltb (length cs) n ≡ room
    → Leads (pool_of cs n false) (Pool.put (some c) (pool_of cs n false)).pool past
unfolding pool_of Pool.put step history send_conn pick
put_room cs n c past true e =
    (puts c ∷ sends 0 ∷ [], record past { entered = c ∷ past.entered }, simp e, refl, refl)
put_room cs n c past false e = (
  puts c ∷ sends 0 ∷ [],
  record past { entered = c ∷ past.entered; dropped = c ∷ past.dropped },
  simp e,
  refl,
  refl,
)

put_alone :
    (o : Option ℕ) (cs : List ℕ) (n : ℕ) (closed : Bool) (past : Past)
    → Leads (pool_of cs n closed) (Pool.put o (pool_of cs n closed)).pool past
unfolding pool_of Pool.put step history
put_alone none cs n closed past = ([], past, refl, refl, refl)
put_alone (some c) cs n false past = put_room cs n c past (ltb (length cs) n) refl
put_alone (some c) cs n true past = (
  puts c ∷ [],
  record past { entered = c ∷ past.entered; dropped = c ∷ past.dropped },
  refl,
  refl,
  refl,
)

-- Close, with the flag set and the channel closed.
abbrev draining : List ℕ → ℕ → Past → Shared
draining cs n past = record (idle (pool_of cs n true) past) { draining = true }

drains_all :
    (cs : List ℕ) (n : ℕ) (past : Past)
    → (es : List Event) × (next : Past) × (history step es (draining cs n past)
        ≡ some (idle (pool_of [] n true) next))
      × (next.lost ≡ past.lost)
      × (next.panics ≡ past.panics)
unfolding pool_of step history drain
drains_all [] n past = (drains ∷ [], past, refl, refl, refl)
drains_all (c ∷ cs) n past =
    let (es, next, h, l, p) = drains_all cs n (record past { dropped = c ∷ past.dropped }) in
    (drains ∷ es, next, h, l, p)

close_alone :
    (cs : List ℕ) (n : ℕ) (closed : Bool) (past : Past)
    → Leads (pool_of cs n closed) (Pool.close (pool_of cs n closed)).pool past
unfolding pool_of Pool.close step history
close_alone cs n true past = (closes ∷ [], past, refl, refl, refl)
close_alone cs n false past =
    let (es, next, h, l, p) = drains_all cs n past in (closes ∷ drains ∷ es, next, h, l, p)

history-append :
    (es fs : List Event) (s t : Shared)
    → history step es s ≡ some t
    → history step (es ++ fs) s ≡ history step fs t
unfolding history
history-append [] fs s t h = let same : s ≡ t = cc in ap (history step fs) same
history-append (e ∷ es) fs s t h =
    let (u, one, rest) = then_steps-eq-some (history step es) (step e s) t h in
    ap (then_steps (history step (es ++ fs))) one ∙ history-append es fs u t rest

Leads-then :
    (p q r : ConnPool) (past : Past)
    → Leads p q past
    → ((next : Past) → Leads q r next)
    → Leads p r past
Leads-then p q r past (es, next, h, l, n) later =
    let (fs, last, h', l', n') = later next in
    (es ++ fs, last, history-append es fs (idle p past) (idle q next) h ∙ h', l' ∙ l, n' ∙ n)

-- Calls of a pool one after the other are the functions of Pool: there is a sequence of steps that ends
-- in the pool that these give, and it has no panic and loses no connection.
pub run_alone : (calls : List Call) (p : ConnPool) (past : Past) → Leads p (run calls p) past
unfolding run history pool_of
run_alone [] p past = ([], past, refl, refl, refl)
run_alone (Pool.gets alive made ∷ calls) p past =
    let q = (Pool.get alive made p).pool in
    Leads-then p q (run calls q) past (get_alone p.conns p.max_size p.closed alive made past)
      (run_alone calls q)
run_alone (Pool.puts o ∷ calls) p past =
    let q = (Pool.put o p).pool in
    Leads-then p q (run calls q) past (put_alone o p.conns p.max_size p.closed past)
      (run_alone calls q)
run_alone (Pool.closes ∷ calls) p past =
    let q = (Pool.close p).pool in
    Leads-then p q (run calls q) past (close_alone p.conns p.max_size p.closed past)
      (run_alone calls q)

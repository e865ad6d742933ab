-- ===== src/Pool/Overlap/Behind.antt =====
-- pkg/pool/conn.go: what becomes of the calls that Close has overtaken.
use qtrp.Common.{ℕ, suc, ◌≡◌, ◌↔◌, Bool, true, false, Option, some, List, [], arith, history}
use qtrp.Pool.Buffer.{pick}
use qtrp.Pool.Overlap.{
  Shared, Event, gets, closes, drains, puts, sends, takes, new_shared, receive, send_conn, step,
}
use qtrp.Pool.Overlap.Kept.{reached-IsKept}

-- A Get or a Put that has seen an open pool goes on.
abbrev pub UsesChannel : Event → Type 0
UsesChannel (takes alive) = Unit {0}
UsesChannel (sends i) = Unit {0}
UsesChannel _ = ⊥

receive_panics :
    (g : ℕ) (cs : List ℕ) (alive : Bool) (s t : Shared)
    → cs ≡ []
    → s.chan_closed ≡ true
    → receive g cs alive s ≡ some t
    → t.panics ≡ suc s.panics
unfolding receive
receive_panics g cs alive s t e m h = ground arith

send_panics :
    (o : Option (ℕ × List ℕ)) (s t : Shared)
    → s.chan_closed ≡ true
    → send_conn o s ≡ some t
    → t.panics ≡ suc s.panics
unfolding send_conn
send_panics o s t m h = ground arith

-- In a state that calls of a new pool reach, with Close at its end: the next step of a goroutine panics
-- exactly if it is that of a Get or a Put that had seen the pool open.
pub panics_iff :
    (n : ℕ) (es : List Event) (s t : Shared) (e : Event)
    → history step es (new_shared n) ≡ some s
    → s.closed ≡ true
    → s.draining ≡ false
    → step e s ≡ some t
    → (t.panics ≡ suc s.panics) ↔ UsesChannel e
unfolding step
panics_iff n es s t gets r c d h = (λ p. ground (arith, p), λ u. absurd u)
panics_iff n es s t closes r c d h = (λ p. ground (arith, p), λ u. absurd u)
panics_iff n es s t drains r c d h = (λ p. ground (arith, p), λ u. absurd u)
panics_iff n es s t (puts x) r c d h = (λ p. ground (arith, p), λ u. absurd u)
panics_iff n es s t (takes alive) r c d h =
    let (none_left, shut) = (reached-IsKept 0 n es s r).emptied c d in
    (λ p. tt, λ u. receive_panics s.getting s.conns alive s t none_left shut h)
panics_iff n es s t (sends i) r c d h =
    let (none_left, shut) = (reached-IsKept 0 n es s r).emptied c d in
    (λ p. tt, λ u. send_panics (pick i s.putting) s t shut h)

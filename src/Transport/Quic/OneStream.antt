-- ===== src/Transport/Quic/OneStream.antt =====
-- pkg/transport/quic_transport.go: the stream of a QUICConn over its life.
use qtrp.Common.{
  ℕ, ◌+◌, ◌≤◌, ◌≡◌, refl, sym, subst, All, ap, ◌∙◌, Bool, true, false, Option, none, some, List, [],
  ◌∷◌, arith, Result, ok, err,
}
use qtrp.Transport.Quic.{
  QuicConn, Asked, asked, keep_stream, ensure, init_stream, use_stream, close,
}

-- A call: Read or Write, with the library's answer if it is asked, or Close.
pub data Call : Type 0 where
  uses : Result ℕ ℕ → Call
  closes : Call

unfoldable pub after : Call → QuicConn → QuicConn
after (uses answer) c = (use_stream answer c).1.1
after closes c = close c

abbrev one_of : Option Asked → Bool → ℕ
one_of none answered = 0
one_of (some a) false = 0
one_of (some a) true = 1

abbrev is_ok : Result ℕ ℕ → Bool
is_ok (ok s) = true
is_ok (err e) = false

-- How many streams the library gave in a call, and the stream that the call went to.
unfoldable pub streams_of : Call → QuicConn → ℕ
streams_of (uses answer) c = one_of (use_stream answer c).0 (is_ok answer)
streams_of closes c = 0

unfoldable pub streams : List Call → QuicConn → ℕ
streams [] c = 0
streams (call ∷ calls) c = streams_of call c + streams calls (after call c)

unfoldable pub after_all : List Call → QuicConn → QuicConn
after_all [] c = c
after_all (call ∷ calls) c = after_all calls (after call c)

abbrev with_target : Result ℕ ℕ → List ℕ → List ℕ
with_target (ok s) ts = s ∷ ts
with_target (err e) ts = ts

abbrev target : Call → QuicConn → List ℕ → List ℕ
target (uses answer) c ts = with_target (use_stream answer c).1.0 ts
target closes c ts = ts

-- The streams that the calls read from or write to.
unfoldable pub targets : List Call → QuicConn → List ℕ
targets [] c = []
targets (call ∷ calls) c = target call c (targets calls (after call c))

-- Once the connection has its stream.
after_has :
    (call : Call) (s : ℕ) (c : QuicConn)
    → c.stream ≡ some s
    → ((after call c).stream ≡ some s) × (streams_of call c ≡ 0)
unfolding after streams_of use_stream init_stream close
after_has closes s c e = (e, refl)
after_has (uses answer) s c e = (
  ap (λ o. (ensure o answer c).1.1.stream) e ∙ e,
  ap (λ o. one_of (ensure o answer c).0 (is_ok answer)) e,
)

target_has :
    (call : Call) (s : ℕ) (c : QuicConn) (ts : List ℕ)
    → c.stream ≡ some s
    → All (λ t. t ≡ s) ts
    → All (λ t. t ≡ s) (target call c ts)
unfolding use_stream init_stream
target_has closes s c ts e i = i
target_has (uses answer) s c ts e i =
    subst (λ o. All (λ t. t ≡ s) (with_target (ensure o answer c).1.0 ts)) (sym e) (refl, i)

calls_has :
    (calls : List Call) (s : ℕ) (c : QuicConn)
    → c.stream ≡ some s
    → (streams calls c ≡ 0) × All (λ t. t ≡ s) (targets calls c)
unfolding streams targets
calls_has [] s c e = (refl, tt)
calls_has (call ∷ calls) s c e =
    let (kept, none_given) = after_has call s c e in
    let (rest, same) = calls_has calls s (after call c) kept in
    (omega (arith, rest, none_given), target_has call s c _ e same)

-- What `one_stream` says of a call with the outcome `r` and those behind it.
abbrev AtMostOne : List Call → Bool → Option Asked × (Result ℕ ℕ × QuicConn) → Type 0
AtMostOne calls answered r =
    (one_of r.0 answered + streams calls r.1.1 ≤ 1)
    × (s : ℕ) × All (λ t. t ≡ s) (with_target r.1.0 (targets calls r.1.1))

-- The first use of a connection asks the library.
first_use :
    (answer : Result ℕ ℕ) (c : QuicConn)
    → c.stream ≡ none
    → use_stream answer c ≡ (some (asked c), keep_stream answer c)
unfolding use_stream init_stream
first_use answer c e = ap (λ o. ensure o answer c) e

-- Over any calls of a new connection the library gives at most one stream, and all the calls that read
-- or write go to that stream. A call whose stream cannot be had leaves the next one to try again.
pub one_stream :
    (calls : List Call) (c : QuicConn)
    → c.stream ≡ none
    → (streams calls c ≤ 1) × (s : ℕ) × All (λ t. t ≡ s) (targets calls c)
unfolding streams targets streams_of after close
one_stream [] c e = (omega arith, 0, tt)
one_stream (closes ∷ calls) c e =
    let (few, s, same) = one_stream calls (close c) e in (omega (arith, few), s, same)
one_stream (uses (err x) ∷ calls) c e =
    let (few, s, same) = one_stream calls c e in
    unfold streams_of after in
    subst (AtMostOne calls false) (sym (first_use (err x) c e)) (omega (arith, few), s, same)
one_stream (uses (ok s) ∷ calls) c e =
    let (few, same) = calls_has calls s (record c { stream = some s }) refl in
    unfold streams_of after in
    subst (AtMostOne calls true) (sym (first_use (ok s) c e)) (omega (arith, few), s, (refl, same))

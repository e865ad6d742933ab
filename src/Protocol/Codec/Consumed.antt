-- ===== src/Protocol/Codec/Consumed.antt =====
-- pkg/protocol/codec.go: how much of the stream Decode takes.
use qtrp.Common.{
  ℕ, zero, suc, ◌-◌, ◌+◌, ◌≤◌, ◌≡◌, refl, ap, [], ◌∷◌, Result, ok, err, arith, length, drop, ltb,
  if◌then◌else◌, Bool, true, false,
}
use qtrp.Go.Io.{Stream, IoError, Bytes, read_full}
use qtrp.Protocol.Codec.{read_body, unpack, length_size, max_msg_size, decode}
use qtrp.Go.Binary.{uint32}
use qtrp.Protocol.Message.{Message, Msgpack}

length-drop : (n : ℕ) (b : Bytes) → length (drop n b) ≡ length b - n
length-drop zero b = omega arith
length-drop (suc n) [] = omega arith
length-drop (suc n) (x ∷ b) = omega (arith, length-drop n b)

-- A read leaves no more than there was.
read_full_rest : (n : ℕ) (s : Stream) → length (read_full n s).1.pending ≤ length s.pending
unfolding read_full
read_full_rest n s = ground (arith, length-drop n s.pending)

-- A read that gets all leaves that much less.
read_full_ok :
    (n : ℕ) (s s' : Stream) (b : Bytes)
    → read_full n s ≡ (ok b, s')
    → length s'.pending + n ≤ length s.pending
unfolding read_full
read_full_ok n s s' b e = ground (arith, length-drop n s.pending)

module _ ⦃m : Msgpack Message⦄ where
  unpack_rest : (r : Result IoError Bytes × Stream) → (unpack r).1 ≡ r.1
  unfolding unpack
  unpack_rest (err e, s) = refl
  unpack_rest (ok b, s) = refl

  if_rest :
      {A B : Type 0} (b : Bool) (x y : A × B) (P : B → Type 0)
      → P x.1
      → P y.1
      → P (if b then x else y).1
  if_rest true x y P hx hy = hx
  if_rest false x y P hx hy = hy

  read_body_rest :
      (r : Result IoError Bytes × Stream) → length (read_body r).1.pending ≤ length r.1.pending
  unfolding read_body
  read_body_rest (err e, s) = omega arith
  read_body_rest (ok b, s) =
      if_rest (ltb max_msg_size (uint32 b)) _ _
        (λ (t : Stream). length t.pending ≤ length s.pending) (omega arith)
        (omega (
          arith,
          read_full_rest (uint32 b) s,
          ap (λ t. length t.pending) (unpack_rest (read_full (uint32 b) s)),
        ))

  header_rest :
      (r : Result IoError Bytes × Stream) (s s' : Stream) (msg : Message)
      → read_full length_size s ≡ r
      → read_body r ≡ (ok msg, s')
      → length s'.pending + length_size ≤ length s.pending
  header_rest (err x, t) s s' msg e h = absurd (unfold read_body in ground arith)
  header_rest (ok b, t) s s' msg e h = omega (
    arith,
    read_full_ok length_size s t b e,
    read_body_rest (ok b, t),
    ap (λ p. length p.1.pending) h,
  )

  -- A message that is decoded takes its header from the stream at least.
  pub decode_rest :
      (s s' : Stream) (msg : Message)
      → decode s ≡ (ok msg, s')
      → length s'.pending + length_size ≤ length s.pending
  unfolding decode
  decode_rest s s' msg h = header_rest (read_full length_size s) s s' msg refl h

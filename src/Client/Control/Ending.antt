-- ===== src/Client/Control/Ending.antt =====
-- internal/client/client.go: the end of handleControlStream.
use qtrp.Common.{
  ℕ, zero, suc, ◌<◌, ◌≡◌, refl, ap, ◌∙◌, false, List, [], ◌∷◌, Option, some, Result, ok, err, arith,
  length,
}
use qtrp.Client.Control.{Link, behind, control_loop, dispatch, handle_control_stream}
use qtrp.Go.Io.{Stream}
use qtrp.Protocol.Codec.{CodecError, decode, recv_message}
use qtrp.Protocol.Codec.Delivery.{Received}
use qtrp.Protocol.Codec.Consumed.{decode_rest}
use qtrp.Protocol.Message.{Message, Msgpack, NewConnRequest}

module _ ⦃m : Msgpack Message⦄ ⦃conn_pack : Msgpack NewConnRequest⦄ where
  abbrev Ends : Option (CodecError × Link) → Type 0
  Ends r = (e : CodecError) × (k : Link) × (r ≡ some (e, k))

  behind-Ends :
      (fuel : ℕ) (r : Result CodecError Message × Stream) (s : Stream) (k : Link)
      → recv_message s ≡ r
      → length s.pending < suc fuel
      → ((s' : Stream) (k' : Link) → length s'.pending < fuel → Ends (control_loop fuel s' k'))
      → Ends (behind (control_loop fuel) r k)
  unfolding behind recv_message
  behind-Ends fuel (err e, t) s k h lt rest = (e, k, refl)
  behind-Ends fuel (ok msg, t) s k h lt rest =
      rest t (dispatch msg k) (omega (arith, decode_rest s t msg h))

  control_loop-Ends :
      (fuel : ℕ) (s : Stream) (k : Link) → length s.pending < fuel → Ends (control_loop fuel s k)
  unfolding control_loop
  control_loop-Ends zero s k lt = absurd (omega arith)
  control_loop-Ends (suc fuel) s k lt =
      behind-Ends fuel (recv_message s) s k refl lt (control_loop-Ends fuel)

  -- The loop ends with an error of RecvMessage on every stream that ends.
  pub handle_control_stream_total :
      (s : Stream) → (e : CodecError) × (k : Link) × (handle_control_stream s ≡ some (e, k))
  unfolding handle_control_stream
  handle_control_stream_total s = control_loop-Ends (suc (length s.pending)) s _ (omega arith)

  -- What is made of messages, one after the other.
  unfoldable pub deliver : List Message → Link → Link
  deliver [] k = k
  deliver (msg ∷ msgs) k = deliver msgs (dispatch msg k)

  control_loop-deliver :
      (fuel : ℕ) (msgs : List Message) (s s' : Stream) (e : CodecError) (k : Link)
      → length s.pending < fuel
      → Received msgs s s'
      → (decode s').0 ≡ err e
      → control_loop fuel s k ≡ some (e, deliver msgs k)
  unfolding control_loop behind deliver recv_message
  control_loop-deliver zero msgs s s' e k lt got h = absurd (omega arith)
  control_loop-deliver (suc fuel) [] s s' e k lt got h =
      ap (λ r. behind (control_loop fuel) (decode r) k) got ∙ failed (decode s') h
    where
      failed :
          (r : Result CodecError Message × Stream)
          → r.0 ≡ err e
          → behind (control_loop fuel) r k ≡ some (e, k)
      failed (err x, t) f = ground arith
      failed (ok msg, t) f = cc
  control_loop-deliver (suc fuel) (msg ∷ msgs) s s' e k lt got h =
      let (s1, first, others) = got in
      ap (λ r. behind (control_loop fuel) r k) first
      ∙ control_loop-deliver fuel msgs s1 s' e (dispatch msg k)
          (omega (arith, decode_rest s s1 msg first)) others h

  -- Whatever messages the stream holds before RecvMessage fails on it, the loop ends with that error,
  -- and has made of the messages, in their order, what the switch makes of each.
  pub handle_control_stream_delivers :
      (msgs : List Message) (s s' : Stream) (e : CodecError)
      → Received msgs s s'
      → (decode s').0 ≡ err e
      → handle_control_stream s ≡ some (e, deliver msgs (record { asked = []; pong_ready = false }))
  unfolding handle_control_stream
  handle_control_stream_delivers msgs s s' e got h =
      control_loop-deliver (suc (length s.pending)) msgs s s' e _ (omega arith) got h

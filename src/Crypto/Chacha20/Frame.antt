-- ===== src/Crypto/Chacha20/Frame.antt =====
-- One frame: what writeFrame sends readFrame opens.
use qtrp.Common.{
  ◌+◌, ◌-◌, ◌%◌, ◌^◌, ◌≤◌, ◌≡◌, refl, ap, ◌∙◌, none, List, ◌∷◌, ◌++◌, append_assoc, ok, arith,
  length, length-append, take-append_at, drop-append_at,
}
use qtrp.Go.Binary.{put_uint16, uint16, uint16-put_uint16, length-put_uint16}
use qtrp.Go.Io.{Bytes, IoError, Stream, Wire, write_fits, read_full_exact}
use qtrp.Crypto.Chacha20.{
  Aead, max_payload, box, frame, write_frame, write_result, open_frame, read_box, read_frame,
}

module _ ⦃a : Aead⦄ where
  pub length-box : (n p : Bytes) → length n ≡ 12 → length (box n p) ≡ length p + 28
  length-box n p h = omega (arith, length-append n (a.seal n p), a.length-seal n p)

  pub length-frame : (n p : Bytes) → length n ≡ 12 → length (frame n p) ≡ length p + 30
  length-frame n p h = omega (
    arith,
    length-append (put_uint16 (length (box n p) % 2 ^ 16)) (box n p),
    length-put_uint16 (length (box n p) % 2 ^ 16),
    length-box n p h,
  )

  -- The length field of a frame holds the true length: it does not wrap.
  uint16-box :
      (n p : Bytes)
      → length n ≡ 12
      → length p ≤ max_payload
      → uint16 (put_uint16 (length (box n p) % 2 ^ 16)) ≡ length p + 28
  uint16-box n p hn hp =
      let e : length (box n p) % 2 ^ 16 ≡ length p + 28 = omega (arith, length-box n p hn) in
      rw e (uint16-put_uint16 (length p + 28) (omega arith))

  open_frame-box :
      (n p : Bytes) (s : Stream) → length n ≡ 12 → open_frame (ok (box n p), s) ≡ (ok p, s)
  unfolding open_frame
  open_frame-box n p s h =
      rw (take-append_at 12 n (a.seal n p) h, drop-append_at 12 n (a.seal n p) h, a.open-seal n p)

  pub read_frame_lem :
      (n p rest : Bytes) (e : IoError)
      → length n ≡ 12
      → length p ≤ max_payload
      → read_frame (record { pending = frame n p ++ rest; ending = e })
        ≡ (ok p, record { pending = rest; ending = e })
  unfolding read_frame
  read_frame_lem n p rest e hn hp =
      let len = put_uint16 (length (box n p) % 2 ^ 16) in
      rw (append_assoc len (box n p) rest)
        (ap read_box (read_full_exact 2 len (box n p ++ rest) e (length-put_uint16 _)) ∙ opened)
    where
      opened :
          read_box (
            ok (put_uint16 (length (box n p) % 2 ^ 16)),
            record { pending = box n p ++ rest; ending = e },
          )
          ≡ (ok p, record { pending = rest; ending = e })
      opened =
          unfold read_box in
          rw (uint16-box n p hn hp) (
            ground (
              arith,
              ap open_frame (read_full_exact (length p + 28) (box n p) rest e (length-box n p hn)),
              open_frame-box n p (record { pending = rest; ending = e }) hn,
            ))

  pub write_frame_lem :
      (n p : Bytes) (ns : List Bytes) (w : Wire)
      → length n ≡ 12
      → length p + 30 ≤ w.room
      → write_frame p (n ∷ ns) w ≡ (
        none,
        record {
          nonces = ns;
          wire = record { sent = w.sent ++ frame n p; room = w.room - length (frame n p) };
        },
      )
  unfolding write_frame
  write_frame_lem n p ns w hn h =
      rw (write_fits (frame n p) w (omega (arith, length-frame n p hn)))
        (unfold write_result in refl)

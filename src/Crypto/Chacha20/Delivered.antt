-- ===== src/Crypto/Chacha20/Delivered.antt =====
-- What Read gives: the plain text of the frames, in pieces of at most the buffer's size.
use mathlib.Core.List.{cons-ne-nil}
use qtrp.Common.{
  ℕ, zero, suc, ◌≤◌, ◌<◌, ◌≡◌, ◌≢◌, refl, sym, ap, ◌∙◌, Option, none, some, [], ◌∷◌, ◌++◌,
  append_assoc, append-nil, Result, ok, err, arith, length, take, drop, length-append, length-take,
  take-append-drop,
}
use qtrp.Go.Io.{Bytes, IoError, Stream, cut_off, read_full_short}
use qtrp.Crypto.Chacha20.{
  Aead, CryptError, io, Writer, write_conn, Reader, deliver, read_box, read_frame, read_from,
  read_conn,
}
use qtrp.Crypto.Chacha20.Frame.{read_frame_lem}
use qtrp.Crypto.Chacha20.Written.{Boxes, plain, Good, frames, Nonces, write_conn-Ended}

module _ ⦃a : Aead⦄ where
  -- Nothing else is on the stream than whole frames.
  abbrev pub stream_of : Boxes → IoError → Stream
  stream_of bs e = record { pending = frames bs; ending = e }

  abbrev pub reader_of : Bytes → Boxes → IoError → Reader
  reader_of buf bs e = record { stream = stream_of bs e; read_buf = buf }

  -- What a read of at most `n` bytes gives, and what is left for the next.
  pub record Piece (n : ℕ) (content : Bytes) (e : IoError) (r : Result CryptError Bytes × Reader)
      : Type 0 where
    pub got : Bytes
    pub buf : Bytes
    pub boxes : Boxes
    pub result : r ≡ (ok got, reader_of buf boxes e)
    pub good : Good boxes
    pub parts : got ++ (buf ++ plain boxes) ≡ content
    pub progress : got ≢ []
    pub bounded : length got ≤ n

  length_pos : (b : Bytes) → b ≢ [] → 0 < length b
  length_pos [] e = absurd (e refl)
  length_pos (y ∷ b) e = omega arith

  append-ne-nil : (b c : Bytes) → b ≢ [] → b ++ c ≢ []
  append-ne-nil [] c e f = e refl
  append-ne-nil (y ∷ b) c e f = cons-ne-nil y (b ++ c) f

  take-ne-nil : (n : ℕ) (b : Bytes) → 0 < n → b ≢ [] → take n b ≢ []
  take-ne-nil zero b h e = absurd (omega arith)
  take-ne-nil (suc n) [] h e = absurd (e refl)
  take-ne-nil (suc n) (y ∷ b) h e = cons-ne-nil y (take n b)

  take_bounded : (n : ℕ) (b : Bytes) → length (take n b) ≤ n
  take_bounded n b = omega (arith, length-take n b)

  split_parts : (n : ℕ) (b rest : Bytes) → take n b ++ (drop n b ++ rest) ≡ b ++ rest
  split_parts n b rest =
      sym (append_assoc (take n b) (drop n b) rest) ∙ ap (λ s. s ++ rest) (take-append-drop n b)

  read_from-Piece :
      (n : ℕ) (buf : Bytes) (bs : Boxes) (e : IoError)
      → 0 < n
      → Good bs
      → buf ++ plain bs ≢ []
      → Piece n (buf ++ plain bs) e (read_from n buf (stream_of bs e))
  unfolding read_from
  read_from-Piece n [] [] e h good some_left = absurd (some_left refl)
  read_from-Piece n [] ((k, p) ∷ bs) e h good some_left = record {
    got = take n p;
    buf = drop n p;
    boxes = bs;
    result =
        ap (deliver n) (read_frame_lem k p (frames bs) e good.0.0 good.0.1)
        ∙ unfold deliver in refl;
    good = good.1;
    parts = split_parts n p (plain bs);
    progress = take-ne-nil n p h good.0.2;
    bounded = take_bounded n p;
  }
  read_from-Piece n (y ∷ buf) bs e h good some_left = record {
    got = take n (y ∷ buf);
    buf = drop n (y ∷ buf);
    boxes = bs;
    result = refl;
    good = good;
    parts = split_parts n (y ∷ buf) (plain bs);
    progress = take-ne-nil n (y ∷ buf) h (cons-ne-nil y buf);
    bounded = take_bounded n (y ∷ buf);
  }

  -- While plain text is left, a read into a buffer gives some of it, in order.
  pub read_conn-Piece :
      (n : ℕ) (buf : Bytes) (bs : Boxes) (e : IoError)
      → 0 < n
      → Good bs
      → buf ++ plain bs ≢ []
      → Piece n (buf ++ plain bs) e (read_conn n (reader_of buf bs e))
  unfolding read_conn
  read_conn-Piece n buf bs e = read_from-Piece n buf bs e

  read_conn_end :
      (n : ℕ) (e : IoError)
      → read_conn n (reader_of [] [] e) ≡ (err (io (cut_off e 0)), reader_of [] [] e)
  unfolding read_conn read_from read_frame
  read_conn_end n e =
      ap (λ p. deliver n (read_box p)) (read_full_short 2 (stream_of [] e) (omega arith))
      ∙ unfold deliver read_box in refl

  abbrev drain_next :
      Result CryptError Bytes × Reader
      → (Reader → Bytes × Option CryptError)
      → Bytes × Option CryptError
  drain_next (err x, r) go_on = ([], some x)
  drain_next (ok got, r) go_on = let rest = go_on r in (got ++ rest.0, rest.1)

  -- A peer that reads into a buffer of `n` bytes until an error stops it: what it has got, and the
  -- error.
  pub drain : ℕ → ℕ → Reader → Bytes × Option CryptError
  drain zero n r = ([], none)
  drain (suc fuel) n r = drain_next (read_conn n r) (drain fuel n)

  drain-Piece :
      (fuel n : ℕ) (content : Bytes) (e : IoError) (r : Reader)
      → Piece n content e (read_conn n r)
      → ((buf : Bytes) (bs : Boxes)
          → Good bs
          → length (buf ++ plain bs) < fuel
          → drain fuel n (reader_of buf bs e) ≡ (buf ++ plain bs, some (io (cut_off e 0))))
      → length content < suc fuel
      → drain (suc fuel) n r ≡ (content, some (io (cut_off e 0)))
  unfolding drain
  drain-Piece fuel n content e r v ih h =
      ap (λ p. drain_next p (drain fuel n)) v.result
      ∙ ap (λ (p : Bytes × Option CryptError). (v.got ++ p.0, p.1))
          (ih v.buf v.boxes v.good (
            omega (
              arith,
              ap length v.parts,
              length-append v.got (v.buf ++ plain v.boxes),
              length_pos v.got v.progress,
            )))
      ∙ ap (λ (s : Bytes). (s, some (io (cut_off e 0)))) v.parts

  drain_lem :
      (fuel n : ℕ) (e : IoError)
      → 0 < n
      → (buf : Bytes) (bs : Boxes) → Good bs
      → length (buf ++ plain bs) < fuel
      → drain fuel n (reader_of buf bs e) ≡ (buf ++ plain bs, some (io (cut_off e 0)))
  drain_lem zero n e hn buf bs good h = absurd (omega arith)
  drain_lem (suc fuel) n e hn [] [] good h =
      unfold drain in ap (λ p. drain_next p (drain fuel n)) (read_conn_end n e)
  drain_lem (suc fuel) n e hn [] ((k, p) ∷ bs) good h =
      drain-Piece fuel n _ e _
        (read_conn-Piece n [] ((k, p) ∷ bs) e hn good (append-ne-nil p (plain bs) good.0.2))
        (drain_lem fuel n e hn) h
  drain_lem (suc fuel) n e hn (y ∷ buf) bs good h =
      drain-Piece fuel n _ e _
        (read_conn-Piece n (y ∷ buf) bs e hn good (cons-ne-nil y (buf ++ plain bs)))
        (drain_lem fuel n e hn) h

  -- What one side writes is what the other reads: if a call of Write on a fresh connection reports no
  -- error, it reports the number of its bytes, and a peer that has the same key and reads with a
  -- buffer of any size but 0 gets exactly these bytes, and then the end of the stream. Its number of
  -- reads is at most one more than the number of bytes.
  pub drain-write_conn :
      (b : Bytes) (w : Writer) (n : ℕ) (e : IoError)
      → w.wire.sent ≡ []
      → Nonces w.nonces
      → (write_conn b w).0.1 ≡ none
      → 0 < n
      → ((write_conn b w).0.0 ≡ length b)
        × (drain (suc (length b)) n (record {
          stream = record { pending = (write_conn b w).1.wire.sent; ending = e };
          read_buf = [];
        })
            ≡ (b, some (io (cut_off e 0))))
  drain-write_conn b w n e fresh ns done hn =
      let v = write_conn-Ended b w ns in
      let whole : plain v.boxes ≡ b =
        sym (append-nil (plain v.boxes))
        ∙ ap (λ s. plain v.boxes ++ s) (sym (v.complete done).0)
        ∙ v.parts in
      let sent : (write_conn b w).1.wire.sent ≡ frames v.boxes =
        v.sent
        ∙ ap (λ s. s ++ (frames v.boxes ++ v.junk)) fresh
        ∙ ap (λ s. frames v.boxes ++ s) (v.complete done).1
        ∙ append-nil (frames v.boxes) in
      (
        v.counted ∙ omega (arith, ap length whole),
        rw sent (
            drain_lem (suc (length b)) n e hn [] v.boxes v.good (omega (arith, ap length whole))
            ∙ ap (λ (s : Bytes). (s, some (io (cut_off e 0)))) whole),
      )

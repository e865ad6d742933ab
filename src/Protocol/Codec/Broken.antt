-- ===== src/Protocol/Codec/Broken.antt =====
-- Frames that do not arrive whole: a stream that ends within a frame, and two senders whose writes mix.
use mathlib.Core.List.{head-eq_of_cons-eq}
use qtrp.Common.{
  ℕ, ◌+◌, ◌-◌, ◌≤◌, ◌<◌, ◌≡◌, ◌≢◌, refl, sym, ap, ◌∙◌, inl, inr, [], ◌∷◌, ◌++◌, err, ltb,
  if◌then◌else◌, arith, Bool, true, false, List, zero, suc, none, ◌⊎◌, length, length-append,
  length-take, take, drop, take-append_past, take-append-drop, Bool-cases, wrap_error,
}
use qtrp.Go.Binary.{put_uint32, uint32}
use qtrp.Go.Io.{Bytes, IoError, Wire, joined, read_full_exact, read_full_short, cut_off}
use qtrp.Protocol.Message.{Message, Msgpack}
use qtrp.Protocol.Codec.{
  io, packing, max_msg_size, header_of, encode_writes, send_all, decode, read_body, unpack,
}
use qtrp.Protocol.Codec.Merge.{merge, apart, merge-nil_left, merge-nil_right, length-merge_one}
use qtrp.Protocol.Codec.Frames.{
  frame, after, send_all_fits, length-frame, length-header_of, uint32-header_of, decode_header,
}

module _ ⦃m : Msgpack Message⦄ where
  cut_header :
      (b : Bytes) (k : ℕ) (e : IoError)
      → k < 4
      → decode (record { pending = take k (frame b); ending = e })
        ≡ (err (io (cut_off e k)), record { pending = []; ending = e })
  cut_header b k e h =
      let n : length (take k (frame b)) ≡ k =
        omega (arith, length-take k (frame b), length-frame b) in
      let short =
        read_full_short 4 (record { pending = take k (frame b); ending = e }) (omega (arith, n)) in
      unfold decode in ap read_body short ∙ rw n (unfold read_body in refl)

  cut_body :
      (b : Bytes) (k : ℕ) (e : IoError)
      → length b ≤ max_msg_size
      → 4 ≤ k
      → k < 4 + length b
      → decode (record { pending = take k (frame b); ending = e })
        ≡ (err (io (cut_off e (k - 4))), record { pending = []; ending = e })
  cut_body b k e small hk h =
      let past : take k (frame b) ≡ header_of b ++ take (k - 4) b =
        rw (length-header_of b) at
          (take-append_past k (header_of b) b (omega (arith, length-header_of b))) in
      let n : length (take (k - 4) b) ≡ k - 4 = omega (arith, length-take (k - 4) b) in
      let short =
        read_full_short (length b) (record { pending = take (k - 4) b; ending = e })
          (omega (arith, n)) in
      rw past
        (decode_header b (take (k - 4) b) e small ∙ ap unpack short ∙ rw n (unfold unpack in refl))

  -- Of a frame that ends too soon, at any place, no message is made: the answer is the error with
  -- which the stream ended, or `unexpected_eof` for an end within the header or within the body. At
  -- the border of the two, where the header has come whole and nothing of the body, it is `eof`.
  pub decode_cut :
      (b : Bytes) (k : ℕ) (e : IoError)
      → length b ≤ max_msg_size
      → k < 4 + length b
      → decode (record { pending = take k (frame b); ending = e })
        ≡ (err (io (cut_off e (if ltb k 4 then k else k - 4))), record { pending = []; ending = e })
  decode_cut b k e small h = elim (Bool-cases (ltb k 4)) [
    | inl early ↦ rw early (cut_header b k e (ground arith))
    | inr late ↦ rw late (cut_body b k e small (ground arith) h)
  ]

-- The header's first byte is 0 for a body below 16 MB.
header_front :
    (c rest : Bytes) → length c ≤ max_msg_size → (t : Bytes) × (header_of c ++ rest ≡ 0 ∷ t)
unfolding put_uint32
header_front c rest h =
    let t = drop 1 (header_of c ++ rest) in (t, ap (λ (x : ℕ). x ∷ t) (omega arith))

-- A body as a packed struct is: with a byte in front that is not 0.
pub record IsBody (b : Bytes) : Type 0 where
  pub front : ℕ
  pub others : Bytes
  pub parts : b ≡ front ∷ others
  pub nonzero : front ≢ 0
  pub small : length b ≤ max_msg_size

IsBody-length : (b : Bytes) → IsBody b → 0 < length b
IsBody-length b i = omega (arith, ap length i.parts)

-- What is cut out from the other header on is no body.
take-header :
    (n : ℕ) (c rest d : Bytes)
    → 0 < n
    → length c ≤ max_msg_size
    → IsBody d
    → take n (header_of c ++ rest) ≢ d
take-header zero c rest d pos h i same = absurd (omega arith)
take-header (suc n) c rest d pos h i same =
    let (u, f) = header_front c rest h in
    i.nonzero (sym (head-eq_of_cons-eq (sym (ap (take (suc n)) f) ∙ (same ∙ i.parts))))

send_all_two :
    (x y : Bytes) (bs : List Bytes) (w : Wire)
    → length (x ++ (y ++ joined bs)) ≤ w.room
    → send_all (x ∷ y ∷ bs) w ≡ (none, after w (x ++ (y ++ joined bs)))
unfolding joined
send_all_two x y bs w h = send_all_fits (x ∷ y ∷ bs) w h

-- The frames go out one behind the other.
abbrev pub IsApart : Bytes → Bytes → List Bytes → Type 0
IsApart b c bs =
    (bs ≡ encode_writes b ++ encode_writes c) ⊎ (bs ≡ encode_writes c ++ encode_writes b)

module _ ⦃m : Msgpack Message⦄ where
  -- The receiver of these writes cuts out `g`, the bytes behind the first header that are as many as it
  -- says, and unpacks them; and neither sender packed them.
  abbrev pub Mangles : Bytes → Bytes → List Bytes → Wire → IoError → Type 0
  Mangles b c bs w e =
      (h g rest : Bytes) × ((send_all bs w).1.sent ≡ h ++ (g ++ rest))
      × (length h ≡ 4)
      × (uint32 h ≡ length g)
      × (decode (record { pending = (send_all bs w).1.sent; ending = e })
          ≡ (wrap_error packing (m.unmarshal g), record { pending = rest; ending = e }))
      × (g ≢ b)
      × (g ≢ c)

  -- Behind one header comes the other.
  headers-Mangles :
      (b c : Bytes) (bs : List Bytes) (w : Wire) (e : IoError)
      → w.sent ≡ []
      → length (frame b) + length (frame c) ≤ w.room
      → length (joined bs) ≡ length b + length c
      → IsBody b
      → IsBody c
      → Mangles b c (header_of b ∷ header_of c ∷ bs) w e
  headers-Mangles b c bs w e fresh fits size ib ic =
      let n = length b in
      let bytes = header_of c ++ joined bs in
      let all : Bytes = header_of b ++ bytes in
      let long : length bytes ≡ 4 + length (joined bs) =
        omega (arith, length-append (header_of c) (joined bs), length-header_of c) in
      let room : length all ≤ w.room = omega (
        arith,
        length-append (header_of b) bytes,
        length-header_of b,
        long,
        size,
        length-frame b,
        length-frame c,
      ) in
      let g = take n bytes in
      let body : length g ≡ n = omega (arith, length-take n bytes, long, size) in
      let sent : (send_all (header_of b ∷ header_of c ∷ bs) w).1.sent
          ≡ header_of b ++ (g ++ drop n bytes) =
        ap (λ r. r.1.sent) (send_all_two (header_of b) (header_of c) bs w room)
        ∙ rw (fresh, take-append-drop n bytes) refl in
      (
        header_of b,
        g,
        drop n bytes,
        sent,
        length-header_of b,
        uint32-header_of b (omega (arith, ib.small)) ∙ sym body,
        rw sent (
            decode_header b (g ++ drop n bytes) e ib.small
            ∙ ap unpack (read_full_exact n g (drop n bytes) e body)
            ∙ unfold unpack in refl),
        take-header n c (joined bs) b (IsBody-length b ib) ic.small ib,
        take-header n c (joined bs) c (IsBody-length b ib) ic.small ic,
      )

  headers-Mangles_second :
      (b c : Bytes) (bs : List Bytes) (w : Wire) (e : IoError)
      → w.sent ≡ []
      → length (frame b) + length (frame c) ≤ w.room
      → length (joined bs) ≡ length b + length c
      → IsBody b
      → IsBody c
      → Mangles b c (header_of c ∷ header_of b ∷ bs) w e
  headers-Mangles_second b c bs w e fresh fits size ib ic =
      let (h, g, rest, parts, four, size_of, read, n, k) =
        headers-Mangles c b bs w e fresh (omega arith) (omega (arith, size)) ic ib in
      (h, g, rest, parts, four, size_of, read, k, n)

  -- Encode makes two calls of Write, and takes no lock. Two senders share a connection that takes all
  -- that they send, and send two bodies of at most a megabyte that do not begin with a zero byte (as no
  -- packed struct does). Whatever the order of their calls: if the calls of one come before those of the
  -- other, then the frames go out one behind the other; and if not, then the receiver unpacks bytes that
  -- are neither the first body nor the second.
  pub mixed_senders :
      (turns : List Bool) (b c : Bytes) (w : Wire) (e : IoError)
      → w.sent ≡ []
      → length (frame b) + length (frame c) ≤ w.room
      → IsBody b
      → IsBody c
      → ((apart turns ≡ true) × IsApart b c (merge turns (encode_writes b) (encode_writes c)))
        ⊎ ((apart turns ≡ false)
            × Mangles b c (merge turns (encode_writes b) (encode_writes c)) w e)
  unfolding merge apart
  mixed_senders [] b c w e fresh fits ib ic = inl (refl, inl refl)
  mixed_senders (true ∷ []) b c w e fresh fits ib ic = inl (refl, inl refl)
  mixed_senders (true ∷ true ∷ turns) b c w e fresh fits ib ic =
      inl (refl, inl (ap (λ z. header_of b ∷ b ∷ z) (merge-nil_left turns (encode_writes c))))
  mixed_senders (true ∷ false ∷ turns) b c w e fresh fits ib ic =
      inr (refl, headers-Mangles b c _ w e fresh fits (length-merge_one turns b c) ib ic)
  mixed_senders (false ∷ []) b c w e fresh fits ib ic =
      inr (refl, headers-Mangles_second b c _ w e fresh fits (length-merge_one [] b c) ib ic)
  mixed_senders (false ∷ true ∷ turns) b c w e fresh fits ib ic =
      inr (refl, headers-Mangles_second b c _ w e fresh fits (length-merge_one turns b c) ib ic)
  mixed_senders (false ∷ false ∷ turns) b c w e fresh fits ib ic =
      inl (refl, inr (ap (λ z. header_of c ∷ c ∷ z) (merge-nil_right turns (encode_writes b))))

-- ===== src/Crypto/Chacha20/Written.antt =====
-- What Write sends: the frames of the chunks of its argument.
use mathlib.Core.List.{cons-ne-nil}
use qtrp.Common.{
  ℕ, zero, suc, ◌+◌, ◌-◌, ◌≤◌, ◌<◌, ◌≡◌, ◌≢◌, ◌⊎◌, inl, inr, refl, sym, ap, subst, ◌∙◌, Option,
  none, some, List, [], ◌∷◌, ◌++◌, append_assoc, append-nil, arith, leb, length, take, drop, All,
  Bool-cases, length-append, length-take, length-drop, take-append-drop,
}
use qtrp.Go.Io.{Bytes, other, Wire, write}
use qtrp.Crypto.Chacha20.{
  Aead, CryptError, io, no_random, max_payload, frame, Writer, write_frame, write_result,
  write_loop, write_conn,
}

-- Pairs of a nonce and a chunk of plain text.
abbrev pub Boxes : Type 0
Boxes = List (Bytes × Bytes)

abbrev pub plain : Boxes → Bytes
plain [] = []
plain ((n, p) ∷ bs) = p ++ plain bs

abbrev pub nonces_of : Boxes → List Bytes
nonces_of [] = []
nonces_of ((n, p) ∷ bs) = n ∷ nonces_of bs

abbrev pub Good : Boxes → Type 0
Good = All (λ b. (length b.0 ≡ 12) × (length b.1 ≤ max_payload) × (b.1 ≢ []))

-- A source of nonces of the right size.
abbrev pub Nonces : List Bytes → Type 0
Nonces = All (λ n. length n ≡ 12)

module _ ⦃a : Aead⦄ where
  abbrev pub frames : Boxes → Bytes
  frames [] = []
  frames ((n, p) ∷ bs) = frame n p ++ frames bs

  -- A frame went out whole.
  record Went (p : Bytes) (ns : List Bytes) (w : Wire) : Type 0 where
    n : Bytes
    ns' : List Bytes
    r : ℕ
    supply : ns ≡ n ∷ ns'
    result :
        write_frame p ns w
        ≡ (none, record { nonces = ns'; wire = record { sent = w.sent ++ frame n p; room = r } })

  -- What is left behind by a frame that failed: nothing, without a nonce, or a part of the frame that
  -- is not all of it, where the connection failed.
  pub data Torn (p : Bytes) : List Bytes → CryptError → Bytes → Type 0 where
    no_nonce : Torn p [] no_random []
    cut_short :
        (n : Bytes) (ns : List Bytes) (k : ℕ)
        → k < length (frame n p)
        → Torn p (n ∷ ns) (io (other 0)) (take k (frame n p))

  -- A frame did not go out, or a part of it only.
  record Stuck (p : Bytes) (ns : List Bytes) (w : Wire) : Type 0 where
    x : CryptError
    u : Writer
    junk : Bytes
    torn : Torn p ns x junk
    sent : u.wire.sent ≡ w.sent ++ junk
    result : write_frame p ns w ≡ (some x, u)

  write_frame_cases : (p : Bytes) (ns : List Bytes) (w : Wire) → Went p ns w ⊎ Stuck p ns w
  unfolding write_frame
  write_frame_cases p [] w = inr (record {
    x = no_random;
    u = record { nonces = []; wire = w };
    junk = [];
    torn = no_nonce;
    sent = sym (append-nil w.sent);
    result = refl;
  })
  write_frame_cases p (n ∷ ns) w = elim (Bool-cases (leb (length (frame n p)) w.room)) [
    | inl fits ↦ inl (record {
      n = n;
      ns' = ns;
      r = w.room - length (frame n p);
      supply = refl;
      result = unfold write write_result in rw fits;
    })
    | inr full ↦ inr (record {
      x = io (other 0);
      u = record {
        nonces = ns;
        wire = record { sent = w.sent ++ take w.room (frame n p); room = 0 };
      };
      junk = take w.room (frame n p);
      torn = cut_short n ns w.room (ground (arith, full));
      sent = refl;
      result = unfold write write_result in rw full;
    })
  ]

  -- How a call of Write has ended: some chunks went out whole, and behind them, on an error, perhaps a
  -- part of the next one's frame.
  pub record Ended (b : Bytes) (total : ℕ) (w : Writer) (r : (ℕ × Option CryptError) × Writer)
      : Type 0 where
    pub boxes : Boxes
    pub left : Bytes
    pub junk : Bytes
    pub spare : List Bytes
    pub good : Good boxes
    pub supplied : nonces_of boxes ++ spare ≡ w.nonces
    pub parts : plain boxes ++ left ≡ b
    pub counted : r.0.0 ≡ total + length (plain boxes)
    pub sent : r.1.wire.sent ≡ w.wire.sent ++ (frames boxes ++ junk)
    pub complete : r.0.1 ≡ none → (left ≡ []) × (junk ≡ [])
    pub stopped :
        (x : CryptError) → r.0.1 ≡ some x → (left ≢ []) × Torn (take max_payload left) spare x junk

  -- One chunk more in front.
  Ended-cons :
      (n p rest b : Bytes) (total : ℕ) (w w1 : Writer) (r : (ℕ × Option CryptError) × Writer)
      → p ++ rest ≡ b
      → (length n ≡ 12) × (length p ≤ max_payload) × (p ≢ [])
      → w.nonces ≡ n ∷ w1.nonces
      → w1.wire.sent ≡ w.wire.sent ++ frame n p
      → Ended rest (total + length p) w1 r
      → Ended b total w r
  Ended-cons n p rest b total w w1 r whole good supply sent v = record {
    boxes = (n, p) ∷ v.boxes;
    left = v.left;
    junk = v.junk;
    spare = v.spare;
    good = (good, v.good);
    supplied = ap (λ z. n ∷ z) v.supplied ∙ sym supply;
    parts = append_assoc p (plain v.boxes) v.left ∙ ap (λ s. p ++ s) v.parts ∙ whole;
    counted = omega (arith, v.counted, length-append p (plain v.boxes));
    sent = v.sent ∙ ap (λ s. s ++ (frames v.boxes ++ v.junk)) sent ∙ simp append_assoc;
    complete = v.complete;
    stopped = v.stopped;
  }

  Ended-nothing : (b : Bytes) (total : ℕ) (w : Writer) → b ≡ [] → Ended b total w ((total, none), w)
  Ended-nothing b total w e = record {
    boxes = [];
    left = [];
    junk = [];
    spare = w.nonces;
    good = tt;
    supplied = refl;
    parts = sym e;
    counted = omega arith;
    sent = sym (append-nil w.wire.sent);
    complete = λ h. (refl, refl);
    stopped = λ x h. absurd (cc h);
  }

  Ended-stuck :
      (b : Bytes) (total : ℕ) (w u : Writer) (x : CryptError) (junk : Bytes)
      → b ≢ []
      → Torn (take max_payload b) w.nonces x junk
      → u.wire.sent ≡ w.wire.sent ++ junk
      → Ended b total w ((total, some x), u)
  Ended-stuck b total w u x junk some_left torn e = record {
    boxes = [];
    left = b;
    junk = junk;
    spare = w.nonces;
    good = tt;
    supplied = refl;
    parts = refl;
    counted = omega arith;
    sent = e;
    complete = λ h. absurd (cc h);
    stopped = λ y h.
        let same : x ≡ y = cc in
        (some_left, subst (λ z. Torn (take max_payload b) w.nonces z junk) same torn);
  }

  -- A round of the loop, by how its frame went.
  round_stuck :
      (fuel : ℕ) (y : ℕ) (b : Bytes) (total : ℕ) (w u : Writer) (x : CryptError)
      → write_frame (take max_payload (y ∷ b)) w.nonces w.wire ≡ (some x, u)
      → write_loop (suc fuel) (y ∷ b) total w ≡ ((total, some x), u)
  unfolding write_loop
  round_stuck fuel y b total w u x h = ground arith

  round_went :
      (fuel : ℕ) (y : ℕ) (b : Bytes) (total : ℕ) (w u : Writer)
      → write_frame (take max_payload (y ∷ b)) w.nonces w.wire ≡ (none, u)
      → write_loop (suc fuel) (y ∷ b) total w
        ≡ write_loop fuel (drop max_payload (y ∷ b)) (total + length (take max_payload (y ∷ b))) u
  unfolding write_loop
  round_went fuel y b total w u h = ground arith

  take-ne-nil : (n : ℕ) (y : ℕ) (b : Bytes) → 0 < n → take n (y ∷ b) ≢ []
  take-ne-nil zero y b h = absurd (omega arith)
  take-ne-nil (suc n) y b h = cons-ne-nil y (take n b)

  write_loop-Ended :
      (fuel : ℕ) (b : Bytes) (total : ℕ) (w : Writer)
      → length b ≤ fuel
      → Nonces w.nonces
      → Ended b total w (write_loop fuel b total w)
  write_loop-Ended zero [] total w h ns = unfold write_loop in Ended-nothing [] total w refl
  write_loop-Ended zero (y ∷ b) total w h ns = absurd (omega arith)
  write_loop-Ended (suc fuel) [] total w h ns = unfold write_loop in Ended-nothing [] total w refl
  write_loop-Ended (suc fuel) (y ∷ b) total w h ns =
      elim (write_frame_cases (take max_payload (y ∷ b)) w.nonces w.wire) [
        | inr s ↦
            rw (round_stuck fuel y b total w s.u s.x s.result)
              (Ended-stuck (y ∷ b) total w s.u s.x s.junk (cons-ne-nil y b) s.torn s.sent)
        | inl s ↦
            let chunk = take max_payload (y ∷ b) in
            let rest = drop max_payload (y ∷ b) in
            let u : Writer = record {
              nonces = s.ns';
              wire = record { sent = w.wire.sent ++ frame s.n chunk; room = s.r };
            } in
            let ns' : Nonces (s.n ∷ s.ns') = rw s.supply at ns in
            let short : length rest ≤ fuel = omega (arith, length-drop max_payload (y ∷ b)) in
            rw (round_went fuel y b total w u s.result) (
              Ended-cons s.n chunk rest (y ∷ b) total w u _ (take-append-drop max_payload (y ∷ b))
                (
                  ns'.0,
                  omega (arith, length-take max_payload (y ∷ b)),
                  take-ne-nil max_payload y b (omega arith),
                )
                s.supply refl (write_loop-Ended fuel rest (total + length chunk) u short ns'.1))
      ]

  -- Whatever happens to the connection or the random source, if its nonces have twelve bytes: a call of
  -- Write ends with a count of bytes that went out in whole frames of at most `max_payload` bytes each,
  -- which are the front of its argument, each under the next nonce of the source. With no error nothing
  -- is left over, and nothing else went out. With an error some of the argument is left, and behind the
  -- whole frames there is nothing if no nonce came, and a part, not all, of the frame of the next chunk
  -- if the connection failed.
  pub write_conn-Ended : (b : Bytes) (w : Writer) → Nonces w.nonces → Ended b 0 w (write_conn b w)
  unfolding write_conn
  write_conn-Ended b w ns = write_loop-Ended (length b) b 0 w (omega arith) ns

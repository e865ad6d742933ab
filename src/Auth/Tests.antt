-- ===== src/Auth/Tests.antt =====
-- A stand-in for HMAC-SHA256, and the theorems at concrete inputs.
use qtrp.Common.{ℕ, ◌+◌, ◌-◌, ◌*◌, ◌^◌, ◌<◌, ◌≡◌, ◌↔◌, ◌⊎◌, refl, true, false, [], ◌∷◌, arith}
use qtrp.Go.Int64.{pos, negsuc, sub64, neg64}
use qtrp.Go.Io.{Bytes}
use qtrp.Go.Strconv.{format_int, parse_int-format_int}
use qtrp.Go.Strings.{Text, codes, text_eq}
use qtrp.Auth.{
  Authenticator, second, nonce_expiry, unix, seen_at, cleanup, has_token, in_window, sign, verify,
}
use qtrp.Auth.Window.{Near, Overflows, in_window_iff}
use qtrp.Auth.Accept.{Admissible, verify_iff, signed_accepted}
use qtrp.Auth.History.{here}
use qtrp.Auth.Replay.{no_replay, replayed}
use qtrp.Auth.Race
use qtrp.Auth.Race.{accepted_often}

-- The key stands for the code.
abbrev toy_hmac : Bytes → Bytes → Bytes
toy_hmac key text = key

abbrev one_token : Authenticator
one_token = record { tokens = codes "token-one" ∷ []; nonce_cache = [] }

abbrev noon : ℕ
noon = 43_200 * second

in_window_iff_example : (in_window noon (negsuc (2 ^ 63 - 43_200 - 1)) ≡ true) ↔ (
    Near (unix noon) (negsuc (2 ^ 63 - 43_200 - 1))
    ⊎ Overflows (unix noon) (negsuc (2 ^ 63 - 43_200 - 1)))
in_window_iff_example =
    in_window_iff noon (negsuc (2 ^ 63 - 43_200 - 1)) (omega arith) (omega arith)

-- At noon a timestamp of 2 ^ 63 seconds before is taken for a recent one.
far_past_in_window : in_window noon (negsuc (2 ^ 63 - 43_200 - 1)) ≡ true
unfolding in_window sub64 neg64
far_past_in_window = refl

verify_iff_example :
    ((verify toy_hmac one_token noon noon (codes "token-two") (codes "43200") (codes "n1") []).0
      ≡ true)
    ↔ (Admissible one_token noon (codes "token-two") (codes "43200") (codes "n1")
        × ([] ≡ sign toy_hmac (codes "token-two") (codes "43200") (codes "n1")))
verify_iff_example =
    verify_iff toy_hmac one_token noon noon (codes "token-two") (codes "43200") (codes "n1") []

knows_token : has_token (codes "token-one") one_token.tokens ≡ true
unfolding has_token text_eq
knows_token = refl

abbrev signature_at : ℕ → Text
signature_at n = sign toy_hmac (codes "token-one") (format_int (pos n)) (codes "n1")

accepted_at :
    (n : ℕ)
    → n < 43_300
    → 42_900 < n
    → (verify toy_hmac one_token noon noon
        (codes "token-one")
        (format_int (pos n))
        (codes "n1")
        (signature_at n)).0
      ≡ true
accepted_at n h h' =
    signed_accepted toy_hmac one_token noon noon (codes "token-one") (codes "n1") (pos n)
      (omega arith) (omega arith) knows_token (omega arith) (unfold seen_at in refl)

no_replay_example :
    (verify toy_hmac
      (verify toy_hmac one_token noon noon
        (codes "token-one")
        (format_int (pos 43_000))
        (codes "n1")
        (signature_at 43_000)).1
      (noon + 1)
      (noon + 1)
      (codes "token-one")
      (format_int (pos 43_000))
      (codes "n1")
      (signature_at 43_000)).0
    ≡ false
no_replay_example =
    no_replay toy_hmac one_token noon noon (codes "token-one") (format_int (pos 43_000))
      (codes "n1") (signature_at 43_000) (pos 43_000)
      (accepted_at 43_000 (omega arith) (omega arith)) (omega arith)
      (parse_int-format_int (pos 43_000) (omega arith)) (omega arith)
      (record {
        clock = noon;
        auth =
            (verify toy_hmac one_token noon noon (codes "token-one") (format_int (pos 43_000))
              (codes "n1") (signature_at 43_000)).1;
      })
      here (noon + 1) (noon + 1) (codes "token-one") (signature_at 43_000) (omega arith)
      (omega arith)

replayed_example :
    let later = noon + nonce_expiry + 1 in
    let b =
      (verify toy_hmac one_token noon noon
        (codes "token-one")
        (format_int (pos 43_299))
        (codes "n1")
        (signature_at 43_299)).1 in
    let c : Authenticator = record b { nonce_cache = cleanup later b.nonce_cache } in
    (verify toy_hmac c later later
      (codes "token-one")
      (format_int (pos 43_299))
      (codes "n1")
      (signature_at 43_299)).0
    ≡ true
replayed_example =
    replayed toy_hmac one_token noon 43_299 (codes "token-one") (format_int (pos 43_299))
      (codes "n1") (signature_at 43_299) (accepted_at 43_299 (omega arith) (omega arith))
      (parse_int-format_int (pos 43_299) (omega arith)) (omega arith) (omega arith)

noon-Admissible :
    Admissible one_token noon (codes "token-one") (format_int (pos 43_200)) (codes "n1")
noon-Admissible = record {
  known = knows_token;
  ts = pos 43_200;
  parsed = parse_int-format_int (pos 43_200) (omega arith);
  in_time = unfold in_window sub64 in refl;
  unseen = unfold seen_at in refl;
}

accepted_often_example :
    (d : Authenticator) × Race.Reach toy_hmac noon
      (codes "token-one")
      (format_int (pos 43_200))
      (codes "n1")
      (signature_at 43_200)
      (record { auth = one_token; asked = 0; accepted = 0 })
      (record { auth = d; asked = 0; accepted = 3 })
accepted_often_example =
    accepted_often toy_hmac noon (codes "token-one") (format_int (pos 43_200)) (codes "n1")
      (signature_at 43_200) one_token 3 noon-Admissible refl

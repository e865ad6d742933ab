-- ===== src/Crypto/Chacha20/Tests.antt =====
-- A stand-in for the cipher, a run, and the theorems at concrete inputs.
use qtrp.Common.{
  ◌+◌, ◌-◌, ◌≡◌, refl, Option, none, some, [], ◌∷◌, ◌++◌, arith, length, take, replicate,
  length-append, take-append_at, ap,
}
use qtrp.Go.Binary.{put_uint16}
use qtrp.Go.Io.{Bytes, eof, write, cut_off}
use qtrp.Crypto.Chacha20.{Aead, io, Writer, write_conn}
use qtrp.Crypto.Chacha20.Delivered.{drain, drain-write_conn}
use qtrp.Crypto.Chacha20.Written.{Ended, write_conn-Ended}

-- Sixteen bytes behind the plain text.
abbrev toy_seal : Bytes → Bytes → Bytes
toy_seal nonce text = text ++ replicate 16 0

abbrev toy_open : Bytes → Bytes → Option Bytes
toy_open nonce box = some (take (length box - 16) box)

toy_open-seal : (n p : Bytes) → toy_open n (toy_seal n p) ≡ some p
toy_open-seal n p = ap some (
    take-append_at (length (p ++ replicate 16 0) - 16) p (replicate 16 0)
      (omega (arith, length-append p (replicate 16 0))))

toy_length : (n p : Bytes) → length (toy_seal n p) ≡ length p + 16
toy_length n p = omega (arith, length-append p (replicate 16 0))

instance abbrev toy : Aead
toy = record {
  seal = toy_seal;
  open_sealed = toy_open;
  open-seal = toy_open-seal;
  length-seal = toy_length;
}

abbrev fresh : Writer
fresh = record { nonces = replicate 12 5 ∷ []; wire = record { sent = []; room = 1_000 } }

abbrev text : Bytes
text = 10 ∷ 20 ∷ 30 ∷ []

write_conn-Ended_example : Ended text 0 fresh (write_conn text fresh)
write_conn-Ended_example = write_conn-Ended text fresh (refl, tt)

no_error : (write_conn text fresh).0.1 ≡ none
unfolding write_conn write put_uint16
no_error = refl

drain-write_conn_example :
    ((write_conn text fresh).0.0 ≡ 3)
    × (drain 4 2 (record {
      stream = record { pending = (write_conn text fresh).1.wire.sent; ending = eof };
      read_buf = [];
    })
        ≡ (text, some (io (cut_off eof 0))))
drain-write_conn_example = drain-write_conn text fresh 2 eof refl (refl, tt) no_error (omega arith)

-- ===== src/Server/Gate.antt =====
-- internal/server/server.go: whom handleAuth admits.
use qtrp.Common.{
  ℕ, ◌≡◌, ◌≤◌, refl, Bool, true, false, Option, none, some, arith, ◌==◌, ==_iff, if◌then◌else◌, ltb,
  length, Result, ok, err, inl, inr, ◌⊎◌,
}
use qtrp.Auth.{verify}
use qtrp.Go.Io.{Bytes, Wire}
use qtrp.Go.Strconv.{format_int}
use qtrp.Go.Strings.{Text}
use qtrp.Protocol.Codec.{CodecError}
use qtrp.Protocol.Message.{
  Message, Msgpack, AuthRequest, AuthResponse, decode_payload, msg_type_auth,
}
use qtrp.Server.Admission.{
  AuthError, prefix_size, admit, concluded, answer, judge, handle_auth_request, handle_auth,
}
use qtrp.Server.State.{Server}

admit-eq-ok :
    (token : Text) (session now c : ℕ) (s : Server)
    → (admit token session now s).0 ≡ ok c
    → prefix_size ≤ length token
unfolding admit
admit-eq-ok token session now c s e = ground arith

concluded-eq-ok :
    (accepted : Bool) (token : Text) (session now c : ℕ) (s : Server)
    (sent : Option CodecError × Wire)
    → (concluded accepted token session now s sent).0 ≡ ok c
    → (accepted ≡ true) × (prefix_size ≤ length token)
unfolding concluded
concluded-eq-ok accepted token session now c s (some x, w) e = cc
concluded-eq-ok false token session now c s (none, w) e = cc
concluded-eq-ok true token session now c s (none, w) e = (refl, admit-eq-ok token session now c s e)

if-eq-ok :
    {X : Type 0} (b : Bool) (x y : Result AuthError ℕ × X) {c : ℕ}
    → (if b then x else y).0 ≡ ok c
    → ((b ≡ true) × (x.0 ≡ ok c)) ⊎ ((b ≡ false) × (y.0 ≡ ok c))
if-eq-ok true x y e = inl (refl, e)
if-eq-ok false x y e = inr (refl, e)

module _ (hmac_sha256 : Bytes → Bytes → Bytes) where
  module _ ⦃m : Msgpack Message⦄ ⦃req_pack : Msgpack AuthRequest⦄
      ⦃resp_pack : Msgpack AuthResponse⦄ where
    answer-eq-ok :
        (accepted : Bool) (token : Text) (session now c : ℕ) (s : Server) (w : Wire)
        → (answer hmac_sha256 accepted token session now s w).0 ≡ ok c
        → (accepted ≡ true) × (prefix_size ≤ length token)
    unfolding answer
    answer-eq-ok true token session now c s w e = concluded-eq-ok true token session now c s _ e
    answer-eq-ok false token session now c s w e =
        elim (if-eq-ok (ltb (length token) prefix_size) _ _ e) [
          | inl (short, f) ↦ cc
          | inr (long, f) ↦ concluded-eq-ok false token session now c s _ f
        ]

    request-eq-ok :
        (session now entered c : ℕ) (decoded : Result ℕ AuthRequest) (s : Server) (w : Wire)
        → (handle_auth_request hmac_sha256 session now entered decoded s w).0 ≡ ok c
        → (req : AuthRequest) × (decoded ≡ ok req)
          × ((verify hmac_sha256 s.auth now entered req.token
                (format_int req.timestamp)
                req.nonce
                req.sign).0
              ≡ true)
          × (prefix_size ≤ length req.token)
    unfolding handle_auth_request judge
    request-eq-ok session now entered c (err x) s w e = cc
    request-eq-ok session now entered c (ok req) s w e =
        let (verdict, long) = answer-eq-ok _ req.token session entered c _ w e in
        (req, refl, verdict, long)

    -- A client is admitted only for a message of the type Auth whose payload decodes to a request that
    -- Verify accepts, with a token of at least 8 bytes.
    pub handle_auth-eq-ok :
        (session now entered c : ℕ) (msg : Message) (s : Server) (w : Wire)
        → (handle_auth hmac_sha256 session now entered (ok msg) s w).0 ≡ ok c
        → (msg.msg_type ≡ msg_type_auth)
          × ((req : AuthRequest) × (decode_payload msg ≡ ok req)
              × ((verify hmac_sha256 s.auth now entered req.token
                    (format_int req.timestamp)
                    req.nonce
                    req.sign).0
                  ≡ true)
              × (prefix_size ≤ length req.token))
    unfolding handle_auth
    handle_auth-eq-ok session now entered c msg s w e =
        elim (if-eq-ok (msg.msg_type == msg_type_auth) _ _ e) [
          | inl (typed, f) ↦ (
            (==_iff msg.msg_type msg_type_auth).0 typed,
            request-eq-ok session now entered c (decode_payload msg) s w f,
          )
          | inr (untyped, f) ↦ cc
        ]

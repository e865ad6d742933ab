-- ===== src/Server/Welcome.antt =====
-- internal/server/server.go: handleAuth on a request that Verify accepts.
use qtrp.Common.{
  ℕ, ◌≡◌, ◌≤◌, ap, ◌∙◌, true, none, arith, ◌==◌, ==_iff, if_true, if◌then◌else◌, ltb, length,
  Result, ok,
}
use qtrp.Auth.{verify}
use qtrp.Go.Io.{Bytes, Wire}
use qtrp.Go.Strconv.{format_int}
use qtrp.Go.Strings.{Text}
use qtrp.Protocol.Codec.{send_message}
use qtrp.Protocol.Message.{
  Message, Msgpack, AuthRequest, AuthResponse, decode_payload, msg_type_auth, msg_type_auth_resp,
}
use qtrp.Server.Admission.{
  AuthError, prefix_size, admit, concluded, answer, judge, handle_auth_request, handle_auth,
  response_of,
}
use qtrp.Server.State.{Server}

-- A client is admitted, and the connection is as `w`.
abbrev pub IsAdmitted : Result AuthError ℕ × (Server × Wire) → Wire → Type 0
IsAdmitted r w = (c : ℕ) × (r.0 ≡ ok c) × (r.1.1 ≡ w)

long_else : {X : Type 0} (a b : ℕ) → b ≤ a → (x y : X) → (if ltb a b then x else y) ≡ y
long_else a b h x y = ground arith

IsAdmitted-admit :
    (token : Text) (session now : ℕ) (s : Server)
    → prefix_size ≤ length token
    → (c : ℕ) × ((admit token session now s).0 ≡ ok c)
unfolding admit
IsAdmitted-admit token session now s long = (
  _,
  ap (λ (r : Result AuthError ℕ × Server). r.0) (long_else (length token) prefix_size long _ _),
)

module _ (hmac_sha256 : Bytes → Bytes → Bytes) where
  module _ ⦃m : Msgpack Message⦄ ⦃req_pack : Msgpack AuthRequest⦄
      ⦃resp_pack : Msgpack AuthResponse⦄ where
    IsAdmitted-answer :
        (token : Text) (session now : ℕ) (s : Server) (w w' : Wire)
        → prefix_size ≤ length token
        → send_message msg_type_auth_resp (response_of true) w ≡ (none, w')
        → IsAdmitted (answer hmac_sha256 true token session now s w) w'
    unfolding answer concluded
    IsAdmitted-answer token session now s w w' long sent =
        let (c, e) = IsAdmitted-admit token session now s long in
        (
          c,
          ap (λ r. (concluded true token session now s r).0) sent ∙ e,
          ap (λ r. (concluded true token session now s r).1.1) sent,
        )

    -- A message of the type Auth is admitted if its request is accepted by Verify, its token has at
    -- least 8 bytes and the answer can be sent.
    pub handle_auth-IsAdmitted :
        (session now entered : ℕ) (msg : Message) (req : AuthRequest) (s : Server) (w w' : Wire)
        → msg.msg_type ≡ msg_type_auth
        → decode_payload msg ≡ ok req
        → (verify hmac_sha256 s.auth now entered req.token
            (format_int req.timestamp)
            req.nonce
            req.sign).0
          ≡ true
        → prefix_size ≤ length req.token
        → send_message msg_type_auth_resp (response_of true) w ≡ (none, w')
        → IsAdmitted (handle_auth hmac_sha256 session now entered (ok msg) s w) w'
    unfolding handle_auth handle_auth_request judge
    handle_auth-IsAdmitted session now entered msg req s w w' typed decoded verified long sent =
        let v =
          verify hmac_sha256 s.auth now entered req.token (format_int req.timestamp) req.nonce
            req.sign in
        let t : Server = record s { auth = v.1 } in
        let (c, e, f) = IsAdmitted-answer req.token session entered t w w' long sent in
        let whole : handle_auth hmac_sha256 session now entered (ok msg) s w
            ≡ answer hmac_sha256 true req.token session entered t w =
          if_true (msg.msg_type == msg_type_auth) ((==_iff msg.msg_type msg_type_auth).1 typed) _ _
          ∙ ap (λ r. handle_auth_request hmac_sha256 session now entered r s w) decoded
          ∙ ap (λ b. answer hmac_sha256 b req.token session entered t w) verified in
        (c, ap (λ r. r.0) whole ∙ e, ap (λ r. r.1.1) whole ∙ f)

-- ===== src/Server/Admission.antt =====
-- internal/server/server.go: handleAuth.
use qtrp.Common.{
  ℕ, ◌==◌, Bool, true, false, Option, none, some, [], ◌∷◌, ◌++◌, Result, ok, err, if◌then◌else◌,
  ltb, length, take,
}
use qtrp.Auth.{verify}
use qtrp.Go.Io.{Bytes, Wire}
use qtrp.Go.Map.{text_key, load, store}
use qtrp.Go.Strconv.{format_int}
use qtrp.Go.Strings.{Text, codes}
use qtrp.Protocol.Codec.{CodecError, send_message}
use qtrp.Protocol.Message.{
  Message, Msgpack, AuthRequest, AuthResponse, decode_payload, msg_type_auth, msg_type_auth_resp,
}
use qtrp.Server.State.{Client, Server, alloc, cleanup_client}

-- The outcomes of handleAuth: the client's address, one of its errors, or a panic.
pub data AuthError : Type 0 where
  receiving sending : CodecError → AuthError
  decoding : ℕ → AuthError
  invalid_type failed panics : AuthError

-- The length of token[:8], which panics if the token is shorter.
abbrev pub prefix_size : ℕ
prefix_size = 8

-- req.Token[:8] + "..."
unfoldable pub client_id : Text → Text
client_id token = take prefix_size token ++ codes "..."

-- A client with the same id is cleaned up, and its session closed.
unfoldable pub replace_old : Option ℕ → Server → Server
replace_old none s = s
replace_old (some old) s =
    let s' = cleanup_client old s in record s' { ended = (s.client_heap.at old).session ∷ s'.ended }

-- The new client, in the heap and in the map.
unfoldable pub add_client : Text → ℕ → ℕ → Server → Server
unfolding alloc
add_client id session now s =
    let client : Client = record { id = id; session = session; proxies = []; last_ping = now } in
    record s {
      client_heap = alloc client s.client_heap;
      clients = store id s.client_heap.size s.clients;
    }

-- The end of handleAuth, behind the answer.
unfoldable pub admit : Text → ℕ → ℕ → Server → Result AuthError ℕ × Server
unfolding replace_old add_client
admit token session now s =
    let id = client_id token in
    let s' = replace_old (load id s.clients) s in
    if ltb (length token) prefix_size
    then (err panics, s)
    else (ok s'.client_heap.size, add_client id session now s')

-- Behind the sending of the answer.
unfoldable pub concluded :
    Bool → Text → ℕ → ℕ → Server → Option CodecError × Wire → Result AuthError ℕ × (Server × Wire)
unfolding admit
concluded accepted token session now s (some e, w) = (err (sending e), (s, w))
concluded false token session now s (none, w) = (err failed, (s, w))
concluded true token session now s (none, w) =
    let (r, s') = admit token session now s in (r, (s', w))

abbrev pub response_of : Bool → AuthResponse
response_of true = record { accepted = true; message = [] }
response_of false = record { accepted = false; message = codes "authentication failed" }

module _ (hmac_sha256 : Bytes → Bytes → Bytes) where
  module _ ⦃m : Msgpack Message⦄ ⦃req_pack : Msgpack AuthRequest⦄
      ⦃resp_pack : Msgpack AuthResponse⦄ where
    -- The answer to a verdict. The line that logs a refusal slices the token.
    unfoldable pub answer :
        Bool → Text → ℕ → ℕ → Server → Wire → Result AuthError ℕ × (Server × Wire)
    unfolding concluded
    answer accepted token session now s w =
        let sent =
          concluded accepted token session now s
            (send_message msg_type_auth_resp (response_of accepted) w) in
        if accepted
        then sent
        else (if ltb (length token) prefix_size then (err panics, (s, w)) else sent)

    -- The verdict on a request, and the state behind it.
    unfoldable pub judge : ℕ → ℕ → AuthRequest → Server → Bool × Server
    judge now entered req s =
        let (accepted, a) =
          verify hmac_sha256 s.auth now entered req.token (format_int req.timestamp) req.nonce
            req.sign in
        (accepted, record s { auth = a })

    abbrev pub judged :
        ℕ → ℕ → AuthRequest → Bool × Server → Wire → Result AuthError ℕ × (Server × Wire)
    judged session now req (accepted, s) w = answer accepted req.token session now s w

    -- Behind the decoding. The clock is read for the window and for the nonce's entry, and, to the
    -- same `entered`, for the client's last ping.
    unfoldable pub handle_auth_request :
        ℕ → ℕ → ℕ → Result ℕ AuthRequest → Server → Wire → Result AuthError ℕ × (Server × Wire)
    unfolding judge answer
    handle_auth_request session now entered (err e) s w = (err (decoding e), (s, w))
    handle_auth_request session now entered (ok req) s w =
        judged session entered req (judge now entered req s) w

    -- handleAuth, with what RecvMessage answered.
    unfoldable pub handle_auth :
        ℕ → ℕ → ℕ → Result CodecError Message → Server → Wire → Result AuthError ℕ × (Server × Wire)
    unfolding handle_auth_request
    handle_auth session now entered (err e) s w = (err (receiving e), (s, w))
    handle_auth session now entered (ok msg) s w =
        let decoded = handle_auth_request session now entered (decode_payload msg) s w in
        if msg.msg_type == msg_type_auth then decoded else (err invalid_type, (s, w))

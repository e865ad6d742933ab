-- ===== src/Protocol/Samples.antt =====
-- Stand-ins for MessagePack on the messages of pkg/protocol/message.go, for concrete inputs.
use qtrp.Common.{
  ℕ, zero, suc, ◌≡◌, refl, sym, ap, ◌∙◌, true, false, [], ◌∷◌, ◌++◌, Result, ok, err, arith,
  if◌then◌else◌, length, ◌<◌, take, drop, take-append_at, drop-append_at,
}
use qtrp.Go.Int64.{ℤ, pos, negsuc}
use qtrp.Go.Io.{Bytes, Wire}
use qtrp.Go.Strings.{Text}
use qtrp.Protocol.Codec.{max_msg_size}
use qtrp.Protocol.Codec.Exchange.{IsShort}
use qtrp.Protocol.Message.{
  new_message, Message, Msgpack, AuthRequest, AuthResponse, NewProxyRequest, NewProxyResponse,
  NewConnRequest,
}

abbrev unpack_message : Bytes → Result ℕ Message
unpack_message (t ∷ p) = ok (record { msg_type = t; payload = p })
unpack_message _ = err 1

abbrev pack_message : Message → Result ℕ Bytes
pack_message msg = ok (msg.msg_type ∷ msg.payload)

pub unpack-pack_message :
    (a : Message) (b : Bytes) → pack_message a ≡ ok b → unpack_message b ≡ ok a
unpack-pack_message a b h = ground arith

instance abbrev pub message_pack : Msgpack Message
message_pack = record {
  marshal = pack_message;
  unmarshal = unpack_message;
  unmarshal-marshal = unpack-pack_message;
}

-- A request for a proxy: the port and the name.
abbrev pack_proxy : NewProxyRequest → Result ℕ Bytes
pack_proxy req = elim req.remote_port [
  | pos n ↦ elim req.proxy_type [ [] ↦ ok (n ∷ req.name) | c ∷ cs ↦ err 0 ]
  | negsuc n ↦ err 0
]

abbrev unpack_proxy : Bytes → Result ℕ NewProxyRequest
unpack_proxy (n ∷ name) = ok (record { name = name; proxy_type = []; remote_port = pos n })
unpack_proxy _ = err 1

pub unpack-pack_proxy :
    (a : NewProxyRequest) (b : Bytes) → pack_proxy a ≡ ok b → unpack_proxy b ≡ ok a
unpack-pack_proxy a b h = ground arith

instance abbrev pub proxy_pack : Msgpack NewProxyRequest
proxy_pack = record {
  marshal = pack_proxy;
  unmarshal = unpack_proxy;
  unmarshal-marshal = unpack-pack_proxy;
}

-- An answer to it: the verdict, the port and the message.
abbrev pack_answer : NewProxyResponse → Result ℕ Bytes
pack_answer resp = elim resp.remote_port [
  | pos n ↦ ok ((if resp.accepted then 1 else 0) ∷ n ∷ resp.message)
  | negsuc n ↦ err 0
]

abbrev unpack_answer : Bytes → Result ℕ NewProxyResponse
unpack_answer (zero ∷ n ∷ text) =
    ok (record { accepted = false; message = text; remote_port = pos n })
unpack_answer (suc zero ∷ n ∷ text) =
    ok (record { accepted = true; message = text; remote_port = pos n })
unpack_answer _ = err 1

pub unpack-pack_answer :
    (a : NewProxyResponse) (b : Bytes) → pack_answer a ≡ ok b → unpack_answer b ≡ ok a
unpack-pack_answer a b h = ground arith

instance abbrev pub answer_pack : Msgpack NewProxyResponse
answer_pack = record {
  marshal = pack_answer;
  unmarshal = unpack_answer;
  unmarshal-marshal = unpack-pack_answer;
}

abbrev pack_verdict : AuthResponse → Result ℕ Bytes
pack_verdict resp = ok ((if resp.accepted then 1 else 0) ∷ resp.message)

abbrev unpack_verdict : Bytes → Result ℕ AuthResponse
unpack_verdict (zero ∷ text) = ok (record { accepted = false; message = text })
unpack_verdict (suc zero ∷ text) = ok (record { accepted = true; message = text })
unpack_verdict _ = err 1

pub unpack-pack_verdict :
    (a : AuthResponse) (b : Bytes) → pack_verdict a ≡ ok b → unpack_verdict b ≡ ok a
unpack-pack_verdict a b h = ground arith

instance abbrev pub verdict_pack : Msgpack AuthResponse
verdict_pack = record {
  marshal = pack_verdict;
  unmarshal = unpack_verdict;
  unmarshal-marshal = unpack-pack_verdict;
}

-- A text with its length before it.
abbrev put_text : Text → Bytes → Bytes
put_text t rest = length t ∷ (t ++ rest)

abbrev then_text : {A : Type 0} → (Text → Bytes → Result ℕ A) → Bytes → Result ℕ A
then_text f [] = err 1
then_text f (l ∷ b) = f (take l b) (drop l b)

then_text-put_text :
    {A : Type 0} (f : Text → Bytes → Result ℕ A) (t : Text) (rest : Bytes)
    → then_text f (put_text t rest) ≡ f t rest
then_text-put_text f t rest =
    ap (λ x. f x (drop (length t) (t ++ rest))) (take-append_at (length t) t rest refl)
    ∙ ap (f t) (drop-append_at (length t) t rest refl)

-- A request for admission: the time, the token, the nonce, the version and the signature.
abbrev pack_time : ℤ → Bytes → Result ℕ Bytes
pack_time (pos n) rest = ok (n ∷ rest)
pack_time (negsuc n) rest = err 0

abbrev pack_auth : AuthRequest → Result ℕ Bytes
pack_auth req =
    pack_time req.timestamp
      (put_text req.token (put_text req.nonce (put_text req.version req.sign)))

abbrev whole_auth : ℕ → Text → Text → Text → Bytes → Result ℕ AuthRequest
whole_auth n token nonce version sign =
    ok (record { token = token; timestamp = pos n; nonce = nonce; sign = sign; version = version })

abbrev unpack_auth : Bytes → Result ℕ AuthRequest
unpack_auth [] = err 1
unpack_auth (n ∷ b) =
    then_text
      (λ token. then_text (λ nonce. then_text (λ version. whole_auth n token nonce version))) b

pack_time-eq-ok :
    (t : ℤ) (rest b : Bytes) → pack_time t rest ≡ ok b → (n : ℕ) × (t ≡ pos n) × (b ≡ n ∷ rest)
pack_time-eq-ok (pos n) rest b h = (n, refl, cc)
pack_time-eq-ok (negsuc n) rest b h = cc

unpack_auth-put_text :
    (n : ℕ) (a : AuthRequest)
    → unpack_auth (n ∷ put_text a.token (put_text a.nonce (put_text a.version a.sign)))
      ≡ whole_auth n a.token a.nonce a.version a.sign
unpack_auth-put_text n a =
    then_text-put_text
      (λ token. then_text (λ nonce. then_text (λ version. whole_auth n token nonce version)))
      a.token (put_text a.nonce (put_text a.version a.sign))
    ∙ then_text-put_text (λ nonce. then_text (λ version. whole_auth n a.token nonce version))
        a.nonce (put_text a.version a.sign)
    ∙ then_text-put_text (λ version. whole_auth n a.token a.nonce version) a.version a.sign

pub unpack-pack_auth : (a : AuthRequest) (b : Bytes) → pack_auth a ≡ ok b → unpack_auth b ≡ ok a
unpack-pack_auth a b h =
    let (n, e, f) = pack_time-eq-ok a.timestamp _ b h in
    ap unpack_auth f
    ∙ unpack_auth-put_text n a
    ∙ ap (λ (t : ℤ). ok (record a { timestamp = t })) (sym e)

instance abbrev pub auth_pack : Msgpack AuthRequest
auth_pack = record {
  marshal = pack_auth;
  unmarshal = unpack_auth;
  unmarshal-marshal = unpack-pack_auth;
}

abbrev pack_conn : NewConnRequest → Result ℕ Bytes
pack_conn req = ok (length req.proxy_name ∷ (req.proxy_name ++ req.conn_id))

abbrev unpack_conn : Bytes → Result ℕ NewConnRequest
unpack_conn (l ∷ text) = ok (record { proxy_name = take l text; conn_id = drop l text })
unpack_conn _ = err 1

pub unpack-pack_conn : (a : NewConnRequest) (b : Bytes) → pack_conn a ≡ ok b → unpack_conn b ≡ ok a
unpack-pack_conn a b h = ground (
  arith,
  take-append_at (length a.proxy_name) a.proxy_name a.conn_id refl,
  drop-append_at (length a.proxy_name) a.proxy_name a.conn_id refl,
)

instance abbrev pub conn_pack : Msgpack NewConnRequest
conn_pack = record {
  marshal = pack_conn;
  unmarshal = unpack_conn;
  unmarshal-marshal = unpack-pack_conn;
}

abbrev pub toy_hmac : Bytes → Bytes → Bytes
toy_hmac key text = []

abbrev pub open_wire : Wire
open_wire = record { sent = []; room = 100 }

-- A value that packs to less than the limit makes a short message.
pub short :
    {A : Type 0} ⦃p : Msgpack A⦄ (typ : ℕ) (a : A) (payload : Bytes)
    → p.marshal a ≡ ok payload
    → length payload < max_msg_size
    → IsShort typ a
unfolding new_message
short typ a payload e lt msg made b packed = ground (arith, e, made, packed, lt)

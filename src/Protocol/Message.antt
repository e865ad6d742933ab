-- ===== src/Protocol/Message.antt =====
-- pkg/protocol/message.go. MessagePack is a third-party library: its two functions at a type are an
-- instance argument, with the law that the program relies on.
use qtrp.Common.{ℕ, ◌≡◌, Bool, Result, ok, ◌>>=◌, >>=-eq-ok, arith}
use qtrp.Go.Int64.{ℤ}
use qtrp.Go.Io.{Bytes}
use qtrp.Go.Strings.{Text}

abbrev pub msg_type_auth : ℕ
msg_type_auth = 1

abbrev pub msg_type_auth_resp : ℕ
msg_type_auth_resp = 2

abbrev pub msg_type_new_proxy : ℕ
msg_type_new_proxy = 3

abbrev pub msg_type_new_proxy_resp : ℕ
msg_type_new_proxy_resp = 4

abbrev pub msg_type_new_conn : ℕ
msg_type_new_conn = 5

abbrev pub msg_type_new_conn_resp : ℕ
msg_type_new_conn_resp = 6

abbrev pub msg_type_ping : ℕ
msg_type_ping = 7

abbrev pub msg_type_pong : ℕ
msg_type_pong = 8

abbrev pub msg_type_close_proxy : ℕ
msg_type_close_proxy = 9

pub record AuthRequest : Type 0 where
  pub token : Text
  pub timestamp : ℤ
  pub nonce : Text
  pub sign : Text
  pub version : Text

pub record AuthResponse : Type 0 where
  pub accepted : Bool
  pub message : Text

pub record NewProxyRequest : Type 0 where
  pub name : Text
  pub proxy_type : Text
  pub remote_port : ℤ

pub record NewProxyResponse : Type 0 where
  pub accepted : Bool
  pub message : Text
  pub remote_port : ℤ

pub record NewConnRequest : Type 0 where
  pub proxy_name : Text
  pub conn_id : Text

pub record NewConnResponse : Type 0 where
  pub accepted : Bool
  pub conn_id : Text
  pub message : Text

pub record Ping : Type 0 where
  pub timestamp : ℤ

pub record Pong : Type 0 where
  pub timestamp : ℤ

-- The type byte, and the packed payload.
pub record Message : Type 0 where
  pub msg_type : ℕ
  pub payload : Bytes

-- msgpack.Marshal and msgpack.Unmarshal at one Go type: what was packed unpacks to itself. The errors
-- are numbered.
pub record Msgpack (A : Type 0) : Type 0 where
  pub marshal : A → Result ℕ Bytes
  pub unmarshal : Bytes → Result ℕ A
  pub unmarshal-marshal : (a : A) (b : Bytes) → marshal a ≡ ok b → unmarshal b ≡ ok a

unfoldable pub new_message : {A : Type 0} ⦃m : Msgpack A⦄ → ℕ → A → Result ℕ Message
new_message ⦃m⦄ typ payload = do
  packed ← m.marshal payload
  ok (record { msg_type = typ; payload = packed })

-- Message.Decode
unfoldable pub decode_payload : {A : Type 0} ⦃m : Msgpack A⦄ → Message → Result ℕ A
decode_payload ⦃m⦄ msg = m.unmarshal msg.payload

-- A message keeps the type that it was made with, and its payload decodes to the value packed.
pub decode-new_message :
    {A : Type 0} ⦃m : Msgpack A⦄ (typ : ℕ) (a : A) (msg : Message)
    → new_message typ a ≡ ok msg
    → (msg.msg_type ≡ typ) × (decode_payload {A = A} msg ≡ ok a)
unfolding new_message decode_payload
decode-new_message ⦃m⦄ typ a msg h =
    let (b, e, h') = >>=-eq-ok (m.marshal a) _ h in
    (ground arith, ground (arith, m.unmarshal-marshal a b))

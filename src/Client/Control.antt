-- ===== src/Client/Control.antt =====
-- internal/client/client.go: handleControlStream and handleNewConn.
pub mod Ending
pub mod Announced
use qtrp.Common.{
  ℕ, zero, suc, ◌==◌, Bool, true, false, Option, none, some, List, [], ◌∷◌, Result, ok, err,
  if◌then◌else◌, length,
}
use qtrp.Client.Setup.{Table}
use qtrp.Config.Proxy.{ExpandedProxy, get_local_address}
use qtrp.Go.Io.{Stream}
use qtrp.Go.Map.{Key, text_key, load}
use qtrp.Go.Strings.{Text}
use qtrp.Protocol.Codec.{CodecError, recv_message}
use qtrp.Protocol.Message.{
  Message, Msgpack, NewConnRequest, decode_payload, msg_type_new_conn, msg_type_pong,
}

-- What the loop has done: the connections that it handed to handleNewConn, the last one first, and
-- whether pongCh holds a pong, as nobody takes one.
pub record Link : Type 0 where
  pub asked : List NewConnRequest
  pub pong_ready : Bool

abbrev pub ask : Result ℕ NewConnRequest → Link → Link
ask (err e) k = k
ask (ok req) k = record k { asked = req ∷ k.asked }

module _ ⦃m : Msgpack Message⦄ ⦃conn_pack : Msgpack NewConnRequest⦄ where
  -- The switch on a message's type.
  unfoldable pub dispatch : Message → Link → Link
  dispatch msg k =
      let asked = ask (decode_payload msg) k in
      if msg.msg_type == msg_type_new_conn
      then asked
      else (if msg.msg_type == msg_type_pong then record k { pong_ready = true } else k)

  -- Behind RecvMessage, with the rest of the loop.
  unfoldable pub behind :
      (Stream → Link → Option (CodecError × Link))
      → Result CodecError Message × Stream
      → Link
      → Option (CodecError × Link)
  behind rest (err e, s) k = some (e, k)
  behind rest (ok msg, s) k = rest s (dispatch msg k)

  -- The loop on fuel; `none`: the fuel is used up. The error is that of the last RecvMessage.
  unfoldable pub control_loop : ℕ → Stream → Link → Option (CodecError × Link)
  unfolding behind
  control_loop zero s k = none
  control_loop (suc fuel) s k = behind (control_loop fuel) (recv_message s) k

  -- handleControlStream. Each message takes a byte of the stream at least.
  unfoldable pub handle_control_stream : Stream → Option (CodecError × Link)
  unfolding control_loop
  handle_control_stream s =
      control_loop (suc (length s.pending)) s (record { asked = []; pong_ready = false })

-- How handleNewConn ends. The data stream is closed in each case but the first.
pub data Served : Type 0 where
  no_stream unknown_proxy : Served
  not_dialed joined : Text → Served

abbrev serve_local : (Text → Bool) → Option ExpandedProxy → Served
serve_local dial none = unknown_proxy
serve_local dial (some p) =
    let addr = get_local_address p in if dial addr then joined addr else not_dialed addr

-- handleNewConn, by the answers of OpenStream and, for each local address, of Dial.
unfoldable pub handle_new_conn : Table → Bool → (Text → Bool) → NewConnRequest → Served
handle_new_conn t false dial req = no_stream
handle_new_conn t true dial req = serve_local dial (load req.proxy_name t)

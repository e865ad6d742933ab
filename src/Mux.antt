-- ===== src/Mux.antt =====
-- pkg/mux: the session of smux and the adapter of mtmux's, as one interface over what the library gives.
pub mod Streams
use qtrp.Common.{ℕ, ◌*◌, Bool, Option, none, some, Result, map_ok}
use qtrp.Auth.{second}

-- The fields of smux.Config that DefaultConfig sets, and what else the library keeps in it.
pub record SmuxConfig (R : Type 0) : Type 0 where
  pub version : ℕ
  pub keep_alive_interval : ℕ
  pub keep_alive_timeout : ℕ
  pub max_frame_size : ℕ
  pub max_receive_buffer : ℕ
  pub max_stream_buffer : ℕ
  pub others : R

-- DefaultConfig, over smux's own.
unfoldable pub default_config : {R : Type 0} → SmuxConfig R → SmuxConfig R
default_config cfg = record cfg {
  version = 2;
  keep_alive_interval = 30 * second;
  keep_alive_timeout = 90 * second;
  max_frame_size = 65535;
  max_receive_buffer = 16 * 1024 * 1024;
  max_stream_buffer = 2 * 1024 * 1024;
}

-- A net.Conn: nil, or a value that holds a pointer to a stream, which may be nil.
pub data NetConn (S : Type 0) : Type 0 where
  nil_conn : NetConn S
  stream_conn : Option S → NetConn S

-- What a session of a library offers: pointers and errors, either of which may be nil.
pub record Library (T S E : Type 0) : Type 0 where
  pub open_stream : T → (Option S × Option E) × T
  pub accept_stream : T → (Option S × Option E) × T
  pub close : T → Option E × T
  pub num_streams : T → ℕ
  pub is_closed : T → Bool

-- SessionInterface
pub record SessionInterface (T S E A : Type 0) : Type 0 where
  pub open_stream : T → (NetConn S × Option E) × T
  pub accept_stream : T → (NetConn S × Option E) × T
  pub close : T → Option E × T
  pub num_streams : T → ℕ
  pub is_closed : T → Bool
  pub remote_addr : T → A
  pub local_addr : T → A

-- The stream of an OpenStream or AcceptStream.
unfoldable pub as_conn : {S E : Type 0} → Option S × Option E → NetConn S × Option E
as_conn (stream, some e) = (nil_conn, some e)
as_conn (stream, none) = (stream_conn stream, none)

-- Session: smux's, with the connection under it.
pub record Session (T C : Type 0) : Type 0 where
  pub session : T
  pub conn : C

-- NewServerSession and NewClientSession, by what smux.Server and smux.Client make of the configuration.
unfoldable pub new_session :
    {R T C E : Type 0} → (C → SmuxConfig R → Result E T) → SmuxConfig R → C → Result E (Session T C)
unfolding default_config
new_session make cfg conn =
    map_ok (λ t. record { session = t; conn = conn }) (make conn (default_config cfg))

module _ {T S E A : Type 0} (lib : Library T S E) where
  -- Session's methods, by the addresses of its connection.
  unfoldable pub smux_session :
      {C : Type 0} → (C → A) → (C → A) → SessionInterface (Session T C) S E A
  smux_session remote local = record {
    open_stream = λ s. (
      as_conn (lib.open_stream s.session).0,
      record s { session = (lib.open_stream s.session).1 },
    );
    accept_stream = λ s. (
      as_conn (lib.accept_stream s.session).0,
      record s { session = (lib.accept_stream s.session).1 },
    );
    close = λ s. ((lib.close s.session).0, record s { session = (lib.close s.session).1 });
    num_streams = λ s. lib.num_streams s.session;
    is_closed = λ s. lib.is_closed s.session;
    remote_addr = λ s. remote s.conn;
    local_addr = λ s. local s.conn;
  }

  -- SessionAdapter, by the addresses that mtmux's session keeps.
  unfoldable pub session_adapter : (T → A) → (T → A) → SessionInterface T S E A
  session_adapter remote local = record {
    open_stream = λ t. (as_conn (lib.open_stream t).0, (lib.open_stream t).1);
    accept_stream = λ t. (as_conn (lib.accept_stream t).0, (lib.accept_stream t).1);
    close = lib.close;
    num_streams = lib.num_streams;
    is_closed = lib.is_closed;
    remote_addr = remote;
    local_addr = local;
  }

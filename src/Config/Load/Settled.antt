-- ===== src/Config/Load/Settled.antt =====
-- What a loaded configuration satisfies, and that the two sides of a connection agree on it.
use qtrp.Common.{ℕ, ◌≡◌, ◌≢◌, true, List, [], Result, ok, arith, >>=-eq-ok, wrap_error, map_ok}
use qtrp.Go.Int64.{pos, ◌≤ℤ◌}
use qtrp.Go.Strings.{Text, text_eq_iff}
use qtrp.Config.Load.{
  MtmuxConfig, ServerConfig, ClientConfig, quic_name, settle_server, settle_client,
  load_server_config, load_client_config, not_read, not_yaml,
}

-- What both sides rely on.
pub record IsSettled (transport crypto : Text) (m : MtmuxConfig) : Type 0 where
  pub has_transport : transport ≢ []
  pub has_crypto : crypto ≢ []
  pub some_tunnel : m.enabled ≡ true → pos 1 ≤ℤ m.tunnels
  pub few_tunnels : m.enabled ≡ true → m.tunnels ≤ℤ pos 32
  pub not_quic : m.enabled ≡ true → transport ≢ quic_name

settle_server-IsSettled :
    {E : Type 0} (c d : ServerConfig)
    → settle_server {E = E} c ≡ ok d
    → IsSettled d.transport d.crypto d.mtmux
unfolding settle_server
settle_server-IsSettled c d h = record {
  has_transport = ground arith;
  has_crypto = ground arith;
  some_tunnel = ground arith;
  few_tunnels = ground arith;
  not_quic = ground (arith, text_eq_iff d.transport quic_name);
}

settle_client-IsSettled :
    {E : Type 0} (c d : ClientConfig)
    → settle_client {E = E} c ≡ ok d
    → IsSettled d.transport d.crypto d.mtmux
unfolding settle_client
settle_client-IsSettled c d h = record {
  has_transport = ground arith;
  has_crypto = ground arith;
  some_tunnel = ground arith;
  few_tunnels = ground arith;
  not_quic = ground (arith, text_eq_iff d.transport quic_name);
}

settle_server_again :
    {E : Type 0} (c d : ServerConfig)
    → settle_server {E = E} c ≡ ok d
    → settle_server {E = E} d ≡ ok d
unfolding settle_server
settle_server_again c d h = ground arith

settle_client_again :
    {E : Type 0} (c d : ClientConfig)
    → settle_client {E = E} c ≡ ok d
    → settle_client {E = E} d ≡ ok d
unfolding settle_client
settle_client_again c d h = ground arith

module _ {E : Type 0} (read_file : Text → Result E (List ℕ)) where
  -- A server configuration that was loaded has a transport and a crypto name, and with mtmux enabled
  -- 1 to 32 tunnels and a transport other than quic; the defaults and tests would leave it as it is.
  pub load_server-IsSettled :
      (unmarshal : List ℕ → Result E ServerConfig) (path : Text) (d : ServerConfig)
      → load_server_config read_file unmarshal path ≡ ok d
      → IsSettled d.transport d.crypto d.mtmux × (settle_server {E = E} d ≡ ok d)
  unfolding load_server_config
  load_server-IsSettled unmarshal path d h =
      let (content, _, h') = >>=-eq-ok (wrap_error not_read (read_file path)) _ h in
      let (c, _, e) = >>=-eq-ok (wrap_error not_yaml (unmarshal content)) _ h' in
      (settle_server-IsSettled c d e, settle_server_again c d e)

  -- The same of a client configuration.
  pub load_client-IsSettled :
      (unmarshal : List ℕ → Result E ClientConfig) (path : Text) (d : ClientConfig)
      → load_client_config read_file unmarshal path ≡ ok d
      → IsSettled d.transport d.crypto d.mtmux × (settle_client {E = E} d ≡ ok d)
  unfolding load_client_config
  load_client-IsSettled unmarshal path d h =
      let (content, _, h') = >>=-eq-ok (wrap_error not_read (read_file path)) _ h in
      let (c, _, e) = >>=-eq-ok (wrap_error not_yaml (unmarshal content)) _ h' in
      (settle_client-IsSettled c d e, settle_client_again c d e)

-- Where the two files give the same transport and the same mtmux entries, the two programs settle on
-- the same transport and tunnels, or both refuse with the same error.
pub settle_agree :
    {E : Type 0} (s : ServerConfig) (c : ClientConfig)
    → s.transport ≡ c.transport
    → s.mtmux ≡ c.mtmux
    → map_ok (λ (x : ServerConfig). (x.transport, x.mtmux)) (settle_server {E = E} s)
      ≡ map_ok {B = Text × MtmuxConfig}
          (λ (x : ClientConfig). (x.transport, x.mtmux))
          (settle_client {E = E} c)
unfolding settle_server settle_client
settle_agree s c ht hm = ground arith

-- ===== src/Client/Connect/Panics.antt =====
-- internal/client/client.go: when connect panics.
use qtrp.Common.{
  ℕ, ◌≡◌, ◌≢◌, ◌↔◌, refl, Bool, true, false, Option, none, some, List, [], ◌∷◌, All, Result, ok,
  err, arith,
}
use qtrp.Client.Connect.{
  Setup, broken, nil_session, ready, panicked, all_wrapped, connect_with_mtmux, served,
  authenticated, over_session, connect,
}
use qtrp.Client.Control.{Link, handle_control_stream}
use qtrp.Client.Handshake.{HandshakeError, Control, authenticate, register_all}
use qtrp.Config.Proxy.{ExpandedProxy}
use qtrp.Go.Io.{Bytes}
use qtrp.Go.Strings.{Text}
use qtrp.Protocol.Codec.{CodecError}
use qtrp.Protocol.Message.{
  Message, Msgpack, AuthRequest, AuthResponse, NewProxyRequest, NewProxyResponse, NewConnRequest,
}

all_wrapped_iff : (bundle : List Bool) → (all_wrapped bundle ≡ true) ↔ All (λ w. w ≡ true) bundle
unfolding all_wrapped
all_wrapped_iff [] = (λ h. tt, λ h. refl)
all_wrapped_iff (true ∷ bundle) =
    let (there, back) = all_wrapped_iff bundle in (λ h. (refl, there h), λ h. back h.1)
all_wrapped_iff (false ∷ bundle) = (λ h. absurd (ground (arith, h)), λ h. cc h.0)

-- The set-up has no session and no error exactly if a tunnel is dialed, but not wrapped.
nil_session_iff :
    (dialed : Bool) (bundle : List Bool) (made : Bool)
    → (connect_with_mtmux dialed bundle made ≡ nil_session)
      ↔ ((dialed ≡ true) × (all_wrapped bundle ≡ false))
unfolding connect_with_mtmux
nil_session_iff dialed bundle made = (λ h. ground arith, λ h. ground arith)

served_goes :
    (mtmux : Bool) (n : ℕ) (o : Option (CodecError × Link)) → (served mtmux n o).ending ≢ panicked
served_goes mtmux n none h = cc
served_goes mtmux n (some (e, link)) h = cc

module _ ⦃m : Msgpack Message⦄ ⦃auth_pack : Msgpack AuthRequest⦄
    ⦃auth_resp_pack : Msgpack AuthResponse⦄ ⦃req_pack : Msgpack NewProxyRequest⦄
    ⦃resp_pack : Msgpack NewProxyResponse⦄ ⦃conn_pack : Msgpack NewConnRequest⦄ where
  authenticated_goes :
      (mtmux : Bool) (proxies : List ExpandedProxy) (r : Result HandshakeError (Unit {0}) × Control)
      → (authenticated mtmux proxies r).ending ≢ panicked
  unfolding authenticated
  authenticated_goes mtmux proxies (err e, c) h = cc
  authenticated_goes mtmux proxies (ok u, c) h =
      served_goes mtmux (register_all proxies c).0
        (handle_control_stream (register_all proxies c).1.stream) h

  module _ (hmac_sha256 : Bytes → Bytes → Bytes) where
    over_session_goes :
        (mtmux : Bool) (token : Text) (now : ℕ) (nonce : Text) (proxies : List ExpandedProxy)
        (opened : Option Control)
        → (over_session hmac_sha256 mtmux token now nonce proxies opened).ending ≢ panicked
    unfolding over_session
    over_session_goes mtmux token now nonce proxies none h = cc
    over_session_goes mtmux token now nonce proxies (some c) h =
        authenticated_goes mtmux proxies (authenticate hmac_sha256 token now nonce c) h

    connect_goes :
        (mtmux : Bool) (setup : Setup) (token : Text) (now : ℕ) (nonce : Text)
        (proxies : List ExpandedProxy) (opened : Option Control)
        → ((connect hmac_sha256 mtmux setup token now nonce proxies opened).ending ≡ panicked)
          ↔ (setup ≡ nil_session)
    unfolding connect
    connect_goes mtmux (broken parts) token now nonce proxies opened = (λ h. cc, λ h. cc)
    connect_goes mtmux nil_session token now nonce proxies opened = (λ h. refl, λ h. refl)
    connect_goes mtmux ready token now nonce proxies opened =
        (λ h. absurd (over_session_goes mtmux token now nonce proxies opened h), λ h. cc)

    -- With mtmux, connect panics exactly if the tunnels were dialed and one of them was not wrapped,
    -- whatever else happens.
    pub connect_panics_iff :
        (dialed : Bool) (bundle : List Bool) (made : Bool) (token : Text) (now : ℕ) (nonce : Text)
        (proxies : List ExpandedProxy) (opened : Option Control)
        → ((connect hmac_sha256 true
              (connect_with_mtmux dialed bundle made)
              token
              now
              nonce
              proxies
              opened).ending
            ≡ panicked)
          ↔ ((dialed ≡ true) × (¬ All (λ w. w ≡ true) bundle))
    connect_panics_iff dialed bundle made token now nonce proxies opened =
        let setup = connect_with_mtmux dialed bundle made in
        let (there, back) = connect_goes true setup token now nonce proxies opened in
        let (nil, nil_back) = nil_session_iff dialed bundle made in
        let (all, all_back) = all_wrapped_iff bundle in
        (
          λ h. let (d, w) = nil (there h) in (d, λ a. ground (arith, w, all_back a)),
          λ h. back (nil_back (h.0, ground (arith, h.1, all))),
        )

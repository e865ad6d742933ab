-- ===== src/Client/Layers/Agreed.antt =====
-- internal/client/client.go with internal/server/server.go: that the two sides speak the same layers.
use qtrp.Common.{
  ◌≡◌, refl, sym, subst, ap, ◌∙◌, Bool, true, false, Option, arith, Result, ok, err, map_ok,
}
use qtrp.Client.Layers.{client_layers, client_branch, quic_client, plain_client, client_crypto}
use qtrp.Config.Load.{ServerConfig, ClientConfig}
use qtrp.Crypto.Cert.{CertConfig, CertError, CertManager}
use qtrp.Crypto.Layer.{CryptoConfig, new_crypto, new_tls_with_manager, crypto_type, tls_name}
use qtrp.Go.Strings.{Text, text_eq, text_eq_iff}
use qtrp.Server.Setup.{
  Layers, server_layers, server_branch, quic_server, managed_server, plain_server, needs_manager,
}
use qtrp.Transport.{new_transport, new_with_quic_config, transport_type, quic_name}

-- Two sides with the same kinds of layers.
abbrev pub SameKinds : {C : Type 0} → Layers C → Layers C → Type 0
SameKinds a b =
    (transport_type a.transport ≡ transport_type b.transport)
    × (crypto_type a.crypto ≡ crypto_type b.crypto)

crypto_type-new_crypto :
    (C : Type 0) (typ : Text) (a b : Option CryptoConfig)
    → crypto_type {C = C} (new_crypto typ a) ≡ crypto_type {C = C} (new_crypto typ b)
unfolding crypto_type new_crypto
crypto_type-new_crypto C typ a b = ground arith

map_ok-eq-ok :
    {E A B : Type 0} (f : A → B) (r : Result E A) {b : B} → map_ok f r ≡ ok b → (a : A) × (f a ≡ b)
map_ok-eq-ok f (ok a) h = (a, cc)
map_ok-eq-ok f (err e) h = cc

module _ {C : Type 0} where
  SameKinds-quic :
      (c : ClientConfig) (cm : CertManager C) → SameKinds (quic_server cm) (quic_client c)
  unfolding transport_type new_with_quic_config crypto_type new_crypto text_eq
  SameKinds-quic c cm = (refl, refl)

  SameKinds-managed :
      (s : ServerConfig) (c : ClientConfig) (cm : CertManager C)
      → s.transport ≡ c.transport
      → tls_name ≡ c.crypto
      → SameKinds (managed_server s cm) (plain_client c)
  unfolding crypto_type new_crypto new_tls_with_manager text_eq
  SameKinds-managed s c cm t k = (
    ap (λ x. transport_type (new_transport x)) t,
    ap (λ x. crypto_type {C = C} (new_crypto x (client_crypto c))) k,
  )

SameKinds-plain :
    (C : Type 0) (s : ServerConfig) (c : ClientConfig)
    → s.transport ≡ c.transport
    → s.crypto ≡ c.crypto
    → SameKinds {C = C} (plain_server s) (plain_client c)
SameKinds-plain C s c t k = (
  ap (λ x. transport_type (new_transport x)) t,
  crypto_type-new_crypto C s.crypto _ (client_crypto c)
      ∙ ap (λ x. crypto_type {C = C} (new_crypto x (client_crypto c))) k,
)

module _ {C E : Type 0} (load_pair : CertConfig → Result E C)
    (generate : CertConfig → Result (CertError E) C) where
  branches_agree :
      (q managed : Bool) (s : ServerConfig) (c : ClientConfig) (l : Layers C)
      → s.transport ≡ c.transport
      → s.crypto ≡ c.crypto
      → (managed ≡ true → s.crypto ≡ tls_name)
      → server_branch load_pair generate q managed s ≡ ok l
      → SameKinds l (client_branch q c)
  unfolding server_branch client_branch
  branches_agree true managed s c l t k m h =
      let (cm, e) = map_ok-eq-ok quic_server _ h in
      subst (λ (x : Layers C). SameKinds x (quic_client c)) e (SameKinds-quic c cm)
  branches_agree false true s c l t k m h =
      let (cm, e) = map_ok-eq-ok (managed_server s) _ h in
      subst (λ (x : Layers C). SameKinds x (plain_client c)) e
        (SameKinds-managed s c cm t (sym (m refl) ∙ k))
  branches_agree false false s c l t k m h =
      let e : plain_server s ≡ l = cc in
      subst (λ (x : Layers C). SameKinds x (plain_client c)) e (SameKinds-plain C s c t k)

  -- If the server and the client are configured with the same transport and the same encryption, and
  -- the server starts, both use the same kind of transport and the same kind of encryption.
  pub layers_agree :
      (s : ServerConfig) (c : ClientConfig) (l : Layers C)
      → s.transport ≡ c.transport
      → s.crypto ≡ c.crypto
      → server_layers load_pair generate s ≡ ok l
      → SameKinds l (client_layers c)
  unfolding server_layers client_layers
  layers_agree s c l t k h =
      subst (λ b. SameKinds l (client_branch b c)) (ap (λ x. text_eq x quic_name) t)
        (branches_agree (text_eq s.transport quic_name) (needs_manager s) s c l t k
          (λ e. (text_eq_iff s.crypto tls_name).0 (ground arith)) h)

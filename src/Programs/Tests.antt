-- ===== src/Programs/Tests.antt =====
-- The theorem on the server's program at a concrete input.
use qtrp.Common.{
  ℕ, ◌≡◌, ◌↔◌, ◌⊎◌, refl, Bool, true, false, none, some, List, [], ◌∷◌, Result, ok, err,
}
use qtrp.Config.Load.{ServerConfig, load_server_config, settle_server, load_client_config}
use qtrp.Crypto.Cert.{CertConfig, CertError, new_cert_manager}
use qtrp.Go.Int64.{pos}
use qtrp.Go.Strings.{Text, codes, text_eq}
use qtrp.Programs.{served, server_main, client_main}
use qtrp.Programs.Exits.{Makes, Listens, server_main_iff}
use qtrp.Server.Start.{StopsAt, start}
use qtrp.Server.Session.{accept_loop}
use qtrp.Server.Setup.{server_layers}

abbrev cfg : ServerConfig
cfg = record {
  bind_addr = codes ":7000";
  dashboard_addr = codes ":8080";
  transport = codes "net";
  crypto = codes "tls";
  tls_cert_file = [];
  tls_key_file = [];
  psk = [];
  quic_cert_file = [];
  quic_key_file = [];
  tokens = codes "token-one" ∷ [];
  mtmux = record { enabled = false; tunnels = pos 0 };
}

abbrev read_any : Text → Result ℕ (List ℕ)
read_any path = ok []

abbrev no_pair : CertConfig → Result ℕ ℕ
no_pair c = err 0

abbrev make_cert : CertConfig → Result (CertError ℕ) ℕ
make_cert c = ok 42

-- One connection, a failing Accept, and one behind Stop.
abbrev answers : List (Bool × Bool)
answers = (true, false) ∷ (false, false) ∷ (false, true) ∷ []

server_main_iff_example :
    ((server_main read_any (λ c. ok cfg) no_pair make_cert [] false answers (ok tt) (err 9)
        ≡ some 0)
      ↔ ((c : ServerConfig) × Makes read_any (λ c. ok cfg) no_pair make_cert [] c
          × ((false ≡ true) ⊎ (Listens {E = ℕ} c (ok tt) (err 9) × StopsAt answers))))
    × ((server_main read_any (λ c. ok cfg) no_pair make_cert [] false answers (ok tt) (err 9)
          ≡ none)
        ↔ ((c : ServerConfig) × Makes read_any (λ c. ok cfg) no_pair make_cert [] c
            × ((false ≡ false) × Listens {E = ℕ} c (ok tt) (err 9) × ¬ StopsAt answers)))
    × ((server_main read_any (λ c. ok cfg) no_pair make_cert [] false answers (ok tt) (err 9)
          ≡ some 1)
        ↔ ((c : ServerConfig)
            → Makes read_any (λ c. ok cfg) no_pair make_cert [] c
            → (false ≡ false) × ¬ Listens {E = ℕ} c (ok tt) (err 9)))
server_main_iff_example =
    server_main_iff read_any (λ c. ok cfg) no_pair make_cert [] false answers (ok tt) (err 9)

ends_well :
    server_main read_any (λ c. ok cfg) no_pair make_cert [] false answers (ok tt) (err 9) ≡ some 0
unfolding server_main served load_server_config settle_server server_layers text_eq new_cert_manager
    start accept_loop
ends_well = refl

-- No Accept fails behind Stop: the program runs on, unless a signal ends it.
runs_on : server_main read_any (λ c. ok cfg) no_pair make_cert [] false [] (ok tt) (err 9) ≡ none
unfolding server_main served load_server_config settle_server server_layers text_eq new_cert_manager
    start accept_loop
runs_on = refl

ends_by_signal :
    server_main read_any (λ c. ok cfg) no_pair make_cert [] true [] (ok tt) (err 9) ≡ some 0
unfolding server_main served load_server_config settle_server server_layers text_eq new_cert_manager
ends_by_signal = refl

-- A file that does not parse.
client_ends : client_main read_any (λ c. err 3) [] false [] ≡ some 1
unfolding client_main load_client_config
client_ends = refl

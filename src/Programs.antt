-- ===== src/Programs.antt =====
-- cmd/server/main.go and cmd/client/main.go: the two programs, up to their end. Behind New a goroutine
-- waits for a signal, calls Stop and ends the program with os.Exit(0), beside Start or Run: an argument
-- says whether it gets there before main has ended.
mod Tests
pub mod Exits
use qtrp.Common.{
  Bool, true, false, Option, none, some, List, [], ◌∷◌, Result, ok, err, ◌>>=◌, wrap_error,
  if◌then◌else◌, ℕ,
}
use qtrp.Client.Backoff.{Round, fresh, run}
use qtrp.Client.Setup.{Table, table_of}
use qtrp.Config.Load.{ServerConfig, ClientConfig, load_server_config, load_client_config}
use qtrp.Crypto.Cert.{CertConfig, CertError}
use qtrp.Go.Strings.{Text}
use qtrp.Server.Setup.{Layers, server_layers}
use qtrp.Server.Start.{Running, start}

-- log.Fatalf with an error, or what comes of its absence.
abbrev pub fatal : {E A : Type 0} → Result E A → Result ℕ A
fatal r = wrap_error (λ e. 1) r

-- The status that the program ends with; `none`: it runs on.
abbrev pub status : Result ℕ Bool → Option ℕ
status (err code) = some code
status (ok false) = none
status (ok true) = some 0

-- The server's main behind New.
unfoldable pub served :
    {E : Type 0}
    → ServerConfig
    → Bool
    → List (Bool × Bool)
    → Result E (Unit {0})
    → Result E (Unit {0})
    → Result ℕ Bool
served cfg true answers listened mtmux_listened = ok true
served cfg false answers listened mtmux_listened = do
  r ← fatal (start cfg answers listened mtmux_listened)
  ok r.ended

module _ {E : Type 0} (read_file : Text → Result E (List ℕ)) where
  module _ {C : Type 0} (unmarshal : List ℕ → Result E ServerConfig)
      (load_pair : CertConfig → Result E C) (generate : CertConfig → Result (CertError E) C) where
    -- The server's main up to New.
    unfoldable pub server_made : Text → Result ℕ ServerConfig
    server_made path = do
      cfg ← fatal (load_server_config read_file unmarshal path)
      layers ← fatal (server_layers load_pair generate cfg)
      ok cfg

    -- By the path of its file, whether the signal's goroutine gets to its end first, the answers of
    -- Accept, and those of the two Listens.
    unfoldable pub server_main :
        Text → Bool → List (Bool × Bool) → Result E (Unit {0}) → Result E (Unit {0}) → Option ℕ
    unfolding server_made
    server_main path signalled answers listened mtmux_listened =
        status (do cfg ← server_made path; served cfg signalled answers listened mtmux_listened)

  module _ (unmarshal : List ℕ → Result E ClientConfig) where
    unfoldable pub client_made : Text → Result ℕ Table
    client_made path = do
      cfg ← fatal (load_client_config read_file unmarshal path)
      fatal (table_of cfg)

    -- The client's main, by the path of its file, whether the signal's goroutine gets to its end first,
    -- and the rounds of Run.
    unfoldable pub client_main : Text → Bool → List Round → Option ℕ
    unfolding client_made
    client_main path signalled rounds = status (do
      proxies ← client_made path
      ok (if signalled then true else (run rounds fresh).returned))

-- ===== src/Server/Start.antt =====
-- internal/server/server.go: Start, startStandard and startWithMTMux. The goroutines that they start are
-- modelled in Session and Dashboard.
use qtrp.Common.{
  ℕ, ◌≡◌, ◌↔◌, ◌⊎◌, inl, inr, refl, Bool, true, false, not, List, [], ◌∷◌, Result, ok, err, arith,
  if◌then◌else◌,
}
use qtrp.Config.Load.{ServerConfig}
use qtrp.Go.Strings.{Text, is_empty}
use qtrp.Server.Session.{accept_loop}

-- Behind a Listen that succeeds: whether the dashboard is started, how many connections are served, and
-- whether the function has returned nil.
pub record Running : Type 0 where
  pub dashboard : Bool
  pub served : ℕ
  pub ended : Bool

-- startStandard and startWithMTMux, by the answer of the transport's or of mtmux's Listen and those of
-- Accept.
unfoldable pub start_listening :
    {E : Type 0} → Text → List (Bool × Bool) → Result E (Unit {0}) → Result E Running
start_listening dashboard_addr answers (err e) = err e
start_listening dashboard_addr answers (ok u) =
    let (n, ended) = accept_loop answers in
    ok (record { dashboard = not (is_empty dashboard_addr); served = n; ended = ended })

-- Start
unfoldable pub start :
    {E : Type 0}
    → ServerConfig
    → List (Bool × Bool)
    → Result E (Unit {0})
    → Result E (Unit {0})
    → Result E Running
unfolding start_listening
start cfg answers listened mtmux_listened =
    if cfg.mtmux.enabled
    then start_listening cfg.dashboard_addr answers mtmux_listened
    else start_listening cfg.dashboard_addr answers listened

-- Start is one loop over the Listen of its mode.
pub start-Listen :
    {E : Type 0} (cfg : ServerConfig) (answers : List (Bool × Bool))
    (listened mtmux : Result E (Unit {0}))
    → start cfg answers listened mtmux
      ≡ start_listening cfg.dashboard_addr answers (if cfg.mtmux.enabled then mtmux else listened)
unfolding start
start-Listen cfg answers listened mtmux = ground arith

-- An Accept that fails behind Stop.
abbrev pub StopsAt : List (Bool × Bool) → Type 0
StopsAt [] = ⊥
StopsAt ((accepted, closed) ∷ answers) = ((accepted ≡ false) × (closed ≡ true)) ⊎ StopsAt answers

pub ends_iff : (answers : List (Bool × Bool)) → ((accept_loop answers).1 ≡ true) ↔ StopsAt answers
unfolding accept_loop
ends_iff [] = (λ h. cc, λ s. absurd s)
ends_iff ((true, closed) ∷ answers) =
    let (there, back) = ends_iff answers in
    (λ h. inr (there h), λ s. elim s [ inl (a, c) ↦ cc | inr later ↦ back later ])
ends_iff ((false, true) ∷ answers) = (λ h. inl (refl, refl), λ s. refl)
ends_iff ((false, false) ∷ answers) =
    let (there, back) = ends_iff answers in
    (λ h. inr (there h), λ s. elim s [ inl (a, c) ↦ cc | inr later ↦ back later ])

-- Behind a Listen that succeeded, Start returns exactly if an Accept fails behind Stop: no other failure
-- of Accept ends it, however often it comes.
pub start_ends_iff :
    {E : Type 0} (cfg : ServerConfig) (answers : List (Bool × Bool))
    → (r : Running) × (start {E = E} cfg answers (ok tt) (ok tt) ≡ ok r)
      × ((r.ended ≡ true) ↔ StopsAt answers)
unfolding start
start_ends_iff cfg answers = (
  record {
    dashboard = not (is_empty cfg.dashboard_addr);
    served = (accept_loop answers).0;
    ended = (accept_loop answers).1;
  },
  ground arith,
  ends_iff answers,
)

-- ===== src/Programs/Exits.antt =====
-- cmd/server/main.go and cmd/client/main.go: with which status a program ends, and when it does not.
use qtrp.Common.{
  Bool, true, false, none, some, List, Result, ok, err, ◌>>=◌, >>=-eq-ok, wrap_error-eq-ok,
  if◌then◌else◌, ℕ, ◌≡◌, ◌↔◌, ◌≢◌, ◌⊎◌, inl, inr, refl, subst, sym, ap, ◌∙◌, arith,
}
use qtrp.Config.Load.{ServerConfig, load_server_config}
use qtrp.Crypto.Cert.{CertConfig, CertError}
use qtrp.Go.Strings.{Text}
use qtrp.Programs.{status, fatal, server_made, served, server_main}
use qtrp.Server.Session.{accept_loop}
use qtrp.Server.Setup.{Layers, server_layers}
use qtrp.Server.Start.{start_listening, start-Listen, StopsAt, ends_iff}

fatal_one : {E A : Type 0} (r : Result E A) (c : ℕ) → fatal r ≡ err c → c ≡ 1
fatal_one (err e) c h = ground (arith, h)
fatal_one (ok a) c h = cc

>>=-one :
    {A B : Type 0} (r : Result ℕ A) (continue : A → Result ℕ B)
    → ((c : ℕ) → r ≡ err c → c ≡ 1)
    → ((a : A) (c : ℕ) → continue a ≡ err c → c ≡ 1)
    → (c : ℕ) → (r >>= continue) ≡ err c
    → c ≡ 1
>>=-one (err d) continue first rest c h = let same : d ≡ c = cc in first c (ap err same)
>>=-one (ok a) continue first rest c h = rest a c h

status-ok :
    (d : Bool)
    → ((status (ok d) ≡ some 0) ↔ (d ≡ true))
      × ((status (ok d) ≡ none) ↔ (d ≡ false))
      × (status (ok d) ≢ some 1)
status-ok true = ground arith
status-ok false = ground arith

not_true : (d : Bool) → ¬ (d ≡ true) → d ≡ false
not_true true h = absurd (h refl)
not_true false h = refl

true-false : true ≢ false
true-false h = cc

-- The three ends of a program that is made (`M`), or fails, and then goes on.
status_iff :
    {A : Type 0} {M S T U : A → Type 0} (o : Result ℕ A) (rest : A → Result ℕ Bool)
    → ((a : A) → (o ≡ ok a) ↔ M a)
    → ((c : ℕ) → o ≡ err c → c ≡ 1)
    → ((a : A)
        → ((status (rest a) ≡ some 0) ↔ S a)
          × ((status (rest a) ≡ none) ↔ T a)
          × ((status (rest a) ≡ some 1) ↔ U a))
    → ((status (o >>= rest) ≡ some 0) ↔ ((a : A) × M a × S a))
      × ((status (o >>= rest) ≡ none) ↔ ((a : A) × M a × T a))
      × ((status (o >>= rest) ≡ some 1) ↔ ((a : A) → M a → U a))
status_iff {A = A} {M = M} (err c) rest made one ends =
    let is_one = one c refl in
    let never : (a : A) → ¬ M a = λ a m. let e = (made a).1 m in cc in
    (
      (λ h. ground (arith, h, is_one), λ (a, m, s). absurd (never a m)),
      (λ h. cc, λ (a, m, t). absurd (never a m)),
      (λ h a m. absurd (never a m), λ u. ap some is_one),
    )
status_iff {A = A} {M = M} {S = S} {T = T} {U = U} (ok a) rest made one ends =
    let here : M a = (made a).0 refl in
    let only : (b : A) → M b → b ≡ a = λ b m. let e = (made b).1 m in cc in
    let (zero, runs, other) = ends a in
    (
      (λ h. (a, here, zero.0 h), λ (b, m, s). zero.1 (subst S (only b m) s)),
      (λ h. (a, here, runs.0 h), λ (b, m, t). runs.1 (subst T (only b m) t)),
      (λ h b m. subst U (sym (only b m)) (other.0 h), λ u. other.1 (u a here)),
    )

-- The Listen that the server's mode takes succeeds.
abbrev pub Listens :
    {E : Type 0} → ServerConfig → Result E (Unit {0}) → Result E (Unit {0}) → Type 0
Listens cfg listened mtmux_listened =
    (if cfg.mtmux.enabled then mtmux_listened else listened) ≡ ok tt

listening_iff :
    {E : Type 0} (addr : Text) (answers : List (Bool × Bool)) (l : Result E (Unit {0}))
    → ((status (fatal (start_listening addr answers l) >>= (λ r. ok r.ended)) ≡ some 0)
        ↔ ((l ≡ ok tt) × StopsAt answers))
      × ((status (fatal (start_listening addr answers l) >>= (λ r. ok r.ended)) ≡ none)
          ↔ ((l ≡ ok tt) × ¬ StopsAt answers))
      × ((status (fatal (start_listening addr answers l) >>= (λ r. ok r.ended)) ≡ some 1)
          ↔ (¬ (l ≡ ok tt)))
unfolding start_listening
listening_iff addr answers (err e) = (
  (λ h. absurd (cc h), λ (s, t). absurd (cc s)),
  (λ h. absurd (cc h), λ (s, t). absurd (cc s)),
  (λ h s. cc, λ n. refl),
)
listening_iff addr answers (ok tt) =
    let (stops, unstops) = ends_iff answers in
    let (zero, runs, other) = status-ok (accept_loop answers).1 in
    (
      (λ h. (refl, stops (zero.0 h)), λ (s, t). zero.1 (unstops t)),
      (
        λ h. (refl, λ t. true-false (sym (unstops t) ∙ runs.0 h)),
        λ (s, t). runs.1 (not_true (accept_loop answers).1 (λ e. t (stops e))),
      ),
      (λ h. absurd (other h), λ n. absurd (n refl)),
    )

served_iff :
    {E : Type 0} (cfg : ServerConfig) (signalled : Bool) (answers : List (Bool × Bool))
    (l k : Result E (Unit {0}))
    → ((status (served cfg signalled answers l k) ≡ some 0)
        ↔ ((signalled ≡ true) ⊎ (Listens cfg l k × StopsAt answers)))
      × ((status (served cfg signalled answers l k) ≡ none)
          ↔ ((signalled ≡ false) × Listens cfg l k × ¬ StopsAt answers))
      × ((status (served cfg signalled answers l k) ≡ some 1)
          ↔ ((signalled ≡ false) × ¬ Listens cfg l k))
unfolding served
served_iff cfg true answers l k = (
  (λ h. inl refl, λ h. refl),
  (λ h. absurd (cc h), λ (s, up, on). absurd (cc s)),
  (λ h. absurd (cc h), λ (s, t). absurd (cc s)),
)
served_iff cfg false answers l k =
    let (zero, runs, other) =
      listening_iff cfg.dashboard_addr answers (if cfg.mtmux.enabled then k else l) in
    rw (start-Listen cfg answers l k) (
      (λ h. inr (zero.0 h), elim [ inl s ↦ absurd (cc s) | inr s ↦ zero.1 s ]),
      (λ h. let (up, on) = runs.0 h in (refl, up, on), λ (s, up, on). runs.1 (up, on)),
      (λ h. (refl, other.0 h), λ (s, t). other.1 t),
    )

module _ {E C : Type 0} (read_file : Text → Result E (List ℕ))
    (unmarshal : List ℕ → Result E ServerConfig) (load_pair : CertConfig → Result E C)
    (generate : CertConfig → Result (CertError E) C) where
  -- The configuration is loaded, and New makes a server of it.
  abbrev pub Makes : Text → ServerConfig → Type 0
  Makes path cfg =
      (load_server_config read_file unmarshal path ≡ ok cfg)
      × (layers : Layers C) × (server_layers load_pair generate cfg ≡ ok layers)

  made_iff :
      (path : Text) (cfg : ServerConfig)
      → (server_made read_file unmarshal load_pair generate path ≡ ok cfg) ↔ Makes path cfg
  unfolding server_made
  made_iff path cfg = (
    λ h.
        let (d, a, h') = >>=-eq-ok (fatal (load_server_config read_file unmarshal path)) _ h in
        let (layers, b, same) = >>=-eq-ok (fatal (server_layers load_pair generate d)) _ h' in
        let at : d ≡ cfg = cc in
        subst (Makes path) at (wrap_error-eq-ok _ _ a, layers, wrap_error-eq-ok _ _ b),
    λ (a, layers, b). simp (a, b),
  )

  made_one :
      (path : Text) (c : ℕ)
      → server_made read_file unmarshal load_pair generate path ≡ err c
      → c ≡ 1
  unfolding server_made
  made_one path =
      >>=-one (fatal (load_server_config read_file unmarshal path)) _ (fatal_one _) (λ cfg.
        >>=-one (fatal (server_layers load_pair generate cfg)) _ (fatal_one _) (λ layers c h. cc))

  -- The server's program ends with status 0 exactly if its file is loaded, New makes a server, and then
  -- either the signal's goroutine gets to its end first, or the Listen of the server's mode succeeds and
  -- an Accept fails behind Stop; with status 1 exactly if the file is not loaded, or New makes no server,
  -- or that Listen fails before the signal's goroutine has ended; and it runs on exactly if it was made,
  -- listens, no signal ends it, and no Accept fails behind Stop.
  pub server_main_iff :
      (path : Text) (signalled : Bool) (answers : List (Bool × Bool)) (l k : Result E (Unit {0}))
      → ((server_main read_file unmarshal load_pair generate path signalled answers l k ≡ some 0)
          ↔ ((cfg : ServerConfig) × Makes path cfg
              × ((signalled ≡ true) ⊎ (Listens cfg l k × StopsAt answers))))
        × ((server_main read_file unmarshal load_pair generate path signalled answers l k ≡ none)
            ↔ ((cfg : ServerConfig) × Makes path cfg
                × ((signalled ≡ false) × Listens cfg l k × ¬ StopsAt answers)))
        × ((server_main read_file unmarshal load_pair generate path signalled answers l k ≡ some 1)
            ↔ ((cfg : ServerConfig) → Makes path cfg → (signalled ≡ false) × ¬ Listens cfg l k))
  unfolding server_main
  server_main_iff path signalled answers l k =
      status_iff (server_made read_file unmarshal load_pair generate path)
        (λ cfg. served cfg signalled answers l k) (made_iff path) (made_one path)
        (λ cfg. served_iff cfg signalled answers l k)

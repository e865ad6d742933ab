-- ===== src/Transport/Sockets.antt =====
-- pkg/pool/tcp_linux.go and pkg/pool/tcp_windows.go: SetReuseAddr, by what Control and the operating
-- system answer.
use qtrp.Common.{◌≡◌, ◌↔◌, List, [], ◌∷◌, Result, ok, err, arith}

-- The options that are set to 1.
pub data SocketOption : Type 0 where
  so_reuseaddr so_reuseport : SocketOption

module _ {E : Type 0} where
  -- Inside Control, on Linux.
  abbrev set_both :
      Result E (Unit {0}) → Result E (Unit {0}) → List SocketOption × Result E (Unit {0})
  set_both (err e) second = (so_reuseaddr ∷ [], err e)
  set_both (ok u) second = (so_reuseaddr ∷ so_reuseport ∷ [], second)

  -- SetReuseAddr on Linux: the options that it tried to set, and its result. If Control fails, it has not
  -- run the function.
  unfoldable pub set_reuse_addr_linux :
      Result E (Unit {0})
      → Result E (Unit {0})
      → Result E (Unit {0})
      → List SocketOption × Result E (Unit {0})
  set_reuse_addr_linux (err e) first second = ([], err e)
  set_reuse_addr_linux (ok u) first second = set_both first second

  -- On Windows.
  unfoldable pub set_reuse_addr_windows :
      Result E (Unit {0}) → Result E (Unit {0}) → List SocketOption × Result E (Unit {0})
  set_reuse_addr_windows (err e) first = ([], err e)
  set_reuse_addr_windows (ok u) first = (so_reuseaddr ∷ [], first)

  -- Success means that both options are set.
  pub set_reuse_addr_linux_lem :
      (control first second : Result E (Unit {0}))
      → ((set_reuse_addr_linux control first second).1 ≡ ok tt) ↔ (
          (control ≡ ok tt)
          × (first ≡ ok tt)
          × (second ≡ ok tt)
          × ((set_reuse_addr_linux control first second).0 ≡ so_reuseaddr ∷ so_reuseport ∷ []))
  unfolding set_reuse_addr_linux
  set_reuse_addr_linux_lem control first second = ground arith

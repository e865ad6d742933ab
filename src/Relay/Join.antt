-- ===== src/Relay/Join.antt =====
-- internal/server/handler.go and internal/client/handler.go: Join and isClosedConnError, which the two
-- files share. The text of an error is a parameter.
use qtrp.Common.{
  ◌+◌, ◌≡◌, refl, arith, length, ◌||◌, ◌&&◌, not, Bool, true, false, Option, none, some, List, [],
  ◌∷◌, if◌then◌else◌,
}
use qtrp.Go.Int64.{ℤ}
use qtrp.Go.Io.{IoError, eof}
use qtrp.Go.Strings.{Text, codes, contains}

-- The two directions: `toward_first` copies from the second connection to the first.
pub data Direction : Type 0 where
  toward_first toward_second : Direction

-- What copyBuffer returned.
pub record Copying : Type 0 where
  pub total : ℤ
  pub failed : Option IoError

-- The directions that have ended, with their results, the last one first, and those that were printed.
-- A direction that ends closes the connection that it copies to.
pub record Joined : Type 0 where
  pub ended : List Direction
  pub first_closed : Bool
  pub second_closed : Bool
  pub logged : List (Direction × ℤ)

abbrev pub start : Joined
start = record { ended = []; first_closed = false; second_closed = false; logged = [] }

module _ (error_text : IoError → Text) where
  unfoldable pub is_closed_conn_error : Option IoError → Bool
  is_closed_conn_error none = false
  is_closed_conn_error (some e) =
      contains (codes "use of closed network connection") (error_text e)
      || (contains (codes "connection reset by peer") (error_text e)
          || contains (codes "broken pipe") (error_text e))

  abbrev is_eof : IoError → Bool
  is_eof eof = true
  is_eof _ = false

  -- Whether the end of a direction is printed.
  unfoldable pub is_logged : Option IoError → Bool
  unfolding is_closed_conn_error
  is_logged none = false
  is_logged (some e) = not (is_eof e) && not (is_closed_conn_error (some e))

  -- The end of a direction: its target is closed behind the log.
  unfoldable pub ends : Direction → Copying → Joined → Joined
  unfolding is_logged
  ends toward_first c j =
      let said = if is_logged c.failed then (toward_first, c.total) ∷ j.logged else j.logged in
      record j { ended = toward_first ∷ j.ended; first_closed = true; logged = said }
  ends toward_second c j =
      let said = if is_logged c.failed then (toward_second, c.total) ∷ j.logged else j.logged in
      record j { ended = toward_second ∷ j.ended; second_closed = true; logged = said }

  -- Join, by which direction ends first; it returns behind both.
  unfoldable pub join : Direction → Copying → Copying → Joined
  unfolding ends
  join toward_first first second = ends toward_second second (ends toward_first first start)
  join toward_second first second = ends toward_first first (ends toward_second second start)

  -- Whatever the two directions return, and whichever ends first, Join leaves both connections closed,
  -- and has printed the end of a direction exactly if it failed with an error that is neither io.EOF nor
  -- that of a closed connection.
  pub join_closes :
      (earlier : Direction) (first second : Copying)
      → let j = join earlier first second in
        (j.first_closed ≡ true)
        × (j.second_closed ≡ true)
        × (length j.logged
            ≡ (if is_logged first.failed then 1 else 0)
              + (if is_logged second.failed then 1 else 0))
  unfolding join ends
  join_closes toward_first first second = (refl, refl, ground arith)
  join_closes toward_second first second = (refl, refl, ground arith)

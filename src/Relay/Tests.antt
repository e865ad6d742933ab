-- ===== src/Relay/Tests.antt =====
-- A target that takes a number of bytes, and the theorem on the relay at a concrete input.
use qtrp.Common.{
  ℕ, ◌-◌, ◌≤◌, ◌≡◌, refl, Option, none, some, [], ◌∷◌, ◌++◌, arith, if◌then◌else◌, leb, length,
  take, take_all,
}
use qtrp.Go.Int64.{pos, add64}
use qtrp.Go.Io.{Bytes, IoError, eof, other, Wire}
use qtrp.Relay.{Source, copy_buffer}
use qtrp.Relay.Forwarded.{flow}
use qtrp.Relay.Tunnel.{Carries, upload-Carries}
use qtrp.Relay.Uncounted
use qtrp.Stats.{no_stats}

abbrev wire_send : Bytes → Wire → (ℕ × Option IoError) × Wire
wire_send b w =
    if leb (length b) w.room
    then ((length b, none), record { sent = w.sent ++ b; room = w.room - length b })
    else ((w.room, some (other 0)), record { sent = w.sent ++ take w.room b; room = 0 })

wire_sends :
    (b : Bytes) (w : Wire)
    → ((wire_send b w).0.0 ≤ length b)
      × ((wire_send b w).1.sent ≡ w.sent ++ take (wire_send b w).0.0 b)
wire_sends b w = (ground arith, ground (arith, take_all (length b) b (omega arith)))

abbrev upload : Source
upload = record { chunks = (1 ∷ 2 ∷ []) ∷ (3 ∷ []) ∷ []; last = 4 ∷ []; ending = eof }

abbrev nine_free : Wire
nine_free = record { sent = []; room = 9 }

-- What the client reads of the same bytes, of which the stream lost the last one.
abbrev crossing : Source
crossing = record { chunks = (1 ∷ []) ∷ (2 ∷ []) ∷ []; last = 3 ∷ []; ending = eof }

crossed_three :
    flow crossing.chunks crossing.last ++ (4 ∷ [])
    ≡ (copy_buffer wire_send upload nine_free no_stats).target.sent
unfolding copy_buffer flow
crossed_three = refl

upload-Carries_example :
    Carries []
      (flow upload.chunks upload.last)
      (Uncounted.copy_buffer wire_send crossing nine_free).target.sent
      (((copy_buffer wire_send upload nine_free no_stats).failed ≡ none)
        × ((Uncounted.copy_buffer wire_send crossing nine_free).failed ≡ none)
        × (◌≡◌ {A = Bytes} (4 ∷ []) []))
upload-Carries_example =
    upload-Carries wire_send (λ w. w.sent) wire_sends wire_send (λ w. w.sent) wire_sends upload
      nine_free no_stats crossing nine_free (4 ∷ []) refl crossed_three

-- The whole flow arrives, and total and counter have its length.
uploads :
    ((copy_buffer wire_send upload nine_free no_stats).target.sent ≡ 1 ∷ 2 ∷ 3 ∷ 4 ∷ [])
    × ((copy_buffer wire_send upload nine_free no_stats).failed ≡ none)
    × ((copy_buffer wire_send upload nine_free no_stats).total ≡ pos 4)
    × ((copy_buffer wire_send upload nine_free no_stats).stats.bytes_out ≡ pos 4)
unfolding copy_buffer add64
uploads = (refl, refl, refl, refl)

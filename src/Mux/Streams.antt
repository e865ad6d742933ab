-- ===== src/Mux/Streams.antt =====
-- pkg/mux: what the streams of the two kinds of session are.
use qtrp.Common.{◌≡◌, ◌≢◌, ◌↔◌, refl, ap, Option, none, some, arith}
use qtrp.Mux.{
  NetConn, nil_conn, stream_conn, Library, as_conn, Session, smux_session, session_adapter,
}

-- A library that gives a stream if it gives no error.
abbrev pub GivesStreams : (T S E : Type 0) → (T → (Option S × Option E) × T) → Type 0
GivesStreams T S E opens = (t : T) → (opens t).0.1 ≡ none → (s : S) × ((opens t).0.0 ≡ some s)

-- Either an error and nil, or no error and a stream.
abbrev pub IsStream : (S E : Type 0) → NetConn S × Option E → Type 0
IsStream S E r =
    ((r.1 ≢ none) ↔ (r.0 ≡ nil_conn)) × ((r.1 ≡ none) → (s : S) × (r.0 ≡ stream_conn (some s)))

as_conn-IsStream :
    {S E : Type 0} (stream : Option S) (e : Option E)
    → (e ≡ none → (s : S) × (stream ≡ some s))
    → IsStream S E (as_conn (stream, e))
unfolding as_conn
as_conn-IsStream stream (some e) h = ((λ n. refl, λ n. ground arith), λ n. cc)
as_conn-IsStream stream none h =
    ((λ n. absurd (n refl), λ n. cc), λ n. let (s, same) = h refl in (s, ap stream_conn same))

module _ {T S E A C : Type 0} (lib : Library T S E) (opens : GivesStreams T S E lib.open_stream)
    (accepts : GivesStreams T S E lib.accept_stream) where
  -- With both kinds of session, OpenStream and AcceptStream give nil exactly with an error, and never an
  -- interface that holds a nil pointer.
  pub streams_lem :
      (remote local : C → A) (remote' local' : T → A) (s : Session T C) (t : T)
      → IsStream S E ((smux_session lib remote local).open_stream s).0
        × IsStream S E ((smux_session lib remote local).accept_stream s).0
        × IsStream S E ((session_adapter lib remote' local').open_stream t).0
        × IsStream S E ((session_adapter lib remote' local').accept_stream t).0
  unfolding smux_session session_adapter
  streams_lem remote local remote' local' s t = (
    as_conn-IsStream _ _ (opens s.session),
    as_conn-IsStream _ _ (accepts s.session),
    as_conn-IsStream _ _ (opens t),
    as_conn-IsStream _ _ (accepts t),
  )

-- ===== src/Transport/Gnet/Kept.antt =====
-- pkg/transport/gnet_transport.go: the connection against a queue of bytes.
use qtrp.Common.{
  ℕ, ◌≡◌, refl, sym, ap, ◌∙◌, Bool, List, [], ◌∷◌, ◌++◌, arith, take, drop, take-append-drop,
  append-nil, append_assoc,
}
use qtrp.Go.Io.{Bytes, joined}
use qtrp.Transport.Gnet.{
  GnetConn, Fate, kept, refused, dropped, fate, put, on_traffic, Reading, got, at_end, waits,
  receive, read_buffered, read, close,
}

-- What happens to a connection: OnTraffic with its choice and all that has come, Read with its choice
-- and the size of its buffer, or Close.
pub data Op : Type 0 where
  arrives : Bool → Bytes → Op
  reads : Bool → ℕ → Op
  closes : Op

unfoldable pub after : Op → GnetConn → GnetConn
after (arrives prefer b) c = (on_traffic prefer b c).1
after (reads prefer n) c = (read prefer n c).1
after closes c = close c

-- The bytes that an operation puts into the connection.
abbrev pub taken : Fate → Bytes → Bytes
taken kept b = b
taken refused b = []
taken dropped b = []

unfoldable pub enters : Op → GnetConn → Bytes
enters (arrives prefer b) c = taken (fate prefer c) b
enters (reads prefer n) c = []
enters closes c = []

abbrev bytes_of : Reading → Bytes
bytes_of (got b) = b
bytes_of at_end = []
bytes_of waits = []

-- The bytes that an operation gives to the caller.
unfoldable pub leaves : Op → GnetConn → Bytes
leaves (arrives prefer b) c = []
leaves (reads prefer n) c = bytes_of (read prefer n c).0
leaves closes c = []

-- The queue of bytes that a connection stands for.
unfoldable pub queue : GnetConn → Bytes
queue c = c.read_buf ++ joined c.read_ch

joined-append : (bs : List Bytes) (b : Bytes) → joined (bs ++ (b ∷ [])) ≡ joined bs ++ b
unfolding joined
joined-append [] b = append-nil b
joined-append (c ∷ bs) b =
    ap (λ x. c ++ x) (joined-append bs b) ∙ sym (append_assoc c (joined bs) b)

queue-put : (f : Fate) (b : Bytes) (c : GnetConn) → queue (put f b c).1 ≡ queue c ++ taken f b
unfolding queue
queue-put kept b c =
    ap (λ x. c.read_buf ++ x) (joined-append c.read_ch b)
    ∙ sym (append_assoc c.read_buf (joined c.read_ch) b)
queue-put refused b c = sym (append-nil (queue c))
queue-put dropped b c = sym (append-nil (queue c))

taken_nil : (f : Fate) → taken f [] ≡ []
taken_nil kept = refl
taken_nil refused = refl
taken_nil dropped = refl

queue-on_traffic :
    (prefer : Bool) (b : Bytes) (c : GnetConn)
    → queue (on_traffic prefer b c).1 ≡ queue c ++ taken (fate prefer c) b
unfolding on_traffic
queue-on_traffic prefer [] c =
    sym (append-nil (queue c)) ∙ ap (λ x. queue c ++ x) (sym (taken_nil (fate prefer c)))
queue-on_traffic prefer (x ∷ b) c = queue-put (fate prefer c) (x ∷ b) c

queue-receive :
    (prefer : Bool) (n : ℕ) (bs : List Bytes) (c : GnetConn)
    → c.read_buf ≡ []
    → c.read_ch ≡ bs
    → bytes_of (receive prefer n bs c).0 ++ queue (receive prefer n bs c).1 ≡ queue c
unfolding receive queue joined
queue-receive prefer n [] c e f = ground arith
queue-receive prefer n (b ∷ bs) c e f =
    ground
      (arith, take-append-drop n b, append_assoc (take n b) (drop n b) (joined bs), ap joined f)

queue-read_buffered :
    (prefer : Bool) (n : ℕ) (buf : Bytes) (c : GnetConn)
    → c.read_buf ≡ buf
    → bytes_of (read_buffered prefer n buf c).0 ++ queue (read_buffered prefer n buf c).1 ≡ queue c
unfolding read_buffered
queue-read_buffered prefer n [] c e = queue-receive prefer n c.read_ch c e refl
queue-read_buffered prefer n (x ∷ buf) c e =
    unfold queue in
    ground (
      arith,
      take-append-drop n (x ∷ buf),
      append_assoc (take n (x ∷ buf)) (drop n (x ∷ buf)) (joined c.read_ch),
    )

-- An operation adds to the end of the queue and takes from its front.
queue-after : (op : Op) (c : GnetConn) → leaves op c ++ queue (after op c) ≡ queue c ++ enters op c
unfolding after enters leaves
queue-after (arrives prefer b) c = queue-on_traffic prefer b c
queue-after (reads prefer n) c =
    unfold read in (queue-read_buffered prefer n c.read_buf c refl ∙ sym (append-nil (queue c)))
queue-after closes c = unfold close queue in sym (append-nil (c.read_buf ++ joined c.read_ch))

-- The same over a sequence of operations.
unfoldable pub after_all : List Op → GnetConn → GnetConn
after_all [] c = c
after_all (op ∷ ops) c = after_all ops (after op c)

unfoldable pub entered : List Op → GnetConn → Bytes
entered [] c = []
entered (op ∷ ops) c = enters op c ++ entered ops (after op c)

unfoldable pub left : List Op → GnetConn → Bytes
left [] c = []
left (op ∷ ops) c = leaves op c ++ left ops (after op c)

-- Over any operations, what Read has given and what is still in the connection are together what was
-- in it at the start and the chunks that OnTraffic has put into the channel, in their order: a queue of
-- bytes.
pub queue_refines :
    (ops : List Op) (c : GnetConn)
    → left ops c ++ queue (after_all ops c) ≡ queue c ++ entered ops c
unfolding after_all entered left
queue_refines [] c = sym (append-nil (queue c))
queue_refines (op ∷ ops) c =
    append_assoc (leaves op c) (left ops (after op c)) (queue (after_all ops (after op c)))
    ∙ ap (λ x. leaves op c ++ x) (queue_refines ops (after op c))
    ∙ sym (append_assoc (leaves op c) (queue (after op c)) (entered ops (after op c)))
    ∙ ap (λ x. x ++ entered ops (after op c)) (queue-after op c)
    ∙ append_assoc (queue c) (enters op c) (entered ops (after op c))

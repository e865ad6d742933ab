-- ===== src/Pool/Buffer.antt =====
-- pkg/pool/buffer.go: the pool of buffers that both copyBuffers take theirs from. What sync.Pool gives
-- is an argument: a new buffer, or any that it holds; it may also drop any.
use qtrp.Common.{
  ℕ, zero, suc, ◌*◌, ◌≡◌, refl, sym, ap, ◌∙◌, subst, Bool-cases, inl, inr, if_true, if_false,
  ==_iff, Option, none, some, List, [], ◌∷◌, All, ◌==◌, if◌then◌else◌, length,
}
use qtrp.Go.Io.{Bytes}

pub record BufferPool : Type 0 where
  pub size : ℕ
  pub idle : List Bytes

-- NewBufferPool
abbrev pub new_buffer_pool : ℕ → BufferPool
new_buffer_pool size = record { size = size; idle = [] }

-- The size of DefaultBufferPool.
abbrev pub default_size : ℕ
default_size = 512 * 1024

-- make([]byte, size)
unfoldable pub zero_bytes : ℕ → Bytes
zero_bytes zero = []
zero_bytes (suc n) = 0 ∷ zero_bytes n

abbrev pub put_back : {A : Type 0} → A → Option (A × List A) → Option (A × List A)
put_back b none = none
put_back b (some (c, rest)) = some (c, b ∷ rest)

-- The element at a place, and the others.
unfoldable pub pick : {A : Type 0} → ℕ → List A → Option (A × List A)
pick i [] = none
pick zero (b ∷ bs) = some (b, bs)
pick (suc i) (b ∷ bs) = put_back b (pick i bs)

abbrev or_new : BufferPool → Option (Bytes × List Bytes) → Bytes × BufferPool
or_new p none = (zero_bytes p.size, p)
or_new p (some (b, rest)) = (b, record p { idle = rest })

-- Get, by the place of the buffer that sync.Pool gives. (Where it has none, it makes one.)
unfoldable pub get_buffer : ℕ → BufferPool → Bytes × BufferPool
unfolding pick zero_bytes
get_buffer i p = or_new p (pick i p.idle)

-- Put; `none` is nil.
unfoldable pub put_buffer : Option Bytes → BufferPool → BufferPool
put_buffer none p = p
put_buffer (some b) p = if length b == p.size then record p { idle = b ∷ p.idle } else p

-- What happens to the pool: `drops` is sync.Pool's own doing.
pub data Op : Type 0 where
  gets drops : ℕ → Op
  puts : Option Bytes → Op

unfoldable pub after : Op → BufferPool → BufferPool
after (gets i) p = (get_buffer i p).1
after (drops i) p = (get_buffer i p).1
after (puts b) p = put_buffer b p

abbrev given : Op → BufferPool → List Bytes → List Bytes
given (gets i) p bs = (get_buffer i p).0 ∷ bs
given (drops i) p bs = bs
given (puts b) p bs = bs

-- What the Gets of a sequence of operations return.
unfoldable pub buffers : List Op → BufferPool → List Bytes
buffers [] p = []
buffers (op ∷ ops) p = given op p (buffers ops (after op p))

-- All the buffers of a pool have its size.
abbrev IsSized : ℕ → BufferPool → Type 0
IsSized n p = (p.size ≡ n) × All (λ b. length b ≡ n) p.idle

length-zero_bytes : (n : ℕ) → length (zero_bytes n) ≡ n
unfolding zero_bytes
length-zero_bytes zero = refl
length-zero_bytes (suc n) = ap suc (length-zero_bytes n)

-- A buffer with others, as `pick` finds them.
abbrev AreSized : ℕ → Option (Bytes × List Bytes) → Type 0
AreSized n none = Unit {0}
AreSized n (some (b, rest)) = (length b ≡ n) × All (λ c. length c ≡ n) rest

add_AreSized :
    (n : ℕ) (b : Bytes) (o : Option (Bytes × List Bytes))
    → length b ≡ n
    → AreSized n o
    → AreSized n (put_back b o)
add_AreSized n b none e h = tt
add_AreSized n b (some (c, rest)) e (f, others) = (f, (e, others))

pick-AreSized : (n i : ℕ) (bs : List Bytes) → All (λ b. length b ≡ n) bs → AreSized n (pick i bs)
unfolding pick
pick-AreSized n i [] h = tt
pick-AreSized n zero (b ∷ bs) (e, others) = (e, others)
pick-AreSized n (suc i) (b ∷ bs) (e, others) =
    add_AreSized n b (pick i bs) e (pick-AreSized n i bs others)

or_new-IsSized :
    (n : ℕ) (p : BufferPool) (o : Option (Bytes × List Bytes))
    → IsSized n p
    → AreSized n o
    → (length (or_new p o).0 ≡ n) × IsSized n (or_new p o).1
or_new-IsSized n p none (e, all) h = (length-zero_bytes p.size ∙ e, (e, all))
or_new-IsSized n p (some (b, rest)) (e, all) (f, others) = (f, (e, others))

get_buffer-IsSized :
    (n i : ℕ) (p : BufferPool)
    → IsSized n p
    → (length (get_buffer i p).0 ≡ n) × IsSized n (get_buffer i p).1
unfolding get_buffer
get_buffer-IsSized n i p s = or_new-IsSized n p (pick i p.idle) s (pick-AreSized n i p.idle s.1)

put_buffer-IsSized :
    (n : ℕ) (o : Option Bytes) (p : BufferPool) → IsSized n p → IsSized n (put_buffer o p)
unfolding put_buffer
put_buffer-IsSized n none p s = s
put_buffer-IsSized n (some b) p s = elim (Bool-cases (length b == p.size)) [
  | inl same ↦
      subst (IsSized n) (sym (if_true (length b == p.size) same _ _))
        (s.0, ((==_iff (length b) p.size).0 same ∙ s.0, s.1))
  | inr other ↦ subst (IsSized n) (sym (if_false (length b == p.size) other _ _)) s
]

buffers_from :
    (n : ℕ) (ops : List Op) (p : BufferPool) → IsSized n p → All (λ b. length b ≡ n) (buffers ops p)
unfolding buffers after
buffers_from n [] p s = tt
buffers_from n (gets i ∷ ops) p s =
    let (e, s') = get_buffer-IsSized n i p s in (e, buffers_from n ops (get_buffer i p).1 s')
buffers_from n (drops i ∷ ops) p s =
    buffers_from n ops (get_buffer i p).1 (get_buffer-IsSized n i p s).1
buffers_from n (puts b ∷ ops) p s = buffers_from n ops (put_buffer b p) (put_buffer-IsSized n b p s)

-- Whatever is put back, and whatever sync.Pool keeps, drops or gives: each buffer that Get returns has
-- the size of the pool.
pub buffers_lem :
    (n : ℕ) (ops : List Op) → All (λ b. length b ≡ n) (buffers ops (new_buffer_pool n))
buffers_lem n ops = buffers_from n ops (new_buffer_pool n) (refl, tt)

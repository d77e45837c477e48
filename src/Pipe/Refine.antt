-- ===== src/Pipe/Refine.antt =====
-- The ring of HW3/pipe.c refines the queue, also where its counters wrap.
use operating_systems.Base.{
  ℕ, zero, suc, ◌+◌, ◌%◌, ◌^◌, ◌<◌, ◌≤◌, ◌≡◌, refl, ap, ap₂, ◌∙◌, Bool, true, false, List, [], ◌∷◌,
  ◌++◌, length, get_or, set, get_or-set_self, get_or-set_ne, length-set, add32, sub32, arith,
  Bool-cases, ltb, inl, inr, if◌then◌else◌, not, ◌||◌, lt→ltb,
}
use operating_systems.Pipe.Ring.{
  Pipe, pipe_size, is_full, is_empty, put, take_byte, WriteEnd, written, broken, full, write_loop,
  read_loop,
}
use operating_systems.Pipe.Queue.{push_all, pop_all}

-- The counters are 32-bit and at most 512 apart, and the buffer has its 512 bytes.
pub record IsValid (p : Pipe) : Type 0 where
  pub storage : length p.buf ≡ pipe_size
  pub small : (p.nread < 2 ^ 32) × (p.nwrite < 2 ^ 32)
  pub room : sub32 p.nwrite p.nread ≤ pipe_size

-- The `n` bytes of the buffer from counter `r` on.
abbrev pub window : List ℕ → ℕ → ℕ → List ℕ
window buf r zero = []
window buf r (suc n) = get_or buf (r % pipe_size) 0 ∷ window buf (add32 r 1) n

-- The queue that a pipe holds.
abbrev pub contents : Pipe → List ℕ
contents p = window p.buf p.nread (sub32 p.nwrite p.nread)

length-window : (buf : List ℕ) (r n : ℕ) → length (window buf r n) ≡ n
length-window buf r zero = refl
length-window buf r (suc n) = ap suc (length-window buf (add32 r 1) n)

pub length-contents : (p : Pipe) → length (contents p) ≡ sub32 p.nwrite p.nread
length-contents p = length-window p.buf p.nread (sub32 p.nwrite p.nread)

-- The tests of the code are the tests of the queue.
full_iff : (p : Pipe) → IsValid p → is_full p ≡ not (ltb (length (contents p)) pipe_size)
full_iff p v = ground (arith, length-contents p)

put-IsValid : (p : Pipe) (b : ℕ) → IsValid p → is_full p ≡ false → IsValid (put p b)
unfolding put
put-IsValid p b v f = record {
  storage = length-set p.buf (p.nwrite % pipe_size) b ∙ v.storage;
  small = omega arith;
  room = ground arith;
}

-- Writing at the end of a window that is not full extends it.
window-set :
    (buf : List ℕ) (b n r w : ℕ)
    → length buf ≡ pipe_size
    → r < 2 ^ 32
    → n < pipe_size
    → w ≡ (r + n) % pipe_size
    → window (set buf w b) r (suc n) ≡ window buf r n ++ (b ∷ [])
window-set buf b zero r w s hr hn e =
    let same : w ≡ r % pipe_size = omega arith in
    rw (same, get_or-set_self buf (r % pipe_size) b 0 (omega arith))
window-set buf b (suc n) r w s hr hn e =
    ap₂ ◌∷◌ (get_or-set_ne buf w (r % pipe_size) b 0 (omega arith))
      (window-set buf b n (add32 r 1) w s (omega arith) (omega arith) (omega arith))

-- A byte that the pipe has room for goes to the end of the queue.
contents-put :
    (p : Pipe) (b : ℕ) → IsValid p → is_full p ≡ false → contents (put p b) ≡ contents p ++ (b ∷ [])
unfolding put
contents-put p b v f = rw count (
    window-set p.buf b (sub32 p.nwrite p.nread) p.nread (p.nwrite % pipe_size) v.storage v.small.0
      (ground arith) (omega arith))
  where
    count : sub32 (add32 p.nwrite 1) p.nread ≡ suc (sub32 p.nwrite p.nread)
    count = ground arith

take_byte-IsValid : (p : Pipe) → IsValid p → is_empty p ≡ false → IsValid (take_byte p).1
unfolding take_byte
take_byte-IsValid p v f = record { storage = v.storage; small = omega arith; room = ground arith }

-- The byte that a pipe gives is the front of the queue.
contents-take_byte :
    (p : Pipe)
    → IsValid p
    → is_empty p ≡ false
    → contents p ≡ (take_byte p).0 ∷ contents (take_byte p).1
unfolding take_byte
contents-take_byte p v f = rw count
  where
    count : sub32 p.nwrite p.nread ≡ suc (sub32 p.nwrite (add32 p.nread 1))
    count = ground arith

pub contents-empty : (p : Pipe) → IsValid p → is_empty p ≡ true → contents p ≡ []
contents-empty p v e = let none_left : sub32 p.nwrite p.nread ≡ 0 = ground arith in rw none_left

-- What the queue makes of a write: all fits, or the rest finds no room.
abbrev pub WriteSpec : Pipe → Bool → List ℕ → WriteEnd × Pipe → Type 0
WriteSpec p killed bs (written, p') = push_all (contents p) bs ≡ (contents p', [])
WriteSpec p killed bs (broken, p') =
    ((not p.readopen || killed) ≡ true)
    × (length (contents p') ≡ pipe_size)
    × ((push_all (contents p) bs).0 ≡ contents p')
WriteSpec p killed bs (full rest, p') =
    ((not p.readopen || killed) ≡ false)
    × (push_all (contents p) bs ≡ (contents p', rest))
    × (length (contents p') ≡ pipe_size)

length-full : (p : Pipe) → IsValid p → is_full p ≡ true → length (contents p) ≡ pipe_size
length-full p v f = ground (arith, length-contents p)

push_all-full : (q bs : List ℕ) (b : ℕ) → length q ≡ pipe_size → push_all q (b ∷ bs) ≡ (q, b ∷ bs)
unfolding push_all
push_all-full q bs b e = rw e

push_all-put :
    (p : Pipe) (b : ℕ) (bs : List ℕ)
    → IsValid p
    → is_full p ≡ false
    → push_all (contents p) (b ∷ bs) ≡ push_all (contents (put p b)) bs
unfolding push_all
push_all-put p b bs v room = rw (
  lt→ltb (length (contents p)) pipe_size (ground (arith, length-contents p)),
  contents-put p b v room,
)

module _ (killed : Bool) where
  WriteSpec-full :
      (p : Pipe) (b : ℕ) (bs : List ℕ)
      → IsValid p
      → is_full p ≡ true
      → WriteSpec p killed (b ∷ bs) (if not p.readopen || killed then broken else full (b ∷ bs), p)
  WriteSpec-full p b bs v f = elim (Bool-cases (not p.readopen || killed)) [
    | inl t ↦
        rw t (
          t,
          length-full p v f,
          ap (λ r. r.0) (push_all-full (contents p) bs b (length-full p v f)),
        )
    | inr w ↦ rw w (w, push_all-full (contents p) bs b (length-full p v f), length-full p v f)
  ]

  WriteSpec-step :
      (p p1 : Pipe) (b : ℕ) (bs : List ℕ) (r : WriteEnd × Pipe)
      → push_all (contents p) (b ∷ bs) ≡ push_all (contents p1) bs
      → p.readopen ≡ p1.readopen
      → WriteSpec p1 killed bs r
      → WriteSpec p killed (b ∷ bs) r
  WriteSpec-step p p1 b bs (written, p') e o h = e ∙ h
  WriteSpec-step p p1 b bs (broken, p') e o (t, l, h) = (rw o t, l, ap (λ r. r.0) e ∙ h)
  WriteSpec-step p p1 b bs (full rest, p') e o (t, h, l) = (rw o t, e ∙ h, l)

  -- The loop of `pipewrite` keeps the pipe valid and appends to its queue what the bounded queue
  -- takes: all the bytes, or as many as fit, and then it fails if there is no reader or the writer
  -- is killed, and sleeps with the rest otherwise.
  pub write_loop_refines :
      (bs : List ℕ) (p : Pipe)
      → IsValid p
      → IsValid (write_loop killed p bs).1 × WriteSpec p killed bs (write_loop killed p bs)
  unfolding write_loop
  write_loop_refines [] p v = (v, unfold push_all in refl)
  write_loop_refines (b ∷ bs) p v = elim (Bool-cases (is_full p)) [
    | inl f ↦ rw (f, write_loop) (v, WriteSpec-full p b bs v f)
    | inr room ↦
        let (v', h) = write_loop_refines bs (put p b) (put-IsValid p b v room) in
        rw (room, write_loop)
          (
            v',
            WriteSpec-step p (put p b) b bs (write_loop killed (put p b) bs)
                (push_all-put p b bs v room) (unfold put in refl) h,
          )
  ]

-- The copy loop of `piperead` keeps the pipe valid and takes from its queue the first `n` bytes, or all if
-- there are fewer.
pub read_loop_refines :
    (n : ℕ) (p : Pipe)
    → IsValid p
    → IsValid (read_loop n p).1
      × (pop_all n (contents p) ≡ ((read_loop n p).0, contents (read_loop n p).1))
unfolding read_loop pop_all
read_loop_refines zero p v = (v, refl)
read_loop_refines (suc n) p v = elim (Bool-cases (is_empty p)) [
  | inl e ↦ rw (e, read_loop) (v, rw (contents-empty p v e))
  | inr more ↦
      let (v', e) = read_loop_refines n (take_byte p).1 (take_byte-IsValid p v more) in
      rw (more, read_loop) (v', rw (contents-take_byte p v more) (rw e))
]

-- ===== src/Console/Editing.antt =====
-- Editing keeps the input line of HW3/console.c well formed and never touches what is readable.
use operating_systems.Base.{
  ℕ, zero, suc, ◌+◌, ◌%◌, ◌^◌, ◌<◌, ◌≤◌, ◌≡◌, ◌≢◌, refl, Bool, true, false, List, [], ◌∷◌, length,
  get_or, set, length-set, get_or-set_ne, add32, sub32, ◌==◌, ltb, not, ◌&&◌, ◌||◌, arith,
  Bool-cases, inl, inr, ◌∙◌,
}
use operating_systems.Console.Input.{
  Input, input_buf, back, kill_line, store_byte, newline, type_byte, consoleintr,
}

-- The indices are words in the order r, w, e, at most the buffer apart.
pub record IsValid (s : Input) : Type 0 where
  pub storage : length s.buf ≡ input_buf
  pub words : (s.r < 2 ^ 32) × (s.w < 2 ^ 32) × (s.e < 2 ^ 32)
  pub ordered : sub32 s.w s.r ≤ sub32 s.e s.r
  pub room : sub32 s.e s.r ≤ input_buf

-- What readers see of `s` is still there in `t`.
pub record Extends (s t : Input) : Type 0 where
  pub valid : IsValid t
  pub same_r : t.r ≡ s.r
  pub grows : sub32 s.w s.r ≤ sub32 t.w t.r
  pub kept :
      (k : ℕ)
      → k < sub32 s.w s.r
      → get_or t.buf ((s.r + k) % input_buf) 0 ≡ get_or s.buf ((s.r + k) % input_buf) 0

Extends-refl : (s : Input) → IsValid s → Extends s s
Extends-refl s v = record { valid = v; same_r = refl; grows = omega arith; kept = λ k lt. refl }

Extends-trans : (s t u : Input) → Extends s t → Extends t u → Extends s u
Extends-trans s t u a b = record {
  valid = b.valid;
  same_r = b.same_r ∙ a.same_r;
  grows = omega (arith, a.grows, b.grows);
  kept = λ k lt. rw a.same_r at (b.kept k (omega (arith, a.grows))) ∙ a.kept k lt;
}

Extends-back : (s : Input) → IsValid s → s.e ≢ s.w → Extends s (back s)
Extends-back s v ne = record {
  valid = record {
    storage = v.storage;
    words = (v.words.0, v.words.1, omega arith);
    ordered = omega (arith, v.words.0, v.words.1, v.words.2, v.ordered, v.room);
    room = omega (arith, v.words.0, v.words.1, v.words.2, v.ordered, v.room);
  };
  same_r = refl;
  grows = omega arith;
  kept = λ k lt. refl;
}

Extends-kill_line : (fuel : ℕ) (s : Input) → IsValid s → Extends s (kill_line fuel s)
unfolding kill_line
Extends-kill_line zero s v = Extends-refl s v
Extends-kill_line (suc fuel) s v =
    elim (Bool-cases
      (not (s.e == s.w) && not (get_or s.buf (sub32 s.e 1 % input_buf) 0 == b'\n'))) [
        | inl t ↦
            let one = Extends-back s v (ground (arith, t)) in
            rw t (Extends-trans s (back s) _ one (Extends-kill_line fuel (back s) one.valid))
        | inr f ↦ rw f (Extends-refl s v)
      ]

put_kept :
    (c : ℕ) (s : Input)
    → IsValid s
    → sub32 s.e s.r < input_buf
    → (k : ℕ) → k < sub32 s.w s.r
    → get_or (set s.buf (s.e % 128) c) ((s.r + k) % 128) 0 ≡ get_or s.buf ((s.r + k) % 128) 0
put_kept c s v lt k low =
    get_or-set_ne s.buf (s.e % 128) ((s.r + k) % 128) c 0
      (λ same. absurd (omega (arith, same, lt, low, v.words.0, v.words.2, v.ordered)))

Extends-store_byte :
    (c : ℕ) (s : Input) → IsValid s → sub32 s.e s.r < input_buf → Extends s (store_byte c s)
Extends-store_byte c s v lt =
    elim (Bool-cases (c == b'\n' || c == 4 || add32 s.e 1 == add32 s.r input_buf)) [
      | inl t ↦ rw t (record {
        valid = record {
          storage = length-set s.buf (s.e % 128) c ∙ v.storage;
          words = (v.words.0, omega arith, omega arith);
          ordered = omega arith;
          room = omega (arith, lt, v.words.0, v.words.2);
        };
        same_r = refl;
        grows = omega (arith, lt, v.ordered, v.words.0, v.words.1, v.words.2);
        kept = put_kept c s v lt;
      })
      | inr f ↦ rw f (record {
        valid = record {
          storage = length-set s.buf (s.e % 128) c ∙ v.storage;
          words = (v.words.0, v.words.1, omega arith);
          ordered = omega (arith, lt, v.ordered, v.words.0, v.words.1, v.words.2);
          room = omega (arith, lt, v.words.0, v.words.2);
        };
        same_r = refl;
        grows = omega arith;
        kept = put_kept c s v lt;
      })
    ]

Extends-type_byte : (c : ℕ) (s : Input) → IsValid s → Extends s (type_byte c s)
unfolding type_byte
Extends-type_byte c s v = elim (Bool-cases (c == 16)) [
  | inl t ↦ rw t (Extends-refl s v)
  | inr not_p ↦ elim (Bool-cases (c == 21)) [
    | inl t ↦ rw (not_p, t) (Extends-kill_line (sub32 s.e s.w) s v)
    | inr not_u ↦ elim (Bool-cases (c == 8 || c == 127)) [
      | inl t ↦ elim (Bool-cases (s.e == s.w)) [
        | inl same ↦ rw (not_p, not_u, t, same) (Extends-refl s v)
        | inr other ↦ rw (not_p, not_u, t, other) (Extends-back s v (ground (arith, other)))
      ]
      | inr not_h ↦ elim (Bool-cases (not (c == 0) && ltb (sub32 s.e s.r) input_buf)) [
        | inl t ↦
            rw (not_p, not_u, not_h, t) (Extends-store_byte (newline c) s v (ground (arith, t)))
        | inr f ↦ rw (not_p, not_u, not_h, f) (Extends-refl s v)
      ]
    ]
  ]
]

-- Whatever is typed, the indices of the line stay in order and in the buffer, and every byte that
-- readers could take is still there, at its place.
pub consoleintr_lem : (cs : List ℕ) (s : Input) → IsValid s → Extends s (consoleintr cs s)
unfolding consoleintr
consoleintr_lem [] s v = Extends-refl s v
consoleintr_lem (c ∷ cs) s v =
    let one = Extends-type_byte c s v in
    Extends-trans s (type_byte c s) _ one (consoleintr_lem cs (type_byte c s) one.valid)

-- The test of the loop of kill line.
abbrev pub may_kill : Input → Bool
may_kill s = not (s.e == s.w) && not (get_or s.buf (sub32 s.e 1 % input_buf) 0 == b'\n')

-- ^U takes back the edited line: it stops at what readers can take, or behind a line end, and what
-- it is given as fuel is enough for that.
pub kill_line_stops :
    (fuel : ℕ) (s : Input) → IsValid s → sub32 s.e s.w ≤ fuel → may_kill (kill_line fuel s) ≡ false
unfolding kill_line
kill_line_stops zero s v le =
    let done : (s.e == s.w) ≡ true = ground (arith, le, v.words.1, v.words.2) in rw done refl
kill_line_stops (suc fuel) s v le = elim (Bool-cases (may_kill s)) [
  | inl t ↦
      let ne : s.e ≢ s.w = ground (arith, t) in
      rw t (
        kill_line_stops fuel (back s) (Extends-back s v ne).valid
          (omega (arith, ne, le, v.words.1, v.words.2)))
  | inr f ↦ rw f f
]

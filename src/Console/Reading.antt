-- ===== src/Console/Reading.antt =====
-- What `consoleread` of HW3/console.c takes from the input line.
use operating_systems.Base.{
  ℕ, zero, suc, ◌%◌, ◌≤◌, ◌≡◌, ◌≢◌, refl, Bool, true, false, List, [], ◌∷◌, length, get_or, add32,
  ◌==◌, arith, if◌then◌else◌, Bool-cases, inl, inr,
}
use operating_systems.Console.Input.{Input, input_buf, consoleread, ReadStop, returns, waits}
use operating_systems.Console.Editing.{IsValid}

-- The next bytes of `s` are these, with no end of file and no line end but the last.
abbrev pub Taken : Input → List ℕ → Type 0
Taken s [] = Unit
Taken s (b ∷ bs) =
    (s.r ≢ s.w)
    × (b ≡ get_or s.buf (s.r % input_buf) 0)
    × (b ≢ 4)
    × (b ≡ 10 → bs ≡ [])
    × Taken (record s { r = add32 s.r 1 }) bs

-- What a read of `n` bytes owes: it takes at most that many, in order, leaves a well-formed line with
-- the same bytes and the same end, and waits only for a line that has none left.
pub record Took (n : ℕ) (s : Input) (bs : List ℕ) (stop : ReadStop) (t : Input) : Type 0 where
  pub valid : IsValid t
  pub ends : (t.w ≡ s.w) × (t.e ≡ s.e) × (t.buf ≡ s.buf)
  pub at_most : length bs ≤ n
  pub taken : Taken s bs
  pub waiting : stop ≡ waits → t.r ≡ t.w

IsValid-next : (s : Input) → IsValid s → s.r ≢ s.w → IsValid (record s { r = add32 s.r 1 })
IsValid-next s v ne = record {
  storage = v.storage;
  words = (omega arith, v.words.1, v.words.2);
  ordered = omega (arith, ne, v.ordered, v.room, v.words.0, v.words.1, v.words.2);
  room = omega (arith, ne, v.ordered, v.room, v.words.0, v.words.1, v.words.2);
}

-- `consoleread` does what it owes.
pub consoleread_lem :
    (n : ℕ) (some_read : Bool) (s : Input)
    → IsValid s
    → Took n s
        (consoleread n some_read s).0
        (consoleread n some_read s).1
        (consoleread n some_read s).2
unfolding consoleread
consoleread_lem zero some_read s v = record {
  valid = v;
  ends = (refl, refl, refl);
  at_most = omega arith;
  taken = _;
  waiting = λ e. absurd (ground (arith, e));
}
consoleread_lem (suc n) some_read s v = elim (Bool-cases (s.r == s.w)) [
  | inl empty ↦ rw empty (record {
    valid = v;
    ends = (refl, refl, refl);
    at_most = omega arith;
    taken = _;
    waiting = λ e. ground (arith, empty);
  })
  | inr more ↦
      let ne : s.r ≢ s.w = ground (arith, more) in
      elim (Bool-cases (get_or s.buf (s.r % input_buf) 0 == 4)) [
        | inl eof ↦ rw (more, eof) (at_eof some_read ne)
        | inr byte ↦ elim (Bool-cases (get_or s.buf (s.r % input_buf) 0 == b'\n')) [
          | inl line ↦
              rw (more, byte, line)
                (record {
                  valid = IsValid-next s v ne;
                  ends = (refl, refl, refl);
                  at_most = omega arith;
                  taken = (ne, refl, ground (arith, byte), (λ e. refl), _);
                  waiting = λ e. absurd (ground (arith, e));
                })
          | inr within ↦
              let rest =
                consoleread_lem n true (record s { r = add32 s.r 1 }) (IsValid-next s v ne) in
              rw (more, byte, within)
                (record {
                  valid = rest.valid;
                  ends = rest.ends;
                  at_most = omega (arith, rest.at_most);
                  taken = (
                    ne,
                    refl,
                    ground (arith, byte),
                    (λ e. absurd (ground (arith, within, e))),
                    rest.taken,
                  );
                  waiting = rest.waiting;
                })
        ]
      ]
]
  where
    at_eof :
        (some_read : Bool)
        → s.r ≢ s.w
        → Took (suc n) s [] returns (if some_read then s else record s { r = add32 s.r 1 })
    at_eof true ne = record {
      valid = v;
      ends = (refl, refl, refl);
      at_most = omega arith;
      taken = _;
      waiting = λ e. absurd (ground (arith, e));
    }
    at_eof false ne = record {
      valid = IsValid-next s v ne;
      ends = (refl, refl, refl);
      at_most = omega arith;
      taken = _;
      waiting = λ e. absurd (ground (arith, e));
    }

-- ===== src/Shell/Total.antt =====
-- Every line is parsed to a well-formed command or refused, by the parser of HW3/sh.c.
use operating_systems.Base.{
  ℕ, zero, suc, ◌+◌, ◌*◌, ◌≤◌, inl, inr, refl, Bool-cases, List, [], ◌∷◌, length, arith,
}
use operating_systems.Shell.Tokens.{skip_space, gettoken, peek}
use operating_systems.Shell.Words.{length-skip_space, gettoken-le, gettoken-peek}
use operating_systems.Shell.Parser.{
  Parse, Cmd, execcmd, parseredirs, parsebacks, parseline, parsepipe, parseexec, parseblock,
  no_leftovers, parsecmd,
}
use operating_systems.Shell.Loops.{
  Ensures, Ensures-bind, WellFormed, Simple, Leaves, Leaves-weaken, WellFormed-Redirects,
  Simple-Redirects, parseredirs_lem, parseargs_lem, parsebacks_lem,
}

-- The parser `p` is total on lines that its fuel is enough for, with `spare` over.
abbrev Parses : (List ℕ → Parse (Cmd × List ℕ)) → ℕ → ℕ → Type 0
Parses p spare fuel =
    (s : List ℕ) → 4 * length s + spare ≤ fuel → Ensures (Leaves WellFormed (length s)) (p s)

weaken :
    (m n : ℕ) (p : Parse (Cmd × List ℕ))
    → m ≤ n
    → Ensures (Leaves WellFormed m) p
    → Ensures (Leaves WellFormed n) p
weaken m n p le h = Leaves-weaken WellFormed WellFormed m n p (λ c g. g) le h

line_step :
    (fuel : ℕ)
    → Parses (parsepipe fuel) 3 fuel
    → Parses (parseline fuel) 4 fuel
    → Parses (parseline (suc fuel)) 4 (suc fuel)
unfolding parseline WellFormed
line_step fuel pipe line s enough =
    Ensures-bind (Leaves WellFormed (length s)) _ (parsepipe fuel s) _ (pipe s (omega arith))
      (λ (c, s1) (h, le).
        Ensures-bind (Leaves WellFormed (length s1)) _ (parsebacks (suc (length s1)) c s1) _
          (parsebacks_lem (suc (length s1)) c s1 (omega arith) h)
          (λ (cmd, s2) (g, le2). elim (Bool-cases (peek s2 (b';' ∷ []))) [
            | inr n ↦ rw (n) (g, let le3 = length-skip_space s2 in omega arith)
            | inl y ↦
                let less = gettoken-peek s2 _ y in
                rw (y) (
                  Ensures-bind (Leaves WellFormed (length (gettoken s2).rest)) _
                    (parseline fuel (gettoken s2).rest) _ (line _ (omega arith))
                    (λ (right, s3) (r, le3). ((g, r), omega arith)))
          ]))

pipe_step :
    (fuel : ℕ)
    → Parses (parseexec fuel) 2 fuel
    → Parses (parsepipe fuel) 3 fuel
    → Parses (parsepipe (suc fuel)) 3 (suc fuel)
unfolding parsepipe WellFormed
pipe_step fuel exec pipe s enough =
    Ensures-bind (Leaves WellFormed (length s)) _ (parseexec fuel s) _ (exec s (omega arith))
      (λ (cmd, s1) (h, le). elim (Bool-cases (peek s1 (b'|' ∷ []))) [
        | inr n ↦ rw (n) (h, let le3 = length-skip_space s1 in omega arith)
        | inl y ↦
            let less = gettoken-peek s1 _ y in
            rw (y) (
              Ensures-bind (Leaves WellFormed (length (gettoken s1).rest)) _
                (parsepipe fuel (gettoken s1).rest) _ (pipe _ (omega arith))
                (λ (right, s2) (r, le2). ((h, r), omega arith)))
      ])

exec_step :
    (fuel : ℕ) → Parses (parseblock fuel) 1 fuel → Parses (parseexec (suc fuel)) 2 (suc fuel)
unfolding parseexec Simple
exec_step fuel block s enough = elim (Bool-cases (peek s (b'(' ∷ []))) [
  | inl y ↦ rw (y) (block s (omega arith))
  | inr n ↦ rw (n) (
      Ensures-bind (Leaves (Simple 0) (length s)) _ (parseredirs (suc (length s)) (execcmd []) s) _
        (parseredirs_lem (Simple 0) (Simple-Redirects 0) (suc (length s)) (execcmd []) s
          (omega arith) (refl, tt))
        (λ (ret, s1) (h, le).
          weaken (length s1) (length s) _ le
            (parseargs_lem (suc (length s1)) 0 ret s1 (omega arith) (omega arith) h)))
]

block_step :
    (fuel : ℕ) → Parses (parseline fuel) 4 fuel → Parses (parseblock (suc fuel)) 1 (suc fuel)
unfolding parseblock
block_step fuel line s enough = elim (Bool-cases (peek s (b'(' ∷ []))) [
  | inr n ↦ rw (n) tt
  | inl y ↦
      let less = gettoken-peek s _ y in
      rw (y) (
        Ensures-bind (Leaves WellFormed (length (gettoken s).rest)) _
          (parseline fuel (gettoken s).rest) _ (line _ (omega arith))
          (λ (cmd, s1) (h, le). elim (Bool-cases (peek s1 (b')' ∷ []))) [
            | inr m ↦ rw (m) tt
            | inl z ↦
                let le2 = gettoken-le s1 in
                rw (z) (
                  weaken _ _ _ (omega arith) (
                    parseredirs_lem WellFormed WellFormed-Redirects (suc (length s1)) cmd
                      (gettoken s1).rest (omega arith) h))
          ]))
]

parses :
    (fuel : ℕ)
    → Parses (parseline fuel) 4 fuel
      × Parses (parsepipe fuel) 3 fuel
      × Parses (parseexec fuel) 2 fuel
      × Parses (parseblock fuel) 1 fuel
parses zero = (
  (λ s e. absurd (omega arith)),
  (λ s e. absurd (omega arith)),
  (λ s e. absurd (omega arith)),
  λ s e. absurd (omega arith),
)
parses (suc fuel) =
    let (line, pipe, exec, block) = parses fuel in
    (line_step fuel pipe line, pipe_step fuel exec pipe, exec_step fuel block, block_step fuel line)

no_leftovers_lem :
    (cmd : Cmd) (s : List ℕ) → WellFormed cmd → Ensures WellFormed (no_leftovers cmd s)
no_leftovers_lem cmd [] h = h
no_leftovers_lem cmd (c ∷ cs) h = tt

-- `parsecmd` does not recurse for ever: each line is refused by a panic or gives a command, in which
-- every simple command has less than MAXARGS words, every word is not empty and without white space
-- and symbols, and every redirection opens a word as standard input or output.
pub parsecmd_lem : (s : List ℕ) → Ensures WellFormed (parsecmd s)
unfolding parsecmd
parsecmd_lem s =
    let (line, pipe, exec, block) = parses (4 * length s + 4) in
    Ensures-bind (Leaves WellFormed (length s)) WellFormed (parseline (4 * length s + 4) s) _
      (line s (omega arith)) (λ (cmd, s1) (h, le). no_leftovers_lem cmd (skip_space s1) h)

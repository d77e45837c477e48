-- ===== src/Shell/Loops.antt =====
-- The loops of the parser of HW3/sh.c: they end, and what they make of a command.
use operating_systems.Base.{
  ℕ, zero, suc, ◌+◌, ◌<◌, ◌≤◌, ◌≡◌, ◌⊎◌, inl, inr, refl, ◌∙◌, leb, Bool-cases, List, [], ◌∷◌, ◌++◌,
  All, length, length-append, arith, ◌==◌,
}
use operating_systems.Shell.Tokens.{gettoken, peek}
use operating_systems.Shell.Words.{
  IsWord, length-skip_space, gettoken-le, gettoken-peek, gettoken-IsWord, gettoken-kind,
}
use operating_systems.Shell.Parser.{
  Parse, ok, panics, out_of_fuel, ◌>>=◌, Cmd, execcmd, redircmd, pipecmd, listcmd, backcmd, add_arg,
  redirect, parseredirs, parseargs, parsebacks,
}

-- The parse did not run out of fuel, and what it returned satisfies `P`.
abbrev pub Ensures : {A : Type 0} → (A → Type 0) → Parse A → Type 0
Ensures P (ok a) = P a
Ensures P panics = Unit
Ensures P out_of_fuel = ⊥

pub Ensures-bind :
    {A B : Type 0} (P : A → Type 0) (Q : B → Type 0) (p : Parse A) (f : A → Parse B)
    → Ensures P p
    → ((a : A) → P a → Ensures Q (f a))
    → Ensures Q (p >>= f)
Ensures-bind P Q (ok a) f h next = next a h
Ensures-bind P Q panics f h next = tt
Ensures-bind P Q out_of_fuel f h next = absurd h

-- A file to read opened as the standard input, or one to write as the standard output.
abbrev pub IsRedirect : List ℕ → ℕ → ℕ → Type 0
IsRedirect file mode fd = IsWord file × (((mode ≡ 0) × (fd ≡ 0)) ⊎ ((mode ≡ 0x201) × (fd ≡ 1)))

-- Each simple command has less than MAXARGS words, and words and redirections are proper.
unfoldable pub WellFormed : Cmd → Type 0
WellFormed (execcmd argv) = (length argv < 10) × All IsWord argv
WellFormed (redircmd c file mode fd) = WellFormed c × IsRedirect file mode fd
WellFormed (pipecmd l r) = WellFormed l × WellFormed r
WellFormed (listcmd l r) = WellFormed l × WellFormed r
WellFormed (backcmd c) = WellFormed c

-- A simple command of `argc` words within redirections.
unfoldable pub Simple : ℕ → Cmd → Type 0
Simple argc (execcmd argv) = (length argv ≡ argc) × All IsWord argv
Simple argc (redircmd c file mode fd) = Simple argc c × IsRedirect file mode fd
Simple argc (pipecmd l r) = ⊥
Simple argc (listcmd l r) = ⊥
Simple argc (backcmd c) = ⊥

pub Simple-WellFormed : (argc : ℕ) (c : Cmd) → argc < 10 → Simple argc c → WellFormed c
unfolding Simple WellFormed
Simple-WellFormed argc (execcmd argv) lt (n, all) = (omega arith, all)
Simple-WellFormed argc (redircmd c file mode fd) lt (s, r) = (Simple-WellFormed argc c lt s, r)
Simple-WellFormed argc (pipecmd l r) lt s = absurd s
Simple-WellFormed argc (listcmd l r) lt s = absurd s
Simple-WellFormed argc (backcmd c) lt s = absurd s

All-snoc :
    (ws : List (List ℕ)) (w : List ℕ) → All IsWord ws → IsWord w → All IsWord (ws ++ (w ∷ []))
All-snoc [] w all h = (h, tt)
All-snoc (v ∷ ws) w (g, all) h = (g, All-snoc ws w all h)

Simple-add_arg :
    (argc : ℕ) (c : Cmd) (w : List ℕ) → Simple argc c → IsWord w → Simple (argc + 1) (add_arg c w)
unfolding Simple add_arg
Simple-add_arg argc (execcmd argv) w (n, all) h =
    (length-append argv (w ∷ []) ∙ ground arith, All-snoc argv w all h)
Simple-add_arg argc (redircmd c file mode fd) w (s, r) h = (Simple-add_arg argc c w s h, r)
Simple-add_arg argc (pipecmd l r) w s h = absurd s
Simple-add_arg argc (listcmd l r) w s h = absurd s
Simple-add_arg argc (backcmd c) w s h = absurd s

-- The command satisfies `P`, and what is left of the line is no longer than `n`.
abbrev pub Leaves : (Cmd → Type 0) → ℕ → Cmd × List ℕ → Type 0
Leaves P n (c, rest) = P c × (length rest ≤ n)

-- `P` holds of a command that gets a redirection.
abbrev pub Redirects : (Cmd → Type 0) → Type 0
Redirects P = (c : Cmd) (file : List ℕ) (tok : ℕ) → P c → IsWord file → P (redirect tok c file)

pub WellFormed-Redirects : Redirects WellFormed
unfolding WellFormed
WellFormed-Redirects c file tok h w = elim (Bool-cases (tok == b'<')) [
  | inl y ↦ rw (y) (h, (w, inl (refl, refl)))
  | inr n ↦ rw (n) (h, (w, inr (refl, refl)))
]

pub Simple-Redirects : (argc : ℕ) → Redirects (Simple argc)
unfolding Simple
Simple-Redirects argc c file tok h w = elim (Bool-cases (tok == b'<')) [
  | inl y ↦ rw (y) (h, (w, inl (refl, refl)))
  | inr n ↦ rw (n) (h, (w, inr (refl, refl)))
]

pub Leaves-weaken :
    (P Q : Cmd → Type 0) (m n : ℕ) (p : Parse (Cmd × List ℕ))
    → ((c : Cmd) → P c → Q c)
    → m ≤ n
    → Ensures (Leaves P m) p
    → Ensures (Leaves Q n) p
Leaves-weaken P Q m n (ok (c, rest)) f le (h, l) = (f c h, omega arith)
Leaves-weaken P Q m n panics f le h = tt
Leaves-weaken P Q m n out_of_fuel f le h = h

pub parseredirs_lem :
    (P : Cmd → Type 0)
    → Redirects P
    → (fuel : ℕ) (cmd : Cmd) (s : List ℕ) → length s < fuel
    → P cmd
    → Ensures (Leaves P (length s)) (parseredirs fuel cmd s)
unfolding parseredirs
parseredirs_lem P re zero cmd s enough h = absurd (omega arith)
parseredirs_lem P re (suc fuel) cmd s enough h = elim (Bool-cases (peek s (b'<' ∷ b'>' ∷ []))) [
  | inr n ↦ rw (n) (h, length-skip_space s)
  | inl y ↦
      let less = gettoken-peek s _ y in
      let le = gettoken-le (gettoken s).rest in
      elim (Bool-cases ((gettoken (gettoken s).rest).kind == b'a')) [
        | inr n ↦ rw (y, n) tt
        | inl a ↦
            rw (y, a)
              (Leaves-weaken P P _ _ _ (λ c g. g) (omega arith)
                (parseredirs_lem P re fuel _ _ (omega arith)
                  (re cmd _ _ h (gettoken-IsWord (gettoken s).rest (ground arith)))))
      ]
]

pub parseargs_lem :
    (fuel argc : ℕ) (ret : Cmd) (s : List ℕ)
    → length s < fuel
    → argc < 10
    → Simple argc ret
    → Ensures (Leaves WellFormed (length s)) (parseargs fuel argc ret s)
unfolding parseargs
parseargs_lem zero argc ret s enough few h = absurd (omega arith)
parseargs_lem (suc fuel) argc ret s enough few h =
    elim (Bool-cases (peek s (b'|' ∷ b')' ∷ b'&' ∷ b';' ∷ []))) [
      | inl y ↦ rw (y) (Simple-WellFormed argc ret few h, length-skip_space s)
      | inr n ↦ elim (Bool-cases ((gettoken s).kind == 0)) [
        | inl z ↦ rw (n, z) (Simple-WellFormed argc ret few h, gettoken-le s)
        | inr z ↦ elim (Bool-cases ((gettoken s).kind == b'a')) [
          | inr a ↦ rw (n, z, a) tt
          | inl a ↦ elim (Bool-cases (leb 10 (argc + 1))) [
            | inl b ↦ rw (n, z, a, b) tt
            | inr b ↦
                let less = gettoken-kind s (ground arith) in
                rw (n, z, a, b)
                  (Ensures-bind (Leaves (Simple (argc + 1)) (length (gettoken s).rest)) _ _ _
                    (parseredirs_lem (Simple (argc + 1)) (Simple-Redirects (argc + 1)) (suc fuel) _
                      _ (omega arith)
                      (Simple-add_arg argc ret _ h (gettoken-IsWord s (ground arith))))
                    (λ (c, rest) (g, le).
                      Leaves-weaken WellFormed WellFormed _ _ _ (λ c g. g) (omega arith)
                        (parseargs_lem fuel (argc + 1) c rest (omega arith) (ground arith) g)))
          ]
        ]
      ]
    ]

pub parsebacks_lem :
    (fuel : ℕ) (cmd : Cmd) (s : List ℕ)
    → length s < fuel
    → WellFormed cmd
    → Ensures (Leaves WellFormed (length s)) (parsebacks fuel cmd s)
unfolding parsebacks WellFormed
parsebacks_lem zero cmd s enough h = absurd (omega arith)
parsebacks_lem (suc fuel) cmd s enough h = elim (Bool-cases (peek s (b'&' ∷ []))) [
  | inr n ↦ rw (n) (h, length-skip_space s)
  | inl y ↦
      let less = gettoken-peek s _ y in
      rw (y) (
        Leaves-weaken WellFormed WellFormed _ _ _ (λ c g. g) (omega arith)
          (parsebacks_lem fuel (backcmd cmd) (gettoken s).rest (omega arith) h))
]

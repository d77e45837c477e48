-- ===== src/Shell/RoundTrip.antt =====
-- The parser of HW3/sh.c on commands written out, and the fuel that it takes.
use operating_systems.Base.{
  ℕ, suc, ◌+◌, ◌*◌, ◌≤◌, ◌≡◌, subst, ◌-◌, refl, List, [], ◌∷◌, ◌++◌, length, length-append, arith,
  ◌==◌, if◌then◌else◌,
}
use Prim.Native.Nat.{max}
use operating_systems.Shell.Tokens.{skip_space}
use operating_systems.Shell.Parser.{ok, Cmd, execcmd, redircmd, pipecmd, listcmd, backcmd, parsecmd}
use operating_systems.Shell.Loops.{WellFormed}
use operating_systems.Shell.Print.{print_args, print}
use operating_systems.Shell.Brackets.{Reads}
use operating_systems.Shell.Commands.{
  execcmd-print, redircmd-print, pipecmd-print, listcmd-print, backcmd-print,
}

-- How deep the calls go that read the command.
unfoldable depth : Cmd → ℕ
depth (execcmd argv) = 0
depth (redircmd c file mode fd) = 5 + depth c
depth (pipecmd l r) = 5 + max (depth l) (depth r)
depth (listcmd l r) = 5 + max (depth l) (depth r)
depth (backcmd c) = 5 + depth c

all_read : (c : Cmd) (n : ℕ) → WellFormed c → depth c + 4 ≤ n → Reads n c
unfolding WellFormed depth
all_read (execcmd argv) n (few, all) enough =
    subst (λ k. Reads k (execcmd argv)) (omega arith) (execcmd-print (n - 3) argv few all)
all_read (redircmd c file mode fd) n (w, r) enough =
    subst (λ k. Reads k (redircmd c file mode fd)) (omega arith)
      (redircmd-print (n - 4) c file mode fd w r (all_read c (n - 4) w (omega arith)))
all_read (pipecmd l r) n (wl, wr) enough =
    subst (λ k. Reads k (pipecmd l r)) (omega arith)
      (pipecmd-print (n - 5) l r wl wr (all_read l (suc (n - 5)) wl (omega arith))
        (all_read r (n - 5) wr (omega arith)))
all_read (listcmd l r) n (wl, wr) enough =
    subst (λ k. Reads k (listcmd l r)) (omega arith)
      (listcmd-print (n - 5) l r wl wr (all_read l (suc (n - 5)) wl (omega arith))
        (all_read r (n - 5) wr (omega arith)))
all_read (backcmd c) n w enough =
    subst (λ k. Reads k (backcmd c)) (omega arith)
      (backcmd-print (n - 4) c w (all_read c (n - 4) w (omega arith)))

-- The line is long enough for its depth.
depth-print : (c : Cmd) (t : List ℕ) → depth c + 4 * length t ≤ 4 * length (print c t)
unfolding depth print
depth-print (execcmd argv) t = let le = args_longer argv t in omega arith
  where
    args_longer : (ws : List (List ℕ)) (t : List ℕ) → length t ≤ length (print_args ws t)
    args_longer [] t = omega arith
    args_longer (w ∷ ws) t =
        let ih = args_longer ws t in
        let whole : length (w ++ (32 ∷ print_args ws t))
            ≡ length w + suc (length (print_args ws t)) =
          length-append w (32 ∷ print_args ws t) in
        omega arith
depth-print (redircmd c file mode fd) t =
    let whole : length (file ++ (32 ∷ t)) ≡ length file + suc (length t) =
      length-append file (32 ∷ t) in
    let ih = depth-print c (b')' ∷ (if mode == 0 then b'<' else b'>') ∷ (file ++ (32 ∷ t))) in
    omega arith
depth-print (pipecmd l r) t =
    let left = depth-print l (b')' ∷ b'|' ∷ b'(' ∷ print r (b')' ∷ t)) in
    let right = depth-print r (b')' ∷ t) in omega arith
depth-print (listcmd l r) t =
    let left = depth-print l (b')' ∷ b';' ∷ b'(' ∷ print r (b')' ∷ t)) in
    let right = depth-print r (b')' ∷ t) in omega arith
depth-print (backcmd c) t = let ih = depth-print c (b')' ∷ b'&' ∷ t) in omega arith

-- `parsecmd` reads back every well-formed command from the line that `print` writes for it, in which
-- each part of a command stands in brackets.
pub parsecmd-print : (c : Cmd) → WellFormed c → parsecmd (print c []) ≡ ok c
unfolding parsecmd skip_space
parsecmd-print c w =
    let enough : depth c + 4 * 0 ≤ 4 * length (print c []) = depth-print c [] in
    rw (all_read c (4 * length (print c []) + 4) w (omega arith) [] tt) refl

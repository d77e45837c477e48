-- ===== src/Shell/Parser.antt =====
-- HW3/sh.c: the parser of command lines, from the bytes of the line. Its `malloc` does not fail.
use operating_systems.Base.{
  ℕ, zero, suc, ◌+◌, ◌*◌, not, List, [], ◌∷◌, ◌++◌, leb, ◌==◌, if◌then◌else◌, length,
}
use operating_systems.Shell.Tokens.{skip_space, gettoken, peek}

-- The outcome of a parse. `panics` prints a message and ends the child.
pub data Parse (A : Type 0) : Type 0 where
  ok : A → Parse A
  panics out_of_fuel : Parse A

infixl 5 ◌>>=◌
abbrev pub ◌>>=◌ : {A B : Type 0} → Parse A → (A → Parse B) → Parse B
ok a >>= f = f a
panics >>= f = panics
out_of_fuel >>= f = out_of_fuel

-- `struct cmd` and its kinds. A word is the bytes from `q` to `eq`; `argv` ends with its length.
pub data Cmd : Type 0 where
  execcmd : List (List ℕ) → Cmd
  redircmd : Cmd → List ℕ → ℕ → ℕ → Cmd
  pipecmd : Cmd → Cmd → Cmd
  listcmd : Cmd → Cmd → Cmd
  backcmd : Cmd → Cmd

-- MAXARGS
abbrev pub max_args : ℕ
max_args = 10

-- O_RDONLY, and O_WRONLY|O_CREATE
abbrev pub o_rdonly : ℕ
o_rdonly = 0

abbrev pub o_wronly_create : ℕ
o_wronly_create = 0x201

-- `cmd->argv[argc] = q`, where `cmd` is the `execcmd` inside of the redirections of `ret`.
unfoldable pub add_arg : Cmd → List ℕ → Cmd
add_arg (execcmd argv) w = execcmd (argv ++ (w ∷ []))
add_arg (redircmd c file mode fd) w = redircmd (add_arg c w) file mode fd
add_arg (pipecmd l r) w = pipecmd l r
add_arg (listcmd l r) w = listcmd l r
add_arg (backcmd c) w = backcmd c

-- The `switch` of `parseredirs`.
abbrev pub redirect : ℕ → Cmd → List ℕ → Cmd
redirect tok cmd file =
    if tok == b'<' then redircmd cmd file o_rdonly 0 else redircmd cmd file o_wronly_create 1

-- The loop of `parseredirs`.
unfoldable pub parseredirs : ℕ → Cmd → List ℕ → Parse (Cmd × List ℕ)
parseredirs zero cmd s = out_of_fuel
parseredirs (suc fuel) cmd s =
    let tok = gettoken s in
    let file = gettoken tok.rest in
    let more = parseredirs fuel (redirect tok.kind cmd file.text) file.rest in
    if peek s (b'<' ∷ b'>' ∷ [])
    then (if not (file.kind == b'a') then panics else more)
    else ok (cmd, skip_space s)

-- The loop of `parseexec`.
unfoldable pub parseargs : ℕ → ℕ → Cmd → List ℕ → Parse (Cmd × List ℕ)
parseargs zero argc ret s = out_of_fuel
parseargs (suc fuel) argc ret s =
    let tok = gettoken s in
    let more = parseredirs (suc fuel) (add_arg ret tok.text) tok.rest >>= λ (ret', s').
    parseargs fuel (argc + 1) ret' s' in
    if peek s (b'|' ∷ b')' ∷ b'&' ∷ b';' ∷ [])
    then ok (ret, skip_space s)
    else if tok.kind == 0
    then ok (ret, tok.rest)
    else if not (tok.kind == b'a')
    then panics
    else if leb max_args (argc + 1)
    then panics
    else more

-- `while(peek(ps, es, "&"))` of `parseline`.
unfoldable pub parsebacks : ℕ → Cmd → List ℕ → Parse (Cmd × List ℕ)
parsebacks zero cmd s = out_of_fuel
parsebacks (suc fuel) cmd s =
    let more = parsebacks fuel (backcmd cmd) (gettoken s).rest in
    if peek s (b'&' ∷ []) then more else ok (cmd, skip_space s)

-- The fuel bounds the depth of the calls.
unfoldable mutual
  pub parseline : ℕ → List ℕ → Parse (Cmd × List ℕ)
  parseline zero s = out_of_fuel
  parseline (suc fuel) s = parsepipe fuel s >>= λ (c, s1).
      parsebacks (suc (length s1)) c s1 >>= λ (cmd, s2).
      let more = parseline fuel (gettoken s2).rest >>= λ (right, s3). ok (listcmd cmd right, s3) in
      if peek s2 (b';' ∷ []) then more else ok (cmd, skip_space s2)

  pub parsepipe : ℕ → List ℕ → Parse (Cmd × List ℕ)
  parsepipe zero s = out_of_fuel
  parsepipe (suc fuel) s = parseexec fuel s >>= λ (cmd, s1).
      let more = parsepipe fuel (gettoken s1).rest >>= λ (right, s2). ok (pipecmd cmd right, s2) in
      if peek s1 (b'|' ∷ []) then more else ok (cmd, skip_space s1)

  pub parseexec : ℕ → List ℕ → Parse (Cmd × List ℕ)
  parseexec zero s = out_of_fuel
  parseexec (suc fuel) s =
      let block = parseblock fuel s in
      let args = parseredirs (suc (length s)) (execcmd []) s >>= λ (ret, s1).
      parseargs (suc (length s1)) 0 ret s1 in
      if peek s (b'(' ∷ []) then block else args

  pub parseblock : ℕ → List ℕ → Parse (Cmd × List ℕ)
  parseblock zero s = out_of_fuel
  parseblock (suc fuel) s =
      let inside = parseline fuel (gettoken s).rest >>= λ (cmd, s1).
      (if not (peek s1 (b')' ∷ []))
        then panics
        else parseredirs (suc (length s1)) cmd (gettoken s1).rest) in
      if not (peek s (b'(' ∷ [])) then panics else inside

-- What is left of the line must be white space.
abbrev pub no_leftovers : Cmd → List ℕ → Parse Cmd
no_leftovers cmd [] = ok cmd
no_leftovers cmd (c ∷ cs) = panics

-- `parsecmd` up to the call of `nulterminate`. A call of a smaller line is four calls deeper.
unfoldable pub parsecmd : List ℕ → Parse Cmd
parsecmd s = parseline (4 * length s + 4) s >>= λ (cmd, s1). no_leftovers cmd (skip_space s1)

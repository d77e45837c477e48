-- ===== src/Fd/Counts.antt =====
-- The descriptors of HW3/sysfile.c hold their files: the calls keep the counts of the file table.
use operating_systems.Base.{
  ℕ, zero, suc, ◌+◌, ◌<◌, ◌^◌, ◌≡◌, ◌≢◌, ◌||◌, ◌⊎◌, inl, inr, refl, sym, ap, subst, ◌∙◌, true,
  Bool-cases, Option-cases, List, [], ◌∷◌, Option, none, some, ◌>>=◌, get_elem?, set, find_index,
  find_index-some, find_index-first, find_index-none, false, leb, ◌==◌, arith,
}
use mathlib.Core.Bool.{true≢false}
use operating_systems.Base.Int.{ℤ, pos, negsuc}
use operating_systems.File.Table.{File, filedup, Closing, still_open, closing}
use operating_systems.File.Holders.{
  count, count-drop_one_self, count-drop_one_other, drop_one, Counted, filedup_lem, fileclose_lem,
}
use operating_systems.Fd.Calls.{
  nofile, open_file, argfd, is_closed, fdalloc, dup_file, sys_dup, sys_close,
}

-- The files that are open in a process, behind the references `others` that others hold.
abbrev pub files : List (Option ℕ) → List ℕ → List ℕ
files [] others = others
files (none ∷ os) others = files os others
files (some f ∷ os) others = f ∷ files os others

-- The counts of the table are the references of the process and of the others, and what is referred
-- to is in the table.
pub record Held (fs : List File) (ofile : List (Option ℕ)) (others : List ℕ) : Type 0 where
  pub counted : Counted fs (files ofile others)
  pub known :
      (fd f : ℕ) → get_elem? ofile fd ≡ some (some f) → (file : File) × (get_elem? fs f ≡ some file)

count-open :
    (ofile : List (Option ℕ)) (others : List ℕ) (fd f : ℕ)
    → get_elem? ofile fd ≡ some (some f)
    → 0 < count f (files ofile others)
count-open [] others fd f e = absurd (cc)
count-open (none ∷ os) others zero f e = absurd (cc)
count-open (some g ∷ os) others zero f e = let q : g ≡ f = cc in ground arith
count-open (none ∷ os) others (suc fd) f e = count-open os others fd f e
count-open (some g ∷ os) others (suc fd) f e = let p = count-open os others fd f e in ground arith

-- One more reference, at a descriptor that was free.
count-set :
    (ofile : List (Option ℕ)) (others : List ℕ) (fd f j : ℕ)
    → get_elem? ofile fd ≡ some none
    → count j (files (set ofile fd (some f)) others) ≡ count j (f ∷ files ofile others)
count-set [] others fd f j e = absurd (cc)
count-set (none ∷ os) others zero f j e = refl
count-set (some g ∷ os) others zero f j e = absurd (cc)
count-set (none ∷ os) others (suc fd) f j e = count-set os others fd f j e
count-set (some g ∷ os) others (suc fd) f j e =
    let h = count-set os others fd f j e in rw (h) (ground arith)

-- One less, at a descriptor that was open.
count-clear :
    (ofile : List (Option ℕ)) (others : List ℕ) (fd f j : ℕ)
    → get_elem? ofile fd ≡ some (some f)
    → count j (files (set ofile fd none) others) ≡ count j (drop_one f (files ofile others))
count-clear [] others fd f j e = absurd (cc)
count-clear (none ∷ os) others zero f j e = absurd (cc)
count-clear (some g ∷ os) others zero f j e =
    let q : g ≡ f = cc in let self : (g == f) ≡ true = ground arith in rw (self) refl
count-clear (none ∷ os) others (suc fd) f j e = count-clear os others fd f j e
count-clear (some g ∷ os) others (suc fd) f j e =
    let h = count-clear os others fd f j e in
    elim (Bool-cases (g == f)) [
      | inr n ↦ rw (n, h) (ground arith)
      | inl y ↦
          let same : g ≡ f = ground arith in
          elim (Bool-cases (g == j)) [
            | inl z ↦
                let is : j ≡ f = ground arith in
                rw (y, z, h)
                  (subst
                    (λ i. count i (drop_one f (files os others)) + 1 ≡ count i (files os others))
                    (sym is)
                    (count-drop_one_self f (files os others) (count-open os others fd f e)))
            | inr z ↦
                rw (y, z, h)
                  (count-drop_one_other f j (files os others) (λ q. absurd (ground arith)))
          ]
    ]

open_file-some : (o : Option (Option ℕ)) (f : ℕ) → open_file o ≡ some f → o ≡ some (some f)
open_file-some none f e = absurd (cc)
open_file-some (some none) f e = absurd (cc)
open_file-some (some (some g)) f e = ap some e

-- What `argfd` gives is open in the process.
argfd-open :
    (w f : ℕ) (ofile : List (Option ℕ)) → argfd w ofile ≡ some f → get_elem? ofile w ≡ some (some f)
unfolding argfd
argfd-open w f ofile e = elim (Bool-cases (leb (2 ^ 31) w || leb 16 w)) [
  | inl y ↦ absurd (let none_there : none ≡ some f = (rw (y) at e) in cc)
  | inr n ↦ open_file-some (get_elem? ofile w) f (rw (n) at e)
]

-- The argument is no descriptor that is open.
abbrev pub NotOpen : ℕ → List (Option ℕ) → Type 0
NotOpen w ofile = (f : ℕ) → w < nofile → get_elem? ofile w ≢ some (some f)

open_file-none : (o : Option (Option ℕ)) (f : ℕ) → open_file o ≡ none → o ≢ some (some f)
open_file-none none f e q = cc
open_file-none (some none) f e q = cc
open_file-none (some (some g)) f e q = cc

-- Where `argfd` fails the argument is not open, and what it gives is below NOFILE.
argfd-NotOpen : (w : ℕ) (ofile : List (Option ℕ)) → argfd w ofile ≡ none → NotOpen w ofile
unfolding argfd
argfd-NotOpen w ofile e f lt =
    let low : (leb (2 ^ 31) w || leb 16 w) ≡ false = ground arith in
    open_file-none (get_elem? ofile w) f (rw (low) at e)

argfd-lt : (w f : ℕ) (ofile : List (Option ℕ)) → argfd w ofile ≡ some f → w < nofile
unfolding argfd
argfd-lt w f ofile e = ground arith

is_closed-none : (o : Option ℕ) → is_closed o ≡ true → o ≡ none
is_closed-none none e = refl
is_closed-none (some f) e = absurd (true≢false (sym e))

-- What `sys_dup` answers: it does not panic; -1 where the argument is not open or no descriptor is free
-- leaves all as it was, and a descriptor is the first that was free, now open for the same file. The
-- counts are right in both cases.
abbrev pub DupsTo :
    ℕ → List File → List (Option ℕ) → List ℕ → Option (ℤ × List (Option ℕ) × List File) → Type 0
DupsTo w fs ofile others none = ⊥
DupsTo w fs ofile others (some (negsuc r, ofile', fs')) =
    (r ≡ 0)
    × (NotOpen w ofile ⊎ ((k : ℕ) → get_elem? ofile k ≢ some none))
    × (ofile' ≡ ofile)
    × (fs' ≡ fs)
DupsTo w fs ofile others (some (pos fd, ofile', fs')) =
    (f : ℕ) × (w < nofile)
    × (get_elem? ofile w ≡ some (some f))
    × (get_elem? ofile fd ≡ some none)
    × (ofile' ≡ set ofile fd (some f))
    × ((k : ℕ) → k < fd → get_elem? ofile k ≢ some none)
    × Counted fs' (files ofile' others)

module _ (w f : ℕ) (fs : List File) (ofile : List (Option ℕ)) (others : List ℕ)
    (h : Held fs ofile others) (below : w < nofile) (here : get_elem? ofile w ≡ some (some f)) where
  duplicated :
      (fd : ℕ)
      → find_index is_closed ofile ≡ some fd
      → DupsTo w fs ofile others (filedup f fs >>= λ fs'. some (pos fd, set ofile fd (some f), fs'))
  duplicated fd found =
      let (file, known) = h.known w f here in
      let (fs', e, counted) =
        filedup_lem fs (files ofile others) f file h.counted known
          (count-open ofile others w f here) in
      let (o, at_fd, unused) = find_index-some is_closed ofile fd found in
      let free : get_elem? ofile fd ≡ some none = at_fd ∙ ap some (is_closed-none o unused) in
      rw (e) (
        f,
        below,
        here,
        free,
        refl,
        (λ k lt q. true≢false (find_index-first is_closed ofile fd k none found lt q)),
        λ i g at_i. counted i g at_i ∙ sym (count-set ofile others fd f i free),
      )

  dup_open :
      (o : Option ℕ)
      → find_index is_closed ofile ≡ o
      → DupsTo w fs ofile others (dup_file ofile fs (some f))
  unfolding fdalloc
  dup_open none full =
      let e : fdalloc f ofile ≡ none = rw (full, fdalloc) refl in
      rw (e)
        (refl, inr (λ k q. true≢false (find_index-none is_closed ofile k none full q)), refl, refl)
  dup_open (some fd) found =
      let e : fdalloc f ofile ≡ some (fd, set ofile fd (some f)) = rw (found, fdalloc) refl in
      rw (e) (duplicated fd found)

-- `sys_dup` where the counts of the table of files are the references of the process and of the
-- others: it does not panic. It answers -1 and changes nothing, where the argument is no open descriptor
-- or none is free, or the first free descriptor, which is
-- open for the same file now, and counts the new reference.
pub sys_dup_lem :
    (w : ℕ) (fs : List File) (ofile : List (Option ℕ)) (others : List ℕ)
    → Held fs ofile others
    → DupsTo w fs ofile others (sys_dup w ofile fs)
unfolding sys_dup
sys_dup_lem w fs ofile others h = elim (Option-cases (argfd w ofile)) [
  | inl e ↦ rw (e) (refl, inl (argfd-NotOpen w ofile e), refl, refl)
  | inr (f, e) ↦ rw (e) (
      dup_open w f fs ofile others h (argfd-lt w f ofile e) (argfd-open w f ofile e)
        (find_index is_closed ofile) refl)
]

-- What `sys_close` answers: it does not panic; -1 where the argument is not open; 0 with the descriptor free and the reference counted
-- out, and what the file stands for released with the last one.
abbrev pub ClosesTo :
    ℕ
    → List File
    → List (Option ℕ)
    → List ℕ
    → Option (ℤ × Closing × List (Option ℕ) × List File)
    → Type 0
ClosesTo w fs ofile others none = ⊥
ClosesTo w fs ofile others (some (negsuc r, c, ofile', fs')) =
    (r ≡ 0) × NotOpen w ofile × (c ≡ still_open) × (ofile' ≡ ofile) × (fs' ≡ fs)
ClosesTo w fs ofile others (some (pos r, c, ofile', fs')) =
    (r ≡ 0)
    × (w < nofile)
    × (f : ℕ) × (file : File) × (get_elem? ofile w ≡ some (some f))
    × (get_elem? fs f ≡ some file)
    × (ofile' ≡ set ofile w none)
    × Counted fs' (files ofile' others)
    × (0 < count f (files ofile' others) → c ≡ still_open)
    × (count f (files ofile' others) ≡ 0 → c ≡ closing file)

-- `sys_close` under the same condition: it does not panic. It answers -1 and changes nothing where the
-- argument is no open descriptor; otherwise it answers 0, the descriptor is free, the reference is
-- counted out, and what the file stands for is released exactly when no other reference is left.
pub sys_close_lem :
    (w : ℕ) (fs : List File) (ofile : List (Option ℕ)) (others : List ℕ)
    → Held fs ofile others
    → ClosesTo w fs ofile others (sys_close w ofile fs)
unfolding sys_close
sys_close_lem w fs ofile others h = elim (Option-cases (argfd w ofile)) [
  | inl e ↦ rw (e) (refl, argfd-NotOpen w ofile e, refl, refl, refl)
  | inr (f, e) ↦
      let here = argfd-open w f ofile e in
      let (file, known) = h.known w f here in
      let (c, fs', closed, counted, still, last) =
        fileclose_lem fs (files ofile others) f file h.counted known
          (count-open ofile others w f here) in
      let same = count-clear ofile others w f in
      rw (e, closed)
        (
          refl,
          argfd-lt w f ofile e,
          f,
          file,
          here,
          known,
          refl,
          (λ i g at_i. counted i g at_i ∙ sym (same i here)),
          (λ p. still (let s = same f here in omega arith)),
          λ z. last (let s = same f here in omega arith),
        )
]

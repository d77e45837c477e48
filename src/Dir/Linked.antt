-- ===== src/Dir/Linked.antt =====
-- The whole of `dirlink` of HW3/fs.c, and `dirlookup` behind it.
use operating_systems.Base.{
  ℕ, ◌+◌, ◌-◌, ◌*◌, ◌/◌, ◌%◌, ◌<◌, ◌≤◌, ◌≡◌, ◌≢◌, inl, inr, refl, sym, ap, ap₂, subst, ◌∙◌, true,
  false, ◌||◌, Bool-cases, List, Option, none, some, ◌>>=◌, ltb, ◌==◌, if◌then◌else◌, arith,
}
use mathlib.Core.Bool.{true≢false}
use operating_systems.Base.Int.{ℤ, pos, negsuc}
use operating_systems.Str.{Bytes}
use operating_systems.Str.Move.{within}
use operating_systems.Blocks.Map.{Disk, Superblock}
use operating_systems.Inode.Cache.{Dinode, Inode}
use operating_systems.Inode.Owned.{owned, byte_at}
use operating_systems.Inode.Kept.{Foreign, Kept}
use operating_systems.Inode.Content.{iblock, writei}
use operating_systems.Inode.Files.{Wrote, WriteiSpec, writei_lem}
use operating_systems.Inode.Trunc.{iput}
use operating_systems.Dir.Entries.{
  entry_inum, no_write, find_empty, new_entry, link_new, link_end, dirlookup, dirlink,
}
use operating_systems.Dir.Lookup.{
  IsDir, IsDir-Kept, is_match, is_match_agree, test_agree, FirstMatch,
}
use operating_systems.Dir.Link.{new_entry_lem, EmptyAt, find_empty_lem}
use operating_systems.Dir.Found.{LooksUp, dirlookup_lem}

-- What a new entry for `name` with the number `inum` leaves: a directory in which `dirlookup` has the
-- entry to find, in a place that was not in use, and in which the other entries are as they were.
pub record HasEntry (sb : Superblock) (dp : Dinode) (d : Disk) (name : Bytes) (inum : ℕ)
    (dp' : Dinode) (d' : Disk) : Type 0 where
  pub off : ℕ
  pub dir : IsDir sb dp' d'
  pub unused : off < dp.size → entry_inum (λ i. byte_at dp d (off + i)) ≡ 0
  pub first : FirstMatch name (byte_at dp' d') 0 dp'.size (some (off, inum))
  pub others :
      (other : Bytes) (k : ℕ)
      → k % 16 ≡ 0
      → k ≢ off
      → k < 71680
      → is_match other (byte_at dp' d') k ≡ is_match other (byte_at dp d) k

module _ (sb : Superblock) (dnum : ℕ) (dp dp1 dp2 : Dinode) (d d1 d2 : Disk) (name : Bytes)
    (inum off : ℕ) (r : ℤ) (ok : IsDir sb dp d) (lt : inum < 65536) (nz : inum ≢ 0)
    (absent : FirstMatch name (byte_at dp d) 0 dp.size none) (le : off ≤ dp.size)
    (al : off % 16 ≡ 0) (unused : off < dp.size → entry_inum (λ i. byte_at dp d (off + i)) ≡ 0)
    (kept : Kept sb dp d dp1 d1) (top : off + 16 ≤ 71680)
    (w : Wrote sb dnum dp1 d1 off 16 (new_entry name inum) r dp2 d2) where
  size1 : dp1.size ≡ dp.size
  size1 = ap (λ (q : Dinode). q.size) kept.rest

  written : (i : ℕ) → i < 16 → byte_at dp2 d2 (off + i) ≡ new_entry name inum i
  written i l =
      let inside : within off 16 (off + i) ≡ true = ground arith in
      let place : off + i - off ≡ i = omega arith in
      w.bytes (off + i) (omega arith) ∙ rw (inside, place) refl

  others :
      (other : Bytes) (k : ℕ)
      → k % 16 ≡ 0
      → k ≢ off
      → k < 71680
      → is_match other (byte_at dp2 d2) k ≡ is_match other (byte_at dp d) k
  others other k m ne small = is_match_agree other (byte_at dp2 d2) (byte_at dp d) k (λ i l.
      let out : within off 16 (k + i) ≡ false = ground arith in
      w.bytes (k + i) (omega arith) ∙ rw (out) (kept.bytes (k + i) (omega arith)))

  hit : is_match name (byte_at dp2 d2) off ≡ true
  hit =
      sym (test_agree name (new_entry name inum) (byte_at dp2 d2) off (λ i l. sym (written i l)))
      ∙ new_entry_lem name inum lt nz

  number : inum ≡ entry_inum (λ i. byte_at dp2 d2 (off + i))
  number =
      (let e : inum ≡ entry_inum (new_entry name inum) = ground arith in e)
      ∙ ap₂ (λ a b. a + b * 256) (sym (written 0 (omega arith))) (sym (written 1 (omega arith)))

  linked-IsDir : IsDir sb dp2 d2
  linked-IsDir = record {
    sound = w.sound;
    kind = w.kind ∙ ap (λ (q : Dinode). q.kind) kept.rest ∙ ok.kind;
    whole = (let s = w.size in let s1 = size1 in let wh = ok.whole in omega arith);
    small = (let s = w.size in let s1 = size1 in let sm = ok.small in omega arith);
    full = λ p l. elim (Bool-cases (ltb p dp.size)) [
      | inl y ↦
          let sm = ok.small in
          let pl : p < 71680 = ground arith in
          let f = ok.full p (ground arith) in
          let f1 : owned dp1 d1 (p / 512) ≢ 0 =
            (λ z. f (sym (kept.grows (p / 512) (omega arith) f) ∙ z)) in
          λ z. f1 (sym (w.grows (p / 512) (omega arith) f1) ∙ z)
      | inr n ↦ w.no_hole p (ground arith) (let s = w.size in let s1 = size1 in ground arith)
    ];
  }

  pub has_entry : HasEntry sb dp d name inum dp2 d2
  has_entry = record {
    off = off;
    dir = linked-IsDir;
    unused = unused;
    first = (
      (omega arith),
      (let s = w.size in let s1 = size1 in omega arith),
      al,
      hit,
      number,
      λ k ge l m. others name k m (omega arith) (omega arith) ∙ absent k ge (omega arith) m,
    );
    others = others;
  }

-- What `dirlink` answers: 0 with the entry made where no entry had the name, -1 where one had it.
abbrev pub LinksTo :
    Superblock
    → Bytes
    → ℕ
    → List Inode
    → Dinode
    → Disk
    → Option (ℤ × List Inode × Dinode × Disk)
    → Type 0
LinksTo sb name inum ips dp d none = Unit
LinksTo sb name inum ips dp d (some (pos r, ips', dp', d')) =
    (r ≡ 0) × (ips' ≡ ips) × HasEntry sb dp d name inum dp' d'
LinksTo sb name inum ips dp d (some (negsuc r, ips', dp', d')) =
    (r ≡ 0) × (at : ℕ × ℕ) × FirstMatch name (byte_at dp d) 0 dp.size (some at)

-- `dirlink` behind its call of `writei`.
abbrev linked : List Inode → Option (ℤ × Dinode × Disk) → Option (ℤ × List Inode × Dinode × Disk)
linked ips o = o >>= λ (r, dp2, d2). elim r [
  | pos n ↦ if n == 16 then some (pos 0, ips, dp2, d2) else none
  | negsuc n ↦ none
]

module _ (sb : Superblock) (dnum : ℕ) (name : Bytes) (inum : ℕ) (ips : List Inode) (dp : Dinode)
    (d : Disk) (ok : IsDir sb dp d) (own : Foreign sb dp d (iblock sb dnum)) (lt : inum < 65536)
    (nz : inum ≢ 0) (absent : FirstMatch name (byte_at dp d) 0 dp.size none) where
  answer :
      (off : ℕ) (dp1 : Dinode) (d1 : Disk)
      → EmptyAt sb dp d 0 (some (off, dp1, d1))
      → (o : Option (ℤ × Dinode × Disk)) → WriteiSpec sb dnum dp1 d1 off 16 (new_entry name inum) o
      → LinksTo sb name inum ips dp d (linked ips o)
  answer off dp1 d1 (le, al, unused, kept) none spec = tt
  answer off dp1 d1 (le, al, unused, kept) (some (negsuc n, dp2, d2)) spec = tt
  answer off dp1 d1 (le, al, unused, kept) (some (pos n, dp2, d2)) spec =
      elim (Bool-cases (ltb dp1.size off || ltb 71680 (off + 16))) [
        | inl y ↦
            subst (λ o. LinksTo sb name inum ips dp d (linked ips o)) (sym (rw (y) at spec)) tt
        | inr y ↦
            let w : Wrote sb dnum dp1 d1 off 16 (new_entry name inum) (pos n) dp2 d2 =
              rw (y) at spec in
            elim (Bool-cases (n == 16)) [
              | inr m ↦ rw (m) tt
              | inl m ↦ rw (m) (
                refl,
                refl,
                has_entry sb dnum dp dp1 dp2 d d1 d2 name inum off (pos n) ok lt nz absent le al
                    unused kept (ground arith) w,
              )
            ]
      ]

  link_new_lem : LinksTo sb name inum ips dp d (link_new sb dnum name inum ips dp d)
  link_new_lem =
      empty (find_empty (dp.size + 1) sb 0 dp d)
        (find_empty_lem (dp.size + 1) sb 0 dp d ok (omega arith) (omega arith) (omega arith))
    where
      empty :
          (o : Option (ℕ × Dinode × Disk))
          → EmptyAt sb dp d 0 o
          → LinksTo sb name inum ips dp d (
              o >>= λ (off, dp1, d1).
              writei sb no_write dnum dp1 (new_entry name inum) off 16 d1 >>= λ (r, dp2, d2).
              elim r [
                | pos n ↦ if n == 16 then some (pos 0, ips, dp2, d2) else none
                | negsuc n ↦ none
              ])
      empty none h = absurd h
      empty (some (off, dp1, d1)) (le, al, unused, kept) =
          let (same, own') = kept.frame _ own in
          let (ok', size) = IsDir-Kept sb dp dp1 d d1 ok kept in
          answer off dp1 d1 (le, al, unused, kept) _
            (writei_lem sb no_write dnum dp1 (new_entry name inum) off 16 d1 kept.sound own'
              (let k = ok'.kind in omega arith) (let s = ok.small in omega arith) (omega arith))

-- The lookup before kept the directory, so it may be left out.
module _ (sb : Superblock) (name : Bytes) (inum : ℕ) (dp dp' : Dinode) (d d' : Disk)
    (ok : IsDir sb dp d) (kept : Kept sb dp d dp' d') (size : dp'.size ≡ dp.size) where
  same_match :
      (other : Bytes) (k : ℕ)
      → k % 16 ≡ 0
      → k < 71680
      → is_match other (byte_at dp' d') k ≡ is_match other (byte_at dp d) k
  same_match other k m lt =
      is_match_agree other (byte_at dp' d') (byte_at dp d) k
        (λ i l. kept.bytes (k + i) (omega arith))

  absent_after :
      FirstMatch name (byte_at dp d) 0 dp.size none
      → FirstMatch name (byte_at dp' d') 0 dp'.size none
  absent_after absent k ge lt m =
      let small = ok.small in same_match name k m (omega arith) ∙ absent k ge (omega arith) m

  HasEntry-before :
      (dp2 : Dinode) (d2 : Disk)
      → HasEntry sb dp' d' name inum dp2 d2
      → HasEntry sb dp d name inum dp2 d2
  HasEntry-before dp2 d2 h = record {
    off = h.off;
    dir = h.dir;
    unused = λ lt.
        (let small = ok.small in
          sym (
            ap₂ (λ x y. x + y * 256) (kept.bytes (h.off + 0) (omega arith))
              (kept.bytes (h.off + 1) (
                let (ge, l, al, found, num, before) = h.first in
                let whole = ok.whole in omega arith))))
        ∙ h.unused (omega arith);
    first = h.first;
    others = λ other k m ne lt. h.others other k m ne lt ∙ same_match other k m lt;
  }

  LinksTo-before :
      (ips ips' : List Inode)
      → ips' ≡ ips
      → (o : Option (ℤ × List Inode × Dinode × Disk))
      → FirstMatch name (byte_at dp d) 0 dp.size none
      → LinksTo sb name inum ips' dp' d' o
      → LinksTo sb name inum ips dp d o
  LinksTo-before ips ips' same none absent h = tt
  LinksTo-before ips ips' same (some (pos r, ips2, dp2, d2)) absent (z, is, entry) =
      (z, is ∙ same, HasEntry-before dp2 d2 entry)
  LinksTo-before ips ips' same (some (negsuc r, ips2, dp2, d2)) absent
        (z, (off, inum'), (ge, lt, m, found, num, before)) =
      absurd (true≢false (sym found ∙ absent_after absent off ge lt m))

-- In a sound directory without holes, whose inode's own block is in use and none of the directory's,
-- and for the number of an inode, not zero and of 16 bits: `dirlink` that answers 0 was given a name
-- that no entry had, and leaves a sound directory in which the first entry of the name has the number,
-- in a place that was not in use, and all other entries are as they were; it answers -1 only where an
-- entry has the name.
pub dirlink_lem :
    (sb : Superblock) (dev dnum : ℕ) (name : Bytes) (inum : ℕ) (ips : List Inode) (dp : Dinode)
    (d : Disk)
    → IsDir sb dp d
    → Foreign sb dp d (iblock sb dnum)
    → inum < 65536
    → inum ≢ 0
    → LinksTo sb name inum ips dp d (dirlink sb dev dnum name inum ips dp d)
unfolding dirlink
dirlink_lem sb dev dnum name inum ips dp d ok own lt nz =
    looked (dirlookup sb dev name ips dp d) (dirlookup_lem sb dev name ips dp d ok)
  where
    refused :
        (off inum' : ℕ) (dp' : Dinode)
        → FirstMatch name (byte_at dp d) 0 dp.size (some (off, inum'))
        → (o : Option (List Inode × Disk))
        → LinksTo sb name inum ips dp d (o >>= λ (ips', d'). some (negsuc 0, ips', dp', d'))
    refused off inum' dp' first none = tt
    refused off inum' dp' first (some (ips', d')) = (refl, (off, inum'), first)

    looked :
        (o : Option (Option (ℕ × ℕ) × List Inode × Dinode × Disk))
        → LooksUp sb dev name ips dp d o
        → LinksTo sb name inum ips dp d (o >>= link_end sb dnum name inum)
    looked none h = tt
    looked (some (some (i, off), ips', dp', d')) (inum', first, got, kept) =
        refused off inum' dp' first (iput sb i ips' d')
    looked (some (none, ips', dp', d')) (absent, same, kept) =
        let (ok', size) = IsDir-Kept sb dp dp' d d' ok kept in
        let (unchanged, own') = kept.frame _ own in
        LinksTo-before sb name inum dp dp' d d' ok kept size ips ips' same _ absent (
          link_new_lem sb dnum name inum ips' dp' d' ok' own' lt nz
            (absent_after sb name inum dp dp' d d' ok kept size absent))

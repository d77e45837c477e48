-- ===== src/Inode/Writes.antt =====
-- The loop of `writei` of HW3/fs.c puts bytes into the file.
use operating_systems.Base.{
  ℕ, zero, suc, ◌+◌, ◌-◌, ◌/◌, ◌%◌, ◌<◌, ◌≤◌, ◌≡◌, ◌≢◌, inl, inr, refl, sym, ap, ◌∙◌, true, false,
  Bool-cases, Option, some, none, ◌>>=◌, ltb, ◌==◌, if◌then◌else◌, arith,
}
use operating_systems.Str.{Bytes}
use operating_systems.Str.Move.{within}
use operating_systems.Log.Store.{put_at}
use operating_systems.Blocks.Map.{Disk, Superblock, bblock}
use operating_systems.Inode.Cache.{Dinode}
use operating_systems.Inode.Owned.{owned, byte_at, read_block, Sound}
use operating_systems.Inode.Kept.{Foreign, Kept, with_addrs}
use operating_systems.Inode.Bmap.{bmap}
use operating_systems.Inode.Mapped.{Mapped, bmap_lem}
use operating_systems.Inode.Change.{owned_change, Sound-change, byte_change, Foreign-change}
use operating_systems.Inode.Content.{copy_bytes, chunk, write_chunks}
use operating_systems.Inode.Reads.{Hole, Hole-before}

-- What a write of `n` bytes of `src` at `off` leaves: a sound inode, those bytes in the file and all
-- others as they were, and the blocks that are not the file's.
pub record Written (sb : Superblock) (ip : Dinode) (d : Disk) (off n : ℕ) (src : Bytes)
    (ip' : Dinode) (d' : Disk) : Type 0 where
  pub sound : Sound sb ip' d'
  pub bytes :
      (p : ℕ)
      → p < 71680
      → byte_at ip' d' p ≡ (if within off n p then src (p - off) else byte_at ip d p)
  pub grows : (k : ℕ) → k ≤ 140 → owned ip d k ≢ 0 → owned ip' d' k ≡ owned ip d k
  pub rest : ip' ≡ with_addrs ip'.addrs ip
  pub no_hole : (p : ℕ) → off ≤ p → p < off + n → owned ip' d' (p / 512) ≢ 0
  pub frame : (b : ℕ) → Foreign sb ip d b → (d' b ≡ d b) × Foreign sb ip' d' b

pub Written-none :
    (sb : Superblock) (ip : Dinode) (d : Disk) (off : ℕ) (src : Bytes)
    → off ≤ 71680
    → Sound sb ip d
    → Written sb ip d off 0 src ip d
Written-none sb ip d off src top ok = record {
  sound = ok;
  bytes = λ p lt. ground arith;
  grows = λ k le nz. refl;
  rest = refl;
  no_hole = λ p low high. absurd (omega arith);
  frame = λ b f. (refl, f);
}

Written-trans :
    (sb : Superblock) (ip ip' ip'' : Dinode) (d d' d'' : Disk) (off n m : ℕ) (src : Bytes)
    → m ≤ n
    → off + n ≤ 71680
    → Written sb ip d off m src ip' d'
    → Written sb ip' d' (off + m) (n - m) (λ i. src (m + i)) ip'' d''
    → Written sb ip d off n src ip'' d''
Written-trans sb ip ip' ip'' d d' d'' off n m src le top w w' = record {
  sound = w'.sound;
  bytes = λ p lt. w'.bytes p lt ∙ join p (byte_at ip' d' p) (byte_at ip d p) (w.bytes p lt);
  grows = λ i l nz. w'.grows i l (λ z. nz (sym (w.grows i l nz) ∙ z)) ∙ w.grows i l nz;
  rest = w'.rest ∙ ap (with_addrs ip''.addrs) w.rest;
  no_hole = λ p low high. elim (Bool-cases (ltb p (off + m))) [
    | inl y ↦
        let was = w.no_hole p low (ground arith) in
        λ z. was (sym (w'.grows (p / 512) (omega arith) was) ∙ z)
    | inr y ↦ w'.no_hole p (ground arith) (omega arith)
  ];
  frame = λ b f.
      let (same, f') = w.frame b f in let (same', f'') = w'.frame b f' in (same' ∙ same, f'');
}
  where
    join :
        (p x y : ℕ)
        → x ≡ (if within off m p then src (p - off) else y)
        → (if within (off + m) (n - m) p then src (m + (p - (off + m))) else x)
          ≡ (if within off n p then src (p - off) else y)
    join p x y e = elim (Bool-cases (within (off + m) (n - m) p)) [
      | inl a ↦
          let all : within off n p ≡ true = ground arith in
          let place : m + (p - (off + m)) ≡ p - off = ground arith in rw (a, all, place) refl
      | inr a ↦ let same : within off n p ≡ within off m p = ground arith in rw (a, same) e
    ]

module _ (sb : Superblock) (ip ip' : Dinode) (d d' : Disk) (off m a : ℕ) (src : Bytes)
    (inside : off % 512 + m ≤ 512) (top : off < 71680) (kept : Kept sb ip d ip' d') (nz : a ≢ 0)
    (is : owned ip' d' (off / 512) ≡ a) where
  some_block : owned ip' d' (off / 512) ≢ 0
  some_block z = nz (sym is ∙ z)

  no_map : (c : ℕ) → c < sb.size → a ≢ bblock sb c
  no_map c lt q = let s = kept.sound in s.off_map (off / 512) c (omega arith) some_block lt (is ∙ q)

  -- Another block of the file than the one at `off` has another address.
  other_block : (j : ℕ) → j ≤ 140 → j ≢ off / 512 → owned ip' d' j ≢ a
  other_block j le ne q =
      let s = kept.sound in ne (sym (s.once (off / 512) j (omega arith) le some_block (is ∙ sym q)))

  new_bytes :
      (p : ℕ)
      → p < 71680
      → read_block
          (owned ip' d' (p / 512))
          (put_at d' a (copy_bytes (off % 512) m src (d' a)))
          (p % 512)
        ≡ (if within off m p then src (p - off) else byte_at ip d p)
  new_bytes p lt = elim (Bool-cases (p / 512 == off / 512)) [
    | inl y ↦
        let block : p / 512 ≡ off / 512 = ground arith in
        let range : within (off % 512) m (p % 512) ≡ within off m p = ground arith in
        let self : (a == a) ≡ true = ground arith in
        let some_a : (a == 0) ≡ false = ground arith in
        let was : byte_at ip' d' p ≡ d' a (p % 512) = rw (block, is, some_a) refl in
        let place : within off m p ≡ true → p % 512 - off % 512 ≡ p - off = λ h. ground arith in
        ap (λ b. read_block b (put_at d' a (copy_bytes (off % 512) m src (d' a))) (p % 512))
          (ap (owned ip' d') block ∙ is)
        ∙ rw (some_a, self, range)
            (elim (Bool-cases (within off m p)) [
              | inl i ↦ rw (i, place i) refl
              | inr i ↦ rw (i) (sym was ∙ kept.bytes p lt)
            ])
    | inr n ↦
        let out : within off m p ≡ false = ground arith in
        let other : (owned ip' d' (p / 512) == a) ≡ false =
          (let ne = other_block (p / 512) (omega arith) (ground arith) in ground arith) in
        rw (out, other) (kept.bytes p lt)
  ]

  pub overwritten :
      Written sb ip d off m src ip' (put_at d' a (copy_bytes (off % 512) m src (d' a)))
  overwritten =
      let no_table : a ≢ owned ip' d' 140 =
        λ q. other_block 140 (omega arith) (omega arith) (sym q) in
      record {
        sound = Sound-change sb ip' d' a _ kept.sound no_map no_table;
        bytes = λ p lt. byte_change sb ip' d' a _ kept.sound no_map no_table p ∙ new_bytes p lt;
        grows =
            λ k le s. owned_change sb ip' d' a _ kept.sound no_map no_table k ∙ kept.grows k le s;
        rest = kept.rest;
        no_hole = λ p low high.
            let here : p / 512 ≡ off / 512 = omega arith in
            λ z. some_block (
              ap (owned ip' d') (sym here)
              ∙ sym (owned_change sb ip' d' a _ kept.sound no_map no_table (p / 512))
              ∙ z);
        frame = λ b f.
            let (same, f') = kept.frame b f in
            let ne : b ≢ a = λ q. f'.not_owned (off / 512) (omega arith) (q ∙ sym is) in
            let kept_block : put_at d' a (copy_bytes (off % 512) m src (d' a)) b ≡ d' b =
              ground arith in
            (kept_block ∙ same, Foreign-change sb ip' d' a _ kept.sound no_map no_table b f');
      }

-- What the loop of `writei` does; the panic is for a hole that no block was found for.
abbrev pub WritesTo : Superblock → Dinode → Disk → ℕ → ℕ → Bytes → Option (Dinode × Disk) → Type 0
WritesTo sb ip d off n src none = Hole ip d off n
WritesTo sb ip d off n src (some (ip', d')) = Written sb ip d off n src ip' d'

pub write_chunks_lem :
    (sb : Superblock) (fuel left off : ℕ) (src : Bytes) (ip : Dinode) (d : Disk)
    → Sound sb ip d
    → left ≤ fuel
    → off + left ≤ 71680
    → WritesTo sb ip d off left src (write_chunks sb fuel left off src ip d)
unfolding write_chunks
write_chunks_lem sb zero left off src ip d ok enough top =
    let none_left : left ≡ 0 = omega arith in
    rw (none_left) (Written-none sb ip d off src (omega arith) ok)
write_chunks_lem sb (suc fuel) left off src ip d ok enough top = elim (Bool-cases (left == 0)) [
  | inl z ↦
      let none_left : left ≡ 0 = ground arith in
      rw (none_left) (Written-none sb ip d off src (omega arith) ok)
  | inr nz ↦ rw (nz) (
      round (bmap sb (off / 512) ip d) (bmap_lem sb ip d (off / 512) ok (ground arith))
        (ground arith)
        (λ ip' d' ok'.
          write_chunks_lem sb fuel (left - chunk left off) (off + chunk left off)
            (λ i. src (chunk left off + i)) ip' d' ok' (ground arith) (ground arith)))
]
  where
    next : Dinode → Disk → Option (Dinode × Disk)
    next ip' d' =
        write_chunks sb fuel (left - chunk left off) (off + chunk left off)
          (λ i. src (chunk left off + i)) ip' d'

    more :
        (ip' : Dinode) (d' : Disk)
        → Written sb ip d off (chunk left off) src ip' d'
        → left ≢ 0
        → (o : Option (Dinode × Disk))
        → WritesTo sb ip' d'
            (off + chunk left off)
            (left - chunk left off)
            (λ i. src (chunk left off + i))
            o
        → WritesTo sb ip d off left src o
    more ip' d' w some_left none hole =
        Hole-before ip ip' d d' off left (chunk left off) top (ground arith) w.grows hole
    more ip' d' w some_left (some (ip'', d'')) w' =
        Written-trans sb ip ip' ip'' d d' d'' off left (chunk left off) src (ground arith) top w w'

    round :
        (o : Option (ℕ × Dinode × Disk))
        → Mapped sb ip d (off / 512) o
        → left ≢ 0
        → ((ip' : Dinode) (d' : Disk)
            → Sound sb ip' d'
            → WritesTo sb ip' d'
                (off + chunk left off)
                (left - chunk left off)
                (λ i. src (chunk left off + i))
                (next ip' d'))
        → WritesTo sb ip d off left src (
            o >>= λ (a, ip', d').
            next ip' (put_at d' a (copy_bytes (off % 512) (chunk left off) src (d' a))))
    round none hole some_left later = (off, omega arith, omega arith, hole)
    round (some (a, ip', d')) (kept, nz, is) some_left later =
        let w =
          overwritten sb ip ip' d d' off (chunk left off) a src (ground arith) (omega arith) kept nz
            is in
        more ip' _ w some_left _ (later ip' _ w.sound)

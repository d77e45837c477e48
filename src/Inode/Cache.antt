-- ===== src/Inode/Cache.antt =====
-- HW3/fs.c: `iget`, `idup`, `ilock` and `iunlock` over the table of inodes in memory. The lock of the
-- table is held in each of them, up to the read of the inode in `ilock`.
use operating_systems.Base.{
  ℕ, ◌+◌, ◌&&◌, ◌||◌, not, Bool, true, false, Option, none, some, List, get_elem?, modify,
  find_index, ◌==◌, ltb, if◌then◌else◌,
}

-- The part of `struct inode` that is on the disk.
pub record Dinode : Type 0 where
  pub kind : ℕ
  pub major : ℕ
  pub minor : ℕ
  pub nlink : ℕ
  pub size : ℕ
  pub addrs : List ℕ

-- `struct inode`, with its two flags.
pub record Inode : Type 0 where
  pub dev : ℕ
  pub inum : ℕ
  pub ref : ℕ
  pub busy : Bool
  pub valid : Bool
  pub on_disk : Dinode

abbrev pub is_cached : ℕ → ℕ → Inode → Bool
is_cached dev inum ip = ltb 0 ip.ref && ip.dev == dev && ip.inum == inum

abbrev pub one_more : Inode → Inode
one_more ip = record ip { ref = ip.ref + 1 }

abbrev pub fresh_entry : ℕ → ℕ → Inode → Inode
fresh_entry dev inum ip = record ip { dev = dev; inum = inum; ref = 1; busy = false; valid = false }

-- `iget`; none is its panic. Its loop remembers the first free entry, which counts only if no entry
-- holds the inode.
unfoldable pub iget : ℕ → ℕ → List Inode → Option (ℕ × List Inode)
iget dev inum ips = elim (find_index (is_cached dev inum) ips) [
  | some i ↦ some (i, modify ips i one_more)
  | none ↦ elim (find_index (λ ip. ip.ref == 0) ips) [
    | some i ↦ some (i, modify ips i (fresh_entry dev inum))
    | none ↦ none
  ]
]

unfoldable pub idup : ℕ → List Inode → List Inode
idup i ips = modify ips i one_more

-- `ilock`: one of its panics, asleep on the inode, or the inode locked and read.
pub data LockEnd : Type 0 where
  lock_panics : LockEnd
  sleeps_on_inode : LockEnd
  locks : List Inode → LockEnd

-- `disk` gives the inodes on the disk.
abbrev pub read_inode : (ℕ → ℕ → Dinode) → Inode → Inode
read_inode disk ip =
    if ip.valid then ip else record ip { on_disk = disk ip.dev ip.inum; valid = true }

abbrev pub lock_entry : (ℕ → ℕ → Dinode) → ℕ → Option Inode → List Inode → LockEnd
lock_entry disk i none ips = lock_panics
lock_entry disk i (some ip) ips =
    if ltb ip.ref 1
    then lock_panics
    else if ip.busy
    then sleeps_on_inode
    else if not ip.valid && (disk ip.dev ip.inum).kind == 0
    then lock_panics
    else locks (modify ips i (λ p. record (read_inode disk p) { busy = true }))

unfoldable pub ilock : (ℕ → ℕ → Dinode) → ℕ → List Inode → LockEnd
ilock disk i ips = lock_entry disk i (get_elem? ips i) ips

abbrev pub unlock_entry : ℕ → Option Inode → List Inode → Option (List Inode)
unlock_entry i none ips = none
unlock_entry i (some ip) ips =
    if not ip.busy || ltb ip.ref 1
    then none
    else some (modify ips i (λ p. record p { busy = false }))

-- `iunlock` up to the call that wakes those that sleep on the inode; none is its panic.
unfoldable pub iunlock : ℕ → List Inode → Option (List Inode)
iunlock i ips = unlock_entry i (get_elem? ips i) ips

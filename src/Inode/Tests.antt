-- ===== src/Inode/Tests.antt =====
-- The theorem on `iget` of HW3/fs.c at a table of two entries.
use operating_systems.Base.{◌≡◌, refl, false, List, [], ◌∷◌, arith}
use operating_systems.Inode.Cache.{Dinode, Inode, iget, ilock, lock_panics}
use operating_systems.Inode.Unique.{Unique, GetSpec, iget_lem}

abbrev nothing : Dinode
nothing = record { kind = 0; major = 0; minor = 0; nlink = 0; size = 0; addrs = [] }

abbrev root : Inode
root = record { dev = 1; inum = 1; ref = 2; busy = false; valid = false; on_disk = nothing }

abbrev unused : Inode
unused = record root { ref = 0 }

abbrev table : List Inode
table = root ∷ unused ∷ []

table-Unique : Unique table
table-Unique = (((λ b c. absurd (ground (arith, c))), _), (_, _))

ilock-no_kind : ilock (λ d i. nothing) 0 table ≡ lock_panics
unfolding ilock
ilock-no_kind = refl

iget_lem_example : GetSpec 1 5 table (iget 1 5 table)
iget_lem_example = iget_lem 1 5 table table-Unique

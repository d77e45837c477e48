-- ===== src/Log/Header.antt =====
-- The header block of HW3/log.c: what `write_head` stores, `read_head` reads.
use operating_systems.Base.{ℕ, ◌+◌, ◌≤◌, ◌≡◌, refl, List, [], ◌∷◌, length, arith, ap₂, ◌∙◌, ap}
use operating_systems.Log.Store.{Block, put_at}
use operating_systems.Log.Ops.{read_words, decode, write_words}

write_words_below : (bs : List ℕ) (i : ℕ) (h : Block) (j : ℕ) → j ≤ i → write_words bs i h j ≡ h j
unfolding write_words
write_words_below [] i h j le = refl
write_words_below (b ∷ bs) i h j le =
    ground (arith, write_words_below bs (i + 1) (put_at h (i + 1) b) j (omega arith))

read_words-write_words :
    (bs : List ℕ) (i : ℕ) (h : Block) → read_words (length bs) i (write_words bs i h) ≡ bs
unfolding read_words write_words
read_words-write_words [] i h = refl
read_words-write_words (b ∷ bs) i h =
    ap₂ (λ x xs. x ∷ xs)
      (write_words_below bs (i + 1) (put_at h (i + 1) b) (i + 1) (omega arith) ∙ ground arith)
      (read_words-write_words bs (i + 1) (put_at h (i + 1) b))

-- The header that a block holds once `write_head` has filled it is the one in memory.
pub decode-write_words :
    (bs : List ℕ) (h : Block) → decode (write_words bs 0 (put_at h 0 (length bs))) ≡ bs
decode-write_words bs h =
    ap (λ n. read_words n 0 (write_words bs 0 (put_at h 0 (length bs))))
      (write_words_below bs 0 (put_at h 0 (length bs)) 0 (omega arith) ∙ ground arith)
    ∙ read_words-write_words bs 0 (put_at h 0 (length bs))

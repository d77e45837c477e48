-- ===== src/Base/Loops.antt =====
-- Counted loops and their invariant rule.
use Prim.Native.Nat.{ℕ, zero, suc, ◌+◌, ◌<◌}
use mathlib.Core.Path.{◌≡◌}
use native.Mathlib.Omega.{arith}

-- `for(k = first; k < first + count; k++) st = visit(k, st);`
unfoldable pub for_range {ℓ} : {St : Type ℓ} → ℕ → ℕ → (ℕ → St → St) → St → St
for_range zero first visit st = st
for_range (suc count) first visit st =
    let next = visit first st in for_range count (first + 1) visit next

-- The visits are only asked to keep the invariant below `top`, where the loop ends.
pub for_range_inv {ℓ κ} :
    {St : Type ℓ} (Inv : ℕ → St → Type κ) (visit : ℕ → St → St) (top : ℕ)
    → ((k : ℕ) (st : St) → k < top → Inv k st → Inv (k + 1) (visit k st))
    → (count first : ℕ) (st : St) → first + count ≡ top
    → Inv first st
    → Inv top (for_range count first visit st)
unfolding for_range
for_range_inv Inv visit top step zero first st ends holds =
    let stop : first ≡ top = omega arith in rw stop at holds
for_range_inv Inv visit top step (suc count) first st ends holds =
    let held : Inv (first + 1) (visit first st) = step first st (omega arith) holds in
    for_range_inv Inv visit top step count (first + 1) _ (omega arith) held

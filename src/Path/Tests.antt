-- ===== src/Path/Tests.antt =====
-- The theorem on `skipelem` of HW3/fs.c at the path ///a//bb.
use operating_systems.Base.{ℕ, ◌≡◌, refl, some, List, [], ◌∷◌}
use operating_systems.Path.Elements.{skip_slashes, element, skipelem}
use operating_systems.Path.Skip.{SkipSpec, skipelem_lem}

abbrev path : List ℕ
path = b'/' ∷ b'/' ∷ b'/' ∷ b'a' ∷ b'/' ∷ b'/' ∷ b'b' ∷ b'b' ∷ []

skipelem-path : skipelem path ≡ some (b'a' ∷ [], b'b' ∷ b'b' ∷ [])
unfolding skipelem skip_slashes element
skipelem-path = refl

skipelem_lem_example : SkipSpec path (skipelem path)
skipelem_lem_example = skipelem_lem path

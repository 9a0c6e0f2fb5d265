-- ===== src/Groups/Runes.antt =====
-- len([]rune(s)), which CreateGroup and UpdateGroup (internal/gateway/group.go) take of a name.
use Prim.Native.Nat.{ℕ, suc}
use Prim.Native.String.{String, [], ◌∷◌}

unfoldable pub rune_len : String → ℕ
rune_len [] = 0
rune_len (c ∷ s) = suc (rune_len s)

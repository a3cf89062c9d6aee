-- ===== src/Files/Name.antt =====
-- `isValidName` of internal/vfs/vfs.go, on the characters of a name.
use Prim.Native.Char.{code}
use Prim.Native.String.{String, [], ◌∷◌}
use vault_drift.Common.{Bool, true, not, ◌&&◌, ◌||◌, ltb, ◌==◌, str_eq}

-- The loop: a slash, or a control character, which takes in the other characters that it names.
unfoldable pub has_only_allowed : String → Bool
has_only_allowed [] = true
has_only_allowed (c ∷ rest) = not (code c == 47 || ltb (code c) 32) && has_only_allowed rest

-- `isValidName`
unfoldable pub is_valid_name : String → Bool
unfolding has_only_allowed
is_valid_name name =
    not (str_eq name "") && (not (str_eq name "." || str_eq name "..") && has_only_allowed name)

-- ===== src/Text/Literals.antt =====
-- String constants of the program, as their bytes.
use Prim.Native.Char.{code}
use Prim.Native.String.{String}
use rvos.Common.{[], ◌∷◌}
use rvos.Text.{Str}

abbrev pub bytes : String → Str
bytes String.[] = []
bytes (String.◌∷◌ letter rest) = code letter ∷ bytes rest

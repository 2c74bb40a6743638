-- ===== src/Common/Texts.antt =====
-- src/common/utils/string.hpp, and the texts that the names of the program are: lists of character
-- codes.
use Prim.Native.Nat.{ℕ, ◌+◌}
use Prim.Native.Char.{code}
use Prim.Native.String.{String}
use mathlib.Core.Bool.{Bool, true, false, ◌&&◌}
use mathlib.Core.List.{List, [], ◌∷◌, map}
use mathlib.Core.Path.{◌≡◌, refl}
use native.Mathlib.Omega.{arith}
use emulator_momo.Common.Tests.{leb, ◌==◌, if◌then◌else◌}

abbrev pub Text : Type 0
Text = List ℕ

-- The codes of a text of the source.
abbrev pub codes : String → Text
codes String.[] = []
codes (String.◌∷◌ c s) = code c ∷ codes s

-- Whether two names are the same.
unfoldable pub same_name : Text → Text → Bool
same_name [] [] = true
same_name [] (d ∷ ds) = false
same_name (c ∷ cs) [] = false
same_name (c ∷ cs) (d ∷ ds) = c == d && same_name cs ds

pub same_name_self : (n : Text) → same_name n n ≡ true
unfolding same_name
same_name_self [] = refl
same_name_self (c ∷ cs) = ground (arith, same_name_self cs)

pub same_name→eq : (n m : Text) → same_name n m ≡ true → n ≡ m
unfolding same_name
same_name→eq [] [] h = refl
same_name→eq [] (d ∷ ds) h = cc
same_name→eq (c ∷ cs) [] h = cc
same_name→eq (c ∷ cs) (d ∷ ds) h = ground (arith, same_name→eq cs ds)

-- `char_to_lower`, in the C locale
unfoldable pub char_to_lower : ℕ → ℕ
char_to_lower c = if leb 65 c && leb c 90 then c + 32 else c

unfoldable pub to_lower : Text → Text
unfolding char_to_lower
to_lower = map char_to_lower

pub to_lower_twice : (n : Text) → to_lower (to_lower n) ≡ to_lower n
unfolding to_lower
to_lower_twice [] = refl
to_lower_twice (c ∷ cs) = ground (arith, to_lower_twice cs)

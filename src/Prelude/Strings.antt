-- ===== src/Prelude/Strings.antt =====
-- The functions of Go's package `strings` that the program uses, by code point.

use Prim.Native.Char.{Char, code}
use Prim.Native.String.{String, [], ◌∷◌}
use mathlib.Core.Path.{◌≡◌, refl}
use mathlib.Core.Bool.{Bool, ◌&&◌, ◌||◌}
use text.Mathlib.Text.{◌==◌}
use flowgo_server.Prelude.Tests.{leb, nat_eq, if◌then◌else◌}

-- Unicode's White_Space, as `unicode.IsSpace` tests it.
unfoldable pub is_space : Char → Bool
is_space ch =
    let c = code ch in
    (leb 9 c && leb c 13)
    || nat_eq c 32
    || nat_eq c 133
    || nat_eq c 160
    || nat_eq c 5760
    || (leb 8192 c && leb c 8202)
    || nat_eq c 8232
    || nat_eq c 8233
    || nat_eq c 8239
    || nat_eq c 8287
    || nat_eq c 12288

unfoldable pub trim_left : (Char → Bool) → String → String
trim_left cut [] = []
trim_left cut (c ∷ s) = if cut c then trim_left cut s else c ∷ s

unfoldable pub trim_right : (Char → Bool) → String → String
trim_right cut [] = []
trim_right cut (c ∷ s) = let r = trim_right cut s in if cut c && r == "" then "" else c ∷ r

-- strings.TrimSpace
unfoldable pub trim_space : String → String
unfolding trim_left trim_right is_space
trim_space s = trim_right is_space (trim_left is_space s)

-- strings.TrimRight(s, "/")
unfoldable pub trim_right_slashes : String → String
unfolding trim_right
trim_right_slashes s = trim_right (λ c. nat_eq (code c) b'/') s

trim_space_tests : (trim_space " a b\n" ≡ "a b") × (trim_space " \t" ≡ "")
unfolding trim_space
trim_space_tests = (refl, refl)

trim_right_slashes_test : trim_right_slashes "http://h//" ≡ "http://h"
unfolding trim_right_slashes
trim_right_slashes_test = refl

-- ===== src/Common/Text.antt =====
-- Python's `str`: equality, emptiness, and `strip()`, which removes white space from both ends.
use Prim.Native.Nat.{ℕ}
use Prim.Native.Char.{Char, code}
use Prim.Native.String.{String}
use mathlib.Core.Bool.{Bool, true, false, ◌&&◌, ◌||◌}
use text.Mathlib.Text.{◌==◌ as str_eq}
use idx_backtest_lab.Common.Tests.{ltb, leb, ◌==◌, if◌then◌else◌}
use idx_backtest_lab.Common.Order.{LinearOrder}
use mathlib.Core.Path.{◌≡◌, refl}
use native.Mathlib.Omega.{arith}
use text.Mathlib.TextEquality.{Char-path}

-- `not s`
unfoldable pub is_empty : String → Bool
is_empty String.[] = true
is_empty (String.◌∷◌ c s) = false

-- The characters that `str.isspace` accepts.
unfoldable pub is_space : ℕ → Bool
is_space c =
    leb 9 c && leb c 13
    || leb 28 c && leb c 32
    || c == 133
    || c == 160
    || c == 5760
    || leb 8192 c && leb c 8202
    || c == 8232
    || c == 8233
    || c == 8239
    || c == 8287
    || c == 12288

unfoldable pub lstrip : String → String
unfolding is_space
lstrip String.[] = String.[]
lstrip (String.◌∷◌ c s) = let rest = lstrip s in if is_space (code c) then rest else String.◌∷◌ c s

drop_if_blank : Char → String → String
unfolding is_space
drop_if_blank c String.[] = if is_space (code c) then String.[] else String.◌∷◌ c String.[]
drop_if_blank c s = String.◌∷◌ c s

unfoldable pub rstrip : String → String
unfolding drop_if_blank
rstrip String.[] = String.[]
rstrip (String.◌∷◌ c s) = drop_if_blank c (rstrip s)

unfoldable pub strip : String → String
unfolding lstrip rstrip
strip s = rstrip (lstrip s)

-- `not s.strip()`
unfoldable pub is_blank : String → Bool
unfolding strip is_empty
is_blank s = is_empty (strip s)

-- `s == t` and `s != t`
abbrev pub eqs : String → String → Bool
eqs = str_eq

-- `s < t`: by code points, from the left.
unfoldable pub text_lt : String → String → Bool
text_lt String.[] String.[] = false
text_lt String.[] (String.◌∷◌ d t) = true
text_lt (String.◌∷◌ c s) String.[] = false
text_lt (String.◌∷◌ c s) (String.◌∷◌ d t) =
    let rest = text_lt s t in
    if ltb (code c) (code d) then true else if ltb (code d) (code c) then false else rest

pub text_irrefl : (s : String) → text_lt s s ≡ false
unfolding text_lt
text_irrefl String.[] = refl
text_irrefl (String.◌∷◌ c s) = ground (arith, text_irrefl s)

pub text_trans : (s t u : String) → text_lt s t ≡ true → text_lt t u ≡ true → text_lt s u ≡ true
unfolding text_lt
text_trans String.[] String.[] u h k = cc
text_trans String.[] (String.◌∷◌ d t) String.[] h k = cc
text_trans String.[] (String.◌∷◌ d t) (String.◌∷◌ e u) h k = refl
text_trans (String.◌∷◌ c s) String.[] u h k = cc
text_trans (String.◌∷◌ c s) (String.◌∷◌ d t) String.[] h k = cc
text_trans (String.◌∷◌ c s) (String.◌∷◌ d t) (String.◌∷◌ e u) h k = ground (arith, text_trans s t u)

cons_eq : (c d : Char) (s t : String) → code c ≡ code d → s ≡ t → String.◌∷◌ c s ≡ String.◌∷◌ d t
cons_eq c d s t h k = cc (Char-path c d h, k)

pub text_total : (s t : String) → text_lt s t ≡ false → text_lt t s ≡ false → s ≡ t
unfolding text_lt
text_total String.[] String.[] h k = refl
text_total String.[] (String.◌∷◌ d t) h k = cc
text_total (String.◌∷◌ c s) String.[] h k = cc
text_total (String.◌∷◌ c s) (String.◌∷◌ d t) h k =
    cons_eq c d s t (ground arith) (text_total s t (ground arith) (ground arith))

instance abbrev pub text_order : LinearOrder String
text_order = record {
  precedes = text_lt;
  irrefl = text_irrefl;
  transitive = text_trans;
  total = text_total;
}

-- ===== src/Base/Strings.antt =====
-- C strings as the lists of their bytes before the NUL, and what the C library does with them.
use Prim.Native.Char.{code}
use Prim.Native.String.{String}
use Prim.Native.Nat.{ℕ, ◌+◌, ◌-◌, ◌*◌}
use mathlib.Core.Path.{◌≡◌}
use mathlib.Core.Logic.{◌↔◌}
use mathlib.Core.Bool.{Bool, true, false, ◌&&◌, ◌||◌}
use mathlib.Core.List.{List, [], ◌∷◌}
use mathlib.Core.Option.{Option, none, some}
use native.Mathlib.Omega.{arith}
use neo6502_mmu_v.Base.Tests.{leb, ◌==◌, if◌then◌else◌}

-- The code points of a text: its bytes, if it is ASCII.
abbrev pub codes : String → List ℕ
codes String.[] = []
codes (String.◌∷◌ c s) = code c ∷ codes s

-- `strcmp(a, b) == 0`
unfoldable pub str_eq : List ℕ → List ℕ → Bool
str_eq [] [] = true
str_eq [] (y ∷ ys) = false
str_eq (x ∷ xs) [] = false
str_eq (x ∷ xs) (y ∷ ys) = x == y && str_eq xs ys

pub str_eq_iff : (a b : List ℕ) → (str_eq a b ≡ true) ↔ (a ≡ b)
unfolding str_eq
str_eq_iff [] [] = ground arith
str_eq_iff [] (y ∷ ys) = ground arith
str_eq_iff (x ∷ xs) [] = ground arith
str_eq_iff (x ∷ xs) (y ∷ ys) = ground (arith, str_eq_iff xs ys)

-- `strncmp(s, prefix, strlen(prefix)) == 0`
unfoldable pub starts_with : List ℕ → List ℕ → Bool
starts_with [] s = true
starts_with (p ∷ ps) [] = false
starts_with (p ∷ ps) (c ∷ s) = p == c && starts_with ps s

-- `strchr(s, mark)`: what stands before the first `mark`, and what behind it.
unfoldable pub split_at : ℕ → List ℕ → Option (List ℕ × List ℕ)
split_at mark [] = none
split_at mark (c ∷ cs) =
    let later = split_at mark cs in
    if c == mark
    then some ([], cs)
    else elim later [ none ↦ none | some (before, behind) ↦ some (c ∷ before, behind) ]

-- The bytes before the first NUL.
unfoldable pub c_string : List ℕ → List ℕ
c_string [] = []
c_string (c ∷ cs) = let rest = c_string cs in if c == 0 then [] else c ∷ rest

-- A loop that cuts off characters from the front, or from the end.
unfoldable pub strip_front : (ℕ → Bool) → List ℕ → List ℕ
strip_front p [] = []
strip_front p (c ∷ cs) = let rest = strip_front p cs in if p c then rest else c ∷ cs

unfoldable pub strip_end : (ℕ → Bool) → List ℕ → List ℕ
strip_end p [] = []
strip_end p (c ∷ cs) = elim (strip_end p cs) [
  | [] ↦ if p c then [] else c ∷ []
  | d ∷ ds ↦ c ∷ d ∷ ds
]

abbrev add_to_token : ℕ → List (List ℕ) → List (List ℕ)
add_to_token c [] = (c ∷ []) ∷ []
add_to_token c (t ∷ ts) = (c ∷ t) ∷ ts

-- The runs of other characters between the marks, an empty one in front if the text begins so.
unfoldable pub token_runs : ℕ → List ℕ → List (List ℕ)
token_runs mark [] = [] ∷ []
token_runs mark (c ∷ cs) =
    let rest = token_runs mark cs in if c == mark then [] ∷ rest else add_to_token c rest

unfoldable pub drop_empty : List (List ℕ) → List (List ℕ)
drop_empty [] = []
drop_empty ([] ∷ ts) = drop_empty ts
drop_empty ((c ∷ t) ∷ ts) = (c ∷ t) ∷ drop_empty ts

-- All that `strtok_r` returns, call by call.
unfoldable pub tokens : ℕ → List ℕ → List (List ℕ)
unfolding token_runs drop_empty
tokens mark s = drop_empty (token_runs mark s)

abbrev is_space : ℕ → Bool
is_space c = c == 32 || (leb 9 c && leb c 13)

abbrev is_digit : ℕ → Bool
is_digit c = leb b'0' c && leb c b'9'

-- The digits from here on, and what stands behind them.
unfoldable pub decimal : ℕ → List ℕ → ℕ × List ℕ
decimal value [] = (value, [])
decimal value (c ∷ cs) =
    let rest = decimal (value * 10 + (c - b'0')) cs in if is_digit c then rest else (value, c ∷ cs)

-- A sign, the value and the rest; `none` where no digit is found and `end` stays at the start.
abbrev digits_after : Bool → List ℕ → Option (Bool × ℕ × List ℕ)
digits_after negative [] = none
digits_after negative (c ∷ cs) =
    if is_digit c
    then (let (value, rest) = decimal 0 (c ∷ cs) in some (negative, value, rest))
    else none

abbrev sign_after : List ℕ → Option (Bool × ℕ × List ℕ)
sign_after [] = none
sign_after (c ∷ cs) =
    if c == b'-'
    then digits_after true cs
    else if c == b'+'
    then digits_after false cs
    else digits_after false (c ∷ cs)

-- `strtol(s, &end, 10)`. A value out of the range of `long` is kept as it is; the caller refuses it
-- as it refuses `LONG_MAX` and `LONG_MIN`.
unfoldable pub strtol : List ℕ → Option (Bool × ℕ × List ℕ)
unfolding decimal strip_front
strtol s = sign_after (strip_front is_space s)

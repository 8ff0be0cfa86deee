-- ===== src/Shared/Number.antt =====
-- A JavaScript number, as far as the guards of the source look at it: the exact integers, and the
-- values that `Number.isInteger` refuses, with `===` on them.
use jejak.Prelude.{ℕ, Bool, true, false, ◌&&◌}
use jejak.Prelude.Tests.{◌==◌}
use jejak.Prelude.Int.{ℤ, pos, negsuc, leb_ℤ}

pub data Number : Type 0 where
  int : ℤ → Number
  fraction : ℕ → Number
  infinite : Bool → Number
  nan : Number

abbrev pub int_eq : ℤ → ℤ → Bool
int_eq (pos a) (pos b) = a == b
int_eq (pos a) (negsuc b) = false
int_eq (negsuc a) (pos b) = false
int_eq (negsuc a) (negsuc b) = a == b

abbrev pub same_sign : Bool → Bool → Bool
same_sign true b = b
same_sign false true = false
same_sign false false = true

abbrev pub number_eq : Number → Number → Bool
number_eq (int a) (int b) = int_eq a b
number_eq (fraction a) (fraction b) = a == b
number_eq (infinite a) (infinite b) = same_sign a b
number_eq _ _ = false

-- `Number.isInteger(n) && lo <= n && n <= hi`
abbrev pub integer_between : ℤ → ℤ → Number → Bool
integer_between lo hi (int n) = leb_ℤ lo n && leb_ℤ n hi
integer_between lo hi _ = false

-- ===== src/Text.antt =====
-- The parts of the Rust standard library that the servers use on text: `str::split_once` on a
-- character, the decimal `Display` of an unsigned integer and `u64::from_str`. Texts are their bytes.
pub mod Split
pub mod Decimal
use rust_gameserver.Base.{
  ℕ, zero, suc, ◌+◌, ◌-◌, ◌*◌, ◌/◌, ◌%◌, ◌^◌, Bool, true, false, ◌||◌, List, [], ◌∷◌, ◌++◌, Option,
  none, some, Bytes, is_empty, ltb, ◌==◌, if◌then◌else◌,
}

abbrev pub max_u64 : ℕ
max_u64 = 2 ^ 64 - 1

abbrev cons_left : ℕ → Option (Bytes × Bytes) → Option (Bytes × Bytes)
cons_left c none = none
cons_left c (some (a, b)) = some (c ∷ a, b)

-- At the first separator.
unfoldable pub split_once : ℕ → Bytes → Option (Bytes × Bytes)
split_once sep [] = none
split_once sep (c ∷ s) =
    let rest = split_once sep s in if c == sep then some ([], s) else cons_left c rest

-- The digits of a number, on fuel: any fuel above the number is enough.
unfoldable pub digits : ℕ → ℕ → Bytes
digits zero n = []
digits (suc fuel) n =
    let front = digits fuel (n / 10) in
    if ltb n 10 then (b'0' + n) ∷ [] else front ++ (b'0' + n % 10) ∷ []

unfoldable pub display : ℕ → Bytes
unfolding digits
display n = digits (suc n) n

abbrev pub is_digit : ℕ → Bool
is_digit c = if ltb c b'0' then false else if ltb b'9' c then false else true

-- `checked_mul` and `checked_add` in `u64`.
unfoldable pub scan : Bytes → ℕ → Option ℕ
scan [] n = some n
scan (c ∷ s) n =
    let rest = scan s (n * 10 + (c - b'0')) in
    if is_digit c
    then if ltb max_u64 (n * 10) || ltb max_u64 (n * 10 + (c - b'0')) then none else rest
    else none

-- A sign `+` is allowed, and is no number by itself.
unfoldable pub parse_u64 : Bytes → Option ℕ
unfolding scan
parse_u64 [] = none
parse_u64 (c ∷ s) = if c == b'+' then if is_empty s then none else scan s 0 else scan (c ∷ s) 0

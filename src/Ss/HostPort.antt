-- ===== src/Ss/HostPort.antt =====
-- What internal/ss uses of Go's `net.JoinHostPort`, `net.SplitHostPort`, `strconv.Itoa` and
-- `strconv.Atoi`, over the bytes of the texts.
pub mod Decimal
pub mod Split
use small_x.Base.{
  ℤ, pos, negsuc, ℕ, zero, suc, ◌+◌, ◌-◌, ◌*◌, ◌/◌, ◌%◌, Text, List, [], ◌∷◌, ◌++◌, Bool, true,
  false, ◌&&◌, ◌||◌, not, Option, none, some, nat_eq, leb, ltb, if◌then◌else◌, length, take, drop,
  get_or, is_none,
}
use small_x.Base.Strings.{contains_byte, has_prefix_byte}

-- `strconv.Itoa` of a number that is not negative; int64 has at most 19 digits.
unfoldable pub itoa_onto : ℕ → ℕ → Text → Text
itoa_onto zero n acc = acc
itoa_onto (suc fuel) n acc =
    let rest = itoa_onto fuel (n / 10) ((n % 10 + b'0') ∷ acc) in
    if ltb n 10 then (n + b'0') ∷ acc else rest

unfoldable pub itoa : ℕ → Text
itoa n = itoa_onto 20 n []

-- `fmt.Sprintf("%d", n)`.
abbrev pub decimal : ℤ → Text
decimal (pos n) = itoa n
decimal (negsuc n) = b'-' ∷ itoa (n + 1)

abbrev pub is_digit : ℕ → Bool
is_digit c = leb b'0' c && leb c b'9'

-- The value of a run of digits behind a value; `none` at any other byte.
unfoldable pub digits_value : ℕ → Text → Option ℕ
digits_value v [] = some v
digits_value v (c ∷ s) =
    let rest = digits_value (v * 10 + (c - b'0')) s in if is_digit c then rest else none

abbrev pub signed_value : Bool → Option ℕ → Option ℤ
signed_value negative none = none
signed_value false (some n) = if ltb n 9_223_372_036_854_775_808 then some (pos n) else none
signed_value true (some zero) = some (pos 0)
signed_value true (some (suc n)) = if ltb n 9_223_372_036_854_775_808 then some (negsuc n) else none

abbrev pub unsigned_digits : Text → Option ℕ
unsigned_digits [] = none
unsigned_digits (c ∷ s) = digits_value 0 (c ∷ s)

-- `strconv.Atoi`: an optional sign, digits, a 64-bit range.
unfoldable pub atoi : Text → Option ℤ
atoi [] = none
atoi (c ∷ s) =
    if nat_eq c b'-'
    then signed_value true (unsigned_digits s)
    else if nat_eq c b'+'
    then signed_value false (unsigned_digits s)
    else signed_value false (unsigned_digits (c ∷ s))

unfoldable pub join_host_port : Text → Text → Text
join_host_port host port =
    if contains_byte b':' host then b'[' ∷ (host ++ b']' ∷ b':' ∷ port) else host ++ b':' ∷ port

-- `strings.IndexByte` and `strings.LastIndexByte`.
unfoldable pub index_byte : ℕ → Text → Option ℕ
index_byte c [] = none
index_byte c (a ∷ s) =
    let rest = index_byte c s in
    if nat_eq c a then some 0 else elim rest [ none ↦ none | some i ↦ some (suc i) ]

unfoldable pub last_index_byte : ℕ → Text → Option ℕ
last_index_byte c [] = none
last_index_byte c (a ∷ s) = elim (last_index_byte c s) [
  | some i ↦ some (suc i)
  | none ↦ if nat_eq c a then some 0 else none
]

-- The end of `SplitHostPort`: `j` and `k` are where an open or a closing bracket would be one too many.
unfoldable pub split_checked : Text → ℕ → ℕ → ℕ → Text → Option (Text × Text)
split_checked s j k i host =
    if contains_byte b'[' (drop j s) || contains_byte b']' (drop k s)
    then none
    else some (host, drop (suc i) s)

unfoldable pub split_bracketed : Text → ℕ → Option ℕ → Option (Text × Text)
split_bracketed s i none = none
split_bracketed s i (some end) =
    if nat_eq (end + 1) i then split_checked s 1 (end + 1) i (take (end - 1) (drop 1 s)) else none

unfoldable pub split_at_colon : Text → Option ℕ → Option (Text × Text)
split_at_colon s none = none
split_at_colon s (some i) =
    if has_prefix_byte b'[' s
    then split_bracketed s i (index_byte b']' s)
    else if contains_byte b':' (take i s)
    then none
    else split_checked s 0 0 i (take i s)

-- `none` is any of its errors.
unfoldable pub split_host_port : Text → Option (Text × Text)
split_host_port s = split_at_colon s (last_index_byte b':' s)

-- ===== src/Mount/Text.antt =====
-- What internal/mount/mounter.go uses of `strings` and `strconv`, over the characters of a text.
use Prim.Native.Char.{Char, code}
use vcd_csi.Prelude.{
  ℕ, ◌+◌, ◌-◌, ◌*◌, ◌^◌, String, List, [], ◌∷◌, Bool, ◌&&◌, ◌||◌, Option, none, some, ltb, leb, eqb,
  if◌then◌else◌,
}
use vcd_csi.Go.Int.{ℤ, pos, negate}
use vcd_csi.Go.Error.{Error, errorf, text, end}
use vcd_csi.Go.Exec.{Result, ok, err}

-- A character in front of the first part.
unfoldable pub push : Char → List String → List String
push c [] = String.◌∷◌ c String.[] ∷ []
push c (part ∷ parts) = String.◌∷◌ c part ∷ parts

-- `strings.Split(s, sep)`, by the code of a one-character separator
unfoldable pub split : String → ℕ → List String
unfolding push
split String.[] sep = String.[] ∷ []
split (String.◌∷◌ c s) sep =
    let rest = split s sep in if eqb (code c) sep then String.[] ∷ rest else push c rest

-- `unicode.IsSpace`
unfoldable pub is_space : ℕ → Bool
is_space c =
    (leb 0x09 c && leb c 0x0d)
    || eqb c 0x20
    || eqb c 0x85
    || eqb c 0xa0
    || eqb c 0x1680
    || (leb 0x2000 c && leb c 0x200a)
    || eqb c 0x2028
    || eqb c 0x2029
    || eqb c 0x202f
    || eqb c 0x205f
    || eqb c 0x3000

unfoldable pub trim_left : String → String
unfolding is_space
trim_left String.[] = String.[]
trim_left (String.◌∷◌ c s) =
    let rest = trim_left s in if is_space (code c) then rest else String.◌∷◌ c s

-- A character stays if it is no space or if something behind it stays.
keep_char : Char → String → String
unfolding is_space
keep_char c String.[] = if is_space (code c) then String.[] else String.◌∷◌ c String.[]
keep_char c rest = String.◌∷◌ c rest

unfoldable pub trim_right : String → String
unfolding keep_char
trim_right String.[] = String.[]
trim_right (String.◌∷◌ c s) = keep_char c (trim_right s)

-- `strings.TrimSpace(s)`
unfoldable pub trim_space : String → String
unfolding trim_left trim_right
trim_space s = trim_right (trim_left s)

-- The value of decimal digits that follow the value `n`.
unfoldable pub digits : ℕ → String → Option ℕ
digits n String.[] = some n
digits n (String.◌∷◌ ch s) =
    let c = code ch in
    let rest = digits (n * 10 + (c - 48)) s in if leb 48 c && leb c 57 then rest else none

unfoldable pub unsigned : String → Option ℕ
unfolding digits
unsigned String.[] = none
unsigned (String.◌∷◌ c s) = digits 0 (String.◌∷◌ c s)

abbrev not_a_number : String → Error
not_a_number s = errorf "strconv: parsing %q: invalid syntax or value out of range" (text s end)

-- `strconv.ParseUint(s, 10, 64)`
unfoldable pub parse_uint : String → Result ℕ
unfolding unsigned
parse_uint s = elim (unsigned s) [
  | none ↦ err (not_a_number s)
  | some n ↦ if ltb n (2 ^ 64) then ok n else err (not_a_number s)
]

-- The sign, and what follows it.
unfoldable pub signed : String → Option ℤ
unfolding unsigned
signed String.[] = none
signed (String.◌∷◌ c s) =
    if eqb (code c) 45
    then elim (unsigned s) [
      | none ↦ none
      | some n ↦ if leb n (2 ^ 63) then some (negate n) else none
    ]
    else elim (unsigned (if eqb (code c) 43 then s else String.◌∷◌ c s)) [
      | none ↦ none
      | some n ↦ if ltb n (2 ^ 63) then some (pos n) else none
    ]

-- `strconv.ParseInt(s, 10, 64)`
unfoldable pub parse_int : String → Result ℤ
unfolding signed
parse_int s = elim (signed s) [ none ↦ err (not_a_number s) | some i ↦ ok i ]

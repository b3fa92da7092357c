-- ===== src/HostConfig/Texts.antt =====
-- The methods of `str` and the iterators that crates/etas_cli/src/command/interpreter/host_config.rs
-- reads texts with.
use etas.Base.{ℕ, ◌+◌, ◌-◌, ◌*◌, Text, Option, none, some, Bool, ◌&&◌, not, List, [], ◌∷◌}
use etas.Base.{if◌then◌else◌, ◌==◌, leb, strip_prefix, split, is_empty}
use etas.Diagnostics.{Result, ok, ◌>>=◌}
use etas.Archive.Octal.{trim}

-- `iter().map(f).collect::<Result<Vec<_>, _>>()`
unfoldable pub traverse : {E A B : Type 0} → (A → Result E B) → List A → Result E (List B)
traverse f [] = ok []
traverse f (x ∷ xs) = f x >>= λ y. traverse f xs >>= λ ys. ok (y ∷ ys)

-- `iter().filter(p)`
unfoldable pub filter : {A : Type 0} → (A → Bool) → List A → List A
filter p [] = []
filter p (x ∷ xs) = let rest = filter p xs in if p x then x ∷ rest else rest

unfoldable pub map_trim : List Text → List Text
unfolding trim
map_trim [] = []
map_trim (t ∷ ts) = trim t ∷ map_trim ts

-- `split(',').map(str::trim).filter(|value| !value.is_empty())`
unfoldable pub entries : Text → List Text
unfolding split map_trim filter
entries value = filter (λ t. not (is_empty t)) (map_trim (split 44 value))

abbrev pub before : ℕ → Option (Text × Text) → Option (Text × Text)
before x none = none
before x (some (a, b)) = some (x ∷ a, b)

-- `split_once` at the first occurrence of a text
unfoldable pub split_once_at : Text → Text → Option (Text × Text)
unfolding strip_prefix
split_once_at sep [] = elim (strip_prefix sep []) [ none ↦ none | some b ↦ some ([], b) ]
split_once_at sep (x ∷ xs) =
    let rest = split_once_at sep xs in
    elim (strip_prefix sep (x ∷ xs)) [ none ↦ before x rest | some b ↦ some ([], b) ]

-- `rsplit_once` at the last occurrence of a character
unfoldable pub rsplit_once : ℕ → Text → Option (Text × Text)
rsplit_once c [] = none
rsplit_once c (x ∷ xs) = elim (rsplit_once c xs) [
  | some (a, b) ↦ some (x ∷ a, b)
  | none ↦ if x == c then some ([], xs) else none
]

unfoldable pub decimal_from : (max value : ℕ) → Text → Option ℕ
decimal_from max value [] = some value
decimal_from max value (d ∷ ds) =
    let next = value * 10 + (d - 48) in
    let rest = decimal_from max next ds in
    if (leb 48 d && leb d 57) && leb next max then rest else none

-- `parse::<u16>()` and its like, for an unsigned type with the greatest value `max`
unfoldable pub parse_unsigned : (max : ℕ) → Text → Option ℕ
unfolding decimal_from
parse_unsigned max [] = none
parse_unsigned max (d ∷ []) = decimal_from max 0 (d ∷ [])
parse_unsigned max (d ∷ e ∷ ds) = decimal_from max 0 (if d == 43 then e ∷ ds else d ∷ e ∷ ds)

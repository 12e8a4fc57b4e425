-- ===== src/Strings.antt =====
-- The operations of Rust's `str` and `u8` that the catalog code calls, over the UTF-8 bytes of a
-- text: comparison, splitting, prefixes, character classes, decoding into characters.
pub mod Split
pub mod Order
pub mod Decimal
pub mod Prefixes
use fluxsemble_runtime_catal.Base.{
  ℕ, zero, suc, ◌+◌, ◌-◌, ◌*◌, Bool, true, false, ◌&&◌, ◌||◌, Option, none, some, List, [], ◌∷◌,
  Text, ltb, leb, ◌==◌, within, any, if◌then◌else◌,
}

-- `==` on str
unfoldable pub text_eq : Text → Text → Bool
text_eq [] [] = true
text_eq (a ∷ s) (b ∷ t) = a == b && text_eq s t
text_eq _ _ = false

-- `<` on str: the bytes in lexicographic order
unfoldable pub text_lt : Text → Text → Bool
text_lt [] [] = false
text_lt [] (b ∷ t) = true
text_lt (a ∷ s) [] = false
text_lt (a ∷ s) (b ∷ t) = ltb a b || a == b && text_lt s t

abbrev pub push_front : ℕ → List Text → List Text
push_front b [] = (b ∷ []) ∷ []
push_front b (segment ∷ rest) = (b ∷ segment) ∷ rest

-- str::split(char)
unfoldable pub split : ℕ → Text → List Text
split sep [] = [] ∷ []
split sep (b ∷ s) = let rest = split sep s in if b == sep then [] ∷ rest else push_front b rest

abbrev pub prepend : ℕ → Option (Text × Text) → Option (Text × Text)
prepend b none = none
prepend b (some (before, after)) = some (b ∷ before, after)

-- str::split_once(char)
unfoldable pub split_once : ℕ → Text → Option (Text × Text)
split_once sep [] = none
split_once sep (b ∷ s) =
    let rest = split_once sep s in if b == sep then some ([], s) else prepend b rest

-- str::strip_prefix(&str)
unfoldable pub strip_prefix : Text → Text → Option Text
strip_prefix [] s = some s
strip_prefix (p ∷ pre) [] = none
strip_prefix (p ∷ pre) (b ∷ s) = let rest = strip_prefix pre s in if p == b then rest else none

abbrev pub or_later : Option Text → ℕ → Option (Text × Text) → Option (Text × Text)
or_later (some after) b later = some ([], after)
or_later none b later = prepend b later

-- str::split_once(&str), for a pattern that is not empty
unfoldable pub split_once_text : Text → Text → Option (Text × Text)
unfolding strip_prefix
split_once_text pattern [] = none
split_once_text pattern (b ∷ s) =
    or_later (strip_prefix pattern (b ∷ s)) b (split_once_text pattern s)

-- str::starts_with(&str)
unfoldable pub starts_with : Text → Text → Bool
unfolding strip_prefix
starts_with pre s = elim (strip_prefix pre s) [ none ↦ false | some _ ↦ true ]

-- str::contains(char) for an ASCII character
abbrev pub contains_byte : ℕ → Text → Bool
contains_byte b = any (λ c. c == b)

abbrev pub is_empty {ℓ} : {A : Type ℓ} → List A → Bool
is_empty [] = true
is_empty (x ∷ xs) = false

-- slice::first and slice::last, with `is_some_and`
abbrev pub first_is : (ℕ → Bool) → Text → Bool
first_is p [] = false
first_is p (b ∷ s) = p b

abbrev pub last_is : (ℕ → Bool) → Text → Bool
last_is p [] = false
last_is p (b ∷ []) = p b
last_is p (b ∷ c ∷ s) = last_is p (c ∷ s)

-- windows(2).any
abbrev pub any_window {ℓ} : {A : Type ℓ} → (A → A → Bool) → List A → Bool
any_window p [] = false
any_window p (a ∷ []) = false
any_window p (a ∷ b ∷ s) = p a b || any_window p (b ∷ s)

-- windows(2).all
abbrev pub all_window {ℓ} : {A : Type ℓ} → (A → A → Bool) → List A → Bool
all_window p [] = true
all_window p (a ∷ []) = true
all_window p (a ∷ b ∷ s) = p a b && all_window p (b ∷ s)

abbrev pub is_ascii : ℕ → Bool
is_ascii b = ltb b 128

abbrev pub is_digit : ℕ → Bool
is_digit b = within b'0' b'9' b

abbrev pub is_lower : ℕ → Bool
is_lower b = within b'a' b'z' b

abbrev pub is_upper : ℕ → Bool
is_upper b = within b'A' b'Z' b

abbrev pub is_hex_digit : ℕ → Bool
is_hex_digit b = is_digit b || within b'a' b'f' b || within b'A' b'F' b

abbrev pub is_ascii_control : ℕ → Bool
is_ascii_control b = ltb b 32 || b == 127

-- u8::is_ascii_whitespace: space, tab, line feed, form feed, carriage return
abbrev pub is_ascii_whitespace : ℕ → Bool
is_ascii_whitespace b = b == 32 || b == 9 || b == 10 || b == 12 || b == 13

-- char::is_control: the Unicode class Cc
abbrev pub is_control : ℕ → Bool
is_control c = ltb c 32 || within 127 159 c

-- str::chars over well-formed UTF-8: the scalar values
unfoldable pub chars : Text → List ℕ
chars [] = []
chars (a ∷ []) = a ∷ []
chars (a ∷ b ∷ []) = if ltb a 128 then a ∷ b ∷ [] else ((a - 192) * 64 + (b - 128)) ∷ []
chars (a ∷ b ∷ c ∷ []) =
    let one = a ∷ chars (b ∷ c ∷ []) in
    let two = ((a - 192) * 64 + (b - 128)) ∷ chars (c ∷ []) in
    if ltb a 128
    then one
    else if ltb a 224
    then two
    else ((a - 224) * 4096 + (b - 128) * 64 + (c - 128)) ∷ []
chars (a ∷ b ∷ c ∷ d ∷ s) =
    let one = a ∷ chars (b ∷ c ∷ d ∷ s) in
    let two = ((a - 192) * 64 + (b - 128)) ∷ chars (c ∷ d ∷ s) in
    let three = ((a - 224) * 4096 + (b - 128) * 64 + (c - 128)) ∷ chars (d ∷ s) in
    let four = ((a - 240) * 262144 + (b - 128) * 4096 + (c - 128) * 64 + (d - 128)) ∷ chars s in
    if ltb a 128 then one else if ltb a 224 then two else if ltb a 240 then three else four

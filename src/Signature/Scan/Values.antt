-- ===== src/Signature/Scan/Values.antt =====
-- crates/catalog-core/src/signature.rs: the scanner of JSON strings and values. A position `index` in
-- `bytes` is the rest of the bytes, `bytes[index..]`; a span is the bytes that it covers. The loop over
-- compounds runs on fuel, the length of its input.
use fluxsemble_runtime_catal.Base.{
  ℕ, zero, suc, ◌-◌, Bool, true, false, ◌||◌, not, List, [], ◌∷◌, Text, ok, err, ◌>>=◌, ◌>>◌, leb,
  ltb, ◌==◌, all, length, take, if◌then◌else◌,
}
use fluxsemble_runtime_catal.Strings.{is_empty, is_hex_digit}
use fluxsemble_runtime_catal.Signature.Errors.{Sig, invalid_signed_catalog, catalog_check}

abbrev pub max_json_nesting_depth : ℕ
max_json_nesting_depth = 128

-- b' ' | b'\t' | b'\r' | b'\n'
abbrev pub is_json_whitespace : ℕ → Bool
is_json_whitespace b = b == 32 || b == 9 || b == 13 || b == 10

unfoldable pub skip_json_whitespace : Text → Text
skip_json_whitespace [] = []
skip_json_whitespace (b ∷ s) = elim (is_json_whitespace b) [
  | true ↦ skip_json_whitespace s
  | false ↦ b ∷ s
]

-- b'"' | b'\\' | b'/' | b'b' | b'f' | b'n' | b'r' | b't'
abbrev pub is_simple_escape : ℕ → Bool
is_simple_escape b =
    b == b'"'
    || b == b'\\'
    || b == b'/'
    || b == b'b'
    || b == b'f'
    || b == b'n'
    || b == b'r'
    || b == b't'

-- the loop of `scan_json_string`, by what the next byte stands for
unfoldable mutual
  pub scan_content : Text → Sig Text
  scan_content [] = err invalid_signed_catalog
  scan_content (b ∷ s) = elim (b == b'"') [
    | true ↦ ok s
    | false ↦ elim (b == b'\\') [
      | true ↦ scan_escape s
      | false ↦ elim (ltb b 32) [ true ↦ err invalid_signed_catalog | false ↦ scan_content s ]
    ]
  ]

  -- after a backslash
  pub scan_escape : Text → Sig Text
  scan_escape [] = err invalid_signed_catalog
  scan_escape (b ∷ s) = elim (is_simple_escape b) [
    | true ↦ scan_content s
    | false ↦ elim (b == b'u') [ true ↦ scan_unicode s | false ↦ err invalid_signed_catalog ]
  ]

  -- four hexadecimal digits
  pub scan_unicode : Text → Sig Text
  scan_unicode [] = err invalid_signed_catalog
  scan_unicode (a ∷ []) = err invalid_signed_catalog
  scan_unicode (a ∷ b ∷ []) = err invalid_signed_catalog
  scan_unicode (a ∷ b ∷ c ∷ []) = err invalid_signed_catalog
  scan_unicode (a ∷ b ∷ c ∷ d ∷ s) = elim (all is_hex_digit (a ∷ b ∷ c ∷ d ∷ [])) [
    | true ↦ scan_content s
    | false ↦ err invalid_signed_catalog
  ]

unfoldable pub scan_json_string : Text → Sig Text
scan_json_string [] = err invalid_signed_catalog
scan_json_string (b ∷ s) = elim (b == b'"') [
  | true ↦ scan_content s
  | false ↦ err invalid_signed_catalog
]

-- &bytes[start..end]
abbrev pub span : Text → Text → Text
span start end = take (length start - length end) start

unfoldable pub scan_bounded_json_string : Text → ℕ → Sig Text
scan_bounded_json_string s maximum_content_bytes = do
  end ← scan_json_string s
  catalog_check (leb (length s - length end - 2) maximum_content_bytes)
  ok end

-- if byte == b'{' { b'}' } else { b']' }
abbrev pub closer_of : ℕ → ℕ
closer_of b = if b == b'{' then b'}' else b']'

abbrev pub is_opener : ℕ → Bool
is_opener b = b == b'{' || b == b'['

abbrev pub is_closer : ℕ → Bool
is_closer b = b == b'}' || b == b']'

-- closers.pop(), and the return when none is left
abbrev pub close_one : (List ℕ → Text → Sig Text) → ℕ → List ℕ → Text → Sig Text
close_one continue b [] s = err invalid_signed_catalog
close_one continue b (closer ∷ closers) s = do
  catalog_check (closer == b)
  elim (is_empty closers) [ true ↦ ok s | false ↦ continue closers s ]

unfoldable pub compound_loop : ℕ → List ℕ → Text → Sig Text
compound_loop zero closers s = err invalid_signed_catalog
compound_loop (suc fuel) closers [] = err invalid_signed_catalog
compound_loop (suc fuel) closers (b ∷ s) = elim (b == b'"') [
  | true ↦ scan_json_string (b ∷ s) >>= λ end. compound_loop fuel closers end
  | false ↦ elim (is_opener b) [
    | true ↦ do
      catalog_check (not (length closers == max_json_nesting_depth))
      compound_loop fuel (closer_of b ∷ closers) s
    | false ↦ elim (is_closer b) [
      | true ↦ close_one (compound_loop fuel) b closers s
      | false ↦ compound_loop fuel closers s
    ]
  ]
]

unfoldable pub scan_json_compound : Text → Sig Text
scan_json_compound [] = err invalid_signed_catalog
scan_json_compound (b ∷ s) = do
  catalog_check (is_opener b)
  compound_loop (length s) (closer_of b ∷ []) s

abbrev pub is_scalar_end : ℕ → Bool
is_scalar_end b = is_json_whitespace b || b == b',' || b == b'}'

-- position(…).map_or(bytes.len(), …)
unfoldable pub scalar_end : Text → Text
scalar_end [] = []
scalar_end (b ∷ s) = elim (is_scalar_end b) [ true ↦ b ∷ s | false ↦ scalar_end s ]

unfoldable pub scan_json_value : Text → Sig Text
scan_json_value [] = err invalid_signed_catalog
scan_json_value (b ∷ s) = elim (b == b'"') [
  | true ↦ scan_json_string (b ∷ s)
  | false ↦ elim (is_opener b) [
    | true ↦ scan_json_compound (b ∷ s)
    | false ↦ do
      catalog_check (ltb (length (scalar_end (b ∷ s))) (length (b ∷ s)))
      ok (scalar_end (b ∷ s))
  ]
]

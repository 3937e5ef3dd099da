-- ===== src/Coordinator/Splitter.antt =====
-- internal/coordinator/splitter.go. A Go string is its list of bytes, which is what it is indexed by.
pub mod Search
pub mod Halves
mod Tests
use Prim.Native.String.{◌++◌ as append}
use mlx_mesh.Base.{
  ℕ, zero, suc, ◌+◌, ◌-◌, ◌/◌, ◌&&◌, ◌||◌, Bool, true, false, Option, none, some, List, [], ◌∷◌,
  String, length, get_elem?, take, drop, ltb, leb, ◌==◌, if◌then◌else◌,
}

pub data SplitStrategy : Type 0 where
  paragraph_boundary sql_statement log_entry semantic_sentence fixed_token_count : SplitStrategy

abbrev pub Bytes : Type 0
Bytes = List ℕ

-- What the source calls of `strings`, of `crypto/sha256` and of the runtime: ToUpper, whether
-- TrimSpace leaves nothing, the number of runes, and the digest.
pub record Texts : Type 0 where
  pub to_upper : Bytes → Bytes
  pub is_blank : Bytes → Bool
  pub rune_count : Bytes → ℕ
  pub sha256_hex : Bytes → String

pub record DocumentSplit : Type 0 where
  pub split_id : String
  pub parent_job_id : String
  pub content : Bytes
  pub content_ref : String
  pub position : String
  pub token_estimate : ℕ
  pub split_strategy_used : SplitStrategy
  pub checksum : String

-- `strings.Contains`
unfoldable pub has_prefix : Bytes → Bytes → Bool
has_prefix [] s = true
has_prefix (p ∷ ps) [] = false
has_prefix (p ∷ ps) (b ∷ s) = b == p && has_prefix ps s

unfoldable pub contains : Bytes → Bytes → Bool
contains p [] = has_prefix p []
contains p (b ∷ s) = has_prefix p (b ∷ s) || contains p s

unfoldable pub contains_any : List Bytes → Bytes → Bool
contains_any [] s = false
contains_any (p ∷ ps) s = contains p s || contains_any ps s

-- "SELECT ", "INSERT ", "UPDATE ", "CREATE TABLE", "ALTER TABLE", "DROP "
abbrev pub sql_keywords : List Bytes
sql_keywords =
    (83 ∷ 69 ∷ 76 ∷ 69 ∷ 67 ∷ 84 ∷ 32 ∷ [])
    ∷ (73 ∷ 78 ∷ 83 ∷ 69 ∷ 82 ∷ 84 ∷ 32 ∷ [])
    ∷ (85 ∷ 80 ∷ 68 ∷ 65 ∷ 84 ∷ 69 ∷ 32 ∷ [])
    ∷ (67 ∷ 82 ∷ 69 ∷ 65 ∷ 84 ∷ 69 ∷ 32 ∷ 84 ∷ 65 ∷ 66 ∷ 76 ∷ 69 ∷ [])
    ∷ (65 ∷ 76 ∷ 84 ∷ 69 ∷ 82 ∷ 32 ∷ 84 ∷ 65 ∷ 66 ∷ 76 ∷ 69 ∷ [])
    ∷ (68 ∷ 82 ∷ 79 ∷ 80 ∷ 32 ∷ [])
    ∷ []

-- " ERROR ", " WARN ", " INFO ", " DEBUG "
abbrev pub log_levels : List Bytes
log_levels =
    (32 ∷ 69 ∷ 82 ∷ 82 ∷ 79 ∷ 82 ∷ 32 ∷ [])
    ∷ (32 ∷ 87 ∷ 65 ∷ 82 ∷ 78 ∷ 32 ∷ [])
    ∷ (32 ∷ 73 ∷ 78 ∷ 70 ∷ 79 ∷ 32 ∷ [])
    ∷ (32 ∷ 68 ∷ 69 ∷ 66 ∷ 85 ∷ 71 ∷ 32 ∷ [])
    ∷ []

-- `content[i] == b`, where an index out of range fails the bound that the source tests first.
unfoldable pub byte_at : ℕ → Bytes → ℕ → Bool
byte_at b content i = elim (get_elem? content i) [ none ↦ false | some c ↦ c == b ]

-- The loop over `delta`, for the rounds that are left: first above the middle, then below.
unfoldable pub nearest : (ℕ → Bool) → ℕ → ℕ → ℕ → Option ℕ
nearest hit mid zero delta = none
nearest hit mid (suc rounds) delta =
    let rest = nearest hit mid rounds (suc delta) in
    if hit (mid + delta)
    then some (mid + delta)
    else if leb delta mid && hit (mid - delta)
    then some (mid - delta)
    else rest

-- The offset behind what was found.
unfoldable pub behind : ℕ → ℕ → Option ℕ → ℕ
behind mid width none = mid
behind mid width (some i) = i + width

unfoldable pub nearest_sql_boundary : Bytes → ℕ → ℕ
nearest_sql_boundary content mid =
    behind mid 1 (nearest (byte_at 59 content) mid (length content / 2) 0)

unfoldable pub nearest_line_boundary : Bytes → ℕ → ℕ
nearest_line_boundary content mid =
    behind mid 1 (nearest (byte_at 10 content) mid (length content / 2) 0)

unfoldable pub is_paragraph_end : Bytes → ℕ → Bool
is_paragraph_end content i = byte_at 10 content i && byte_at 10 content (i + 1)

unfoldable pub nearest_paragraph_boundary : Bytes → ℕ → ℕ
nearest_paragraph_boundary content mid =
    elim (nearest (is_paragraph_end content) mid (length content / 2 - 1) 0) [
      | none ↦ nearest_line_boundary content mid
      | some i ↦ i + 2
    ]

-- '.', '!' or '?' before a space, and not at the start.
unfoldable pub is_sentence_end : Bytes → ℕ → Bool
is_sentence_end content i =
    leb 1 i
    && ((byte_at 46 content i || byte_at 33 content i || byte_at 63 content i)
        && byte_at 32 content (i + 1))

unfoldable pub nearest_sentence_boundary : Bytes → ℕ → ℕ
nearest_sentence_boundary content mid =
    behind mid 2 (nearest (is_sentence_end content) mid (length content / 2 - 1) 0)

unfoldable pub find_midpoint : Bytes → SplitStrategy → ℕ
find_midpoint content strategy =
    let mid = length content / 2 in
    if mid == 0 then 0 else elim strategy [
      | sql_statement ↦ nearest_sql_boundary content mid
      | log_entry ↦ nearest_line_boundary content mid
      | paragraph_boundary ↦ nearest_paragraph_boundary content mid
      | semantic_sentence ↦ nearest_sentence_boundary content mid
      | fixed_token_count ↦ nearest_sentence_boundary content mid
    ]

pub data SplitError : Type 0 where
  unsupported_splits empty_content too_short : SplitError

pub data SplitResult : Type 0 where
  split_error : SplitError → SplitResult
  halves : DocumentSplit → DocumentSplit → SplitResult

module _ (texts : Texts) where
  open texts use {to_upper, is_blank, rune_count, sha256_hex}

  unfoldable pub detect_split_strategy : Bytes → SplitStrategy
  detect_split_strategy content =
      let prefix = take 512 content in
      if contains_any sql_keywords (to_upper prefix)
      then sql_statement
      else if contains_any log_levels prefix
      then log_entry
      else if contains (10 ∷ 10 ∷ []) content
      then paragraph_boundary
      else semantic_sentence

  unfoldable pub estimate_tokens : Bytes → ℕ
  estimate_tokens content =
      let n = rune_count content in
      if n == 0 then 0 else let est = n / 4 in if ltb est 1 then 1 else est

  unfoldable pub half : String → String → SplitStrategy → Bytes → DocumentSplit
  half parent side strategy content = record {
    split_id = append parent (append "-split-" side);
    parent_job_id = parent;
    content = content;
    content_ref = append "mem://" (append parent (append "/" side));
    position = side;
    token_estimate = estimate_tokens content;
    split_strategy_used = strategy;
    checksum = sha256_hex content;
  }

  -- Where `SplitDocument` cuts: a midpoint at an end gives way to the middle.
  unfoldable pub cut_of : Bytes → ℕ
  cut_of content =
      let mid = find_midpoint content (detect_split_strategy content) in
      if leb mid 0 || leb (length content) mid then length content / 2 else mid

  unfoldable pub split_document : Bytes → String → ℕ → SplitResult
  split_document content parent max_splits =
      let strategy = detect_split_strategy content in
      let mid = cut_of content in
      if max_splits == 2
      then (if is_blank content
          then split_error empty_content
          else if ltb (length content) 64
          then split_error too_short
          else halves (half parent "left" strategy (take mid content))
              (half parent "right" strategy (drop mid content)))
      else split_error unsupported_splits

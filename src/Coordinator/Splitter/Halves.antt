-- ===== src/Coordinator/Splitter/Halves.antt =====
-- What `SplitDocument` returns.
use mlx_mesh.Base.{
  ℕ, ◌≤◌, ◌<◌, ◌≡◌, ◌≢◌, refl, inl, inr, true, false, ◌++◌, length, take, drop, String,
  length-append, append-take-drop, length-take, ltb, ◌==◌, arith, Bool-cases,
}
use mlx_mesh.Coordinator.Splitter.{
  Bytes, Texts, DocumentSplit, SplitResult, split_error, halves, unsupported_splits, empty_content,
  too_short, half, cut_of, detect_split_strategy, split_document,
}

-- The cut is inside the content.
cut_of-within :
    (texts : Texts) (content : Bytes)
    → 2 ≤ length content
    → (0 < cut_of texts content) × (cut_of texts content < length content)
unfolding cut_of
cut_of-within texts content h = ground arith

-- The two halves of a document, in order and without loss.
pub record IsHalved (content : Bytes) (parent : String) (left right : DocumentSplit) : Type 0 where
  pub nothing_lost : left.content ++ right.content ≡ content
  pub left_some : 0 < length left.content
  pub right_some : 0 < length right.content
  pub positions : (left.position ≡ "left") × (right.position ≡ "right")
  pub parents : (left.parent_job_id ≡ parent) × (right.parent_job_id ≡ parent)

-- Every outcome of a call, and when each of them comes: an error of its own for anything but two
-- splits, for blank content and for content below 64 bytes, and otherwise two halves, neither of them
-- empty, which together are the content.
abbrev pub IsSplit : Texts → Bytes → String → ℕ → SplitResult → Type 0
IsSplit texts content parent n (split_error unsupported_splits) = n ≢ 2
IsSplit texts content parent n (split_error empty_content) =
    (n ≡ 2) × (texts.is_blank content ≡ true)
IsSplit texts content parent n (split_error too_short) =
    (n ≡ 2) × (texts.is_blank content ≡ false) × (length content < 64)
IsSplit texts content parent n (halves left right) =
    (n ≡ 2)
    × (texts.is_blank content ≡ false)
    × (64 ≤ length content)
    × IsHalved content parent left right

half_fields :
    (texts : Texts) (content : Bytes) (parent : String)
    → 64 ≤ length content
    → let strategy = detect_split_strategy texts content in
      let mid = cut_of texts content in
      IsHalved content parent
        (half texts parent "left" strategy (take mid content))
        (half texts parent "right" strategy (drop mid content))
unfolding half
half_fields texts content parent h =
    let (some_left, some_right) = cut_of-within texts content (omega arith) in
    let mid = cut_of texts content in
    let left : length (take mid content) ≡ mid = length-take mid content (omega arith) in
    let all : length (take mid content ++ drop mid content) ≡ length content =
      rw (append-take-drop mid content) in
    record {
      nothing_lost = append-take-drop mid content;
      left_some = omega arith;
      right_some = omega (arith, length-append (take mid content) (drop mid content));
      positions = (refl, refl);
      parents = (refl, refl);
    }

-- Splitting a document either gives two halves that are not empty and together are the content, left
-- before right, or the error for the first of the conditions that fails: two splits, content that is
-- not blank, at least 64 bytes.
pub split_document-IsSplit :
    (texts : Texts) (content : Bytes) (parent : String) (n : ℕ)
    → IsSplit texts content parent n (split_document texts content parent n)
unfolding split_document
split_document-IsSplit texts content parent n = elim (Bool-cases (n == 2)) [
  | inr other ↦ rw (other, split_document) (ground arith)
  | inl two ↦ elim (Bool-cases (texts.is_blank content)) [
    | inl blank ↦ rw (two, blank, split_document) (ground arith, blank)
    | inr text ↦ elim (Bool-cases (ltb (length content) 64)) [
      | inl short ↦ rw (two, text, short, split_document) (ground arith, text, ground arith)
      | inr long ↦
          (let enough : 64 ≤ length content = ground arith in
            rw (two, text, long, split_document)
              (ground arith, text, enough, half_fields texts content parent enough))
    ]
  ]
]

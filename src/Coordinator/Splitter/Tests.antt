-- ===== src/Coordinator/Splitter/Tests.antt =====
-- A document cut at the end of a line.
use mlx_mesh.Base.{◌≡◌, refl, false, [], ◌∷◌, ◌++◌, length, arith}
use mlx_mesh.Coordinator.Splitter.{
  Bytes, Texts, log_entry, byte_at, nearest, behind, nearest_line_boundary, find_midpoint,
  split_document,
}
use mlx_mesh.Coordinator.Splitter.Search.{IsCut, find_midpoint-IsCut}
use mlx_mesh.Coordinator.Splitter.Halves.{IsSplit, split_document-IsSplit}

-- Ten letters and the end of a line.
abbrev line : Bytes
line = 65 ∷ 66 ∷ 67 ∷ 68 ∷ 69 ∷ 70 ∷ 71 ∷ 72 ∷ 73 ∷ 74 ∷ 10 ∷ []

abbrev document : Bytes
document = line ++ line ++ line ++ line ++ line ++ line ++ line

abbrev ascii : Texts
ascii = record {
  to_upper = λ s. s;
  is_blank = λ _. false;
  rune_count = length;
  sha256_hex = λ _. "digest";
}

-- Of the ends at 32 and 43, the nearer to 38.
cut_document : find_midpoint document log_entry ≡ 44
unfolding find_midpoint nearest_line_boundary behind nearest byte_at
cut_document = refl

find_midpoint-IsCut_example : IsCut document 38 (find_midpoint document log_entry) log_entry
find_midpoint-IsCut_example = find_midpoint-IsCut document log_entry (omega arith)

split_document-IsSplit_example :
    IsSplit ascii document "job" 2 (split_document ascii document "job" 2)
split_document-IsSplit_example = split_document-IsSplit ascii document "job" 2

-- ===== src/Tests/Knowledge.antt =====
-- The division of small documents.
use super_agent_platform.Base.{
  ℕ, ◌≤◌, ◌<◌, String, ◌≡◌, refl, ◌↔◌, ◌⊎◌, true, some, List, [], ◌∷◌, arith, any, All,
}
use super_agent_platform.Knowledge.Chunker.{windows, Chunk, chunk_text}
use super_agent_platform.Knowledge.Chunker.Windows.{
  has_position, windows_cover, windows_terminate_iff, Fits,
}
use super_agent_platform.Knowledge.Chunker.Numbering.{IsNumbered, chunk_text-IsNumbered}

three_windows : windows 9 4 1 8 0 ≡ some ((0, 4) ∷ ((3, 7) ∷ ((6, 8) ∷ [])))
unfolding windows
three_windows = refl

windows_cover_example :
    All (Fits 4 8) ((0, 4) ∷ ((3, 7) ∷ ((6, 8) ∷ [])))
    × ((i : ℕ) → i < 8 → any (has_position i) ((0, 4) ∷ ((3, 7) ∷ ((6, 8) ∷ []))) ≡ true)
windows_cover_example = windows_cover 4 1 8 9 ((0, 4) ∷ ((3, 7) ∷ ((6, 8) ∷ []))) three_windows

windows_terminate_iff_example :
    ((fuel : ℕ) × (ws : List (ℕ × ℕ)) × (windows fuel 4 1 8 0 ≡ some ws)) ↔ ((1 < 4) ⊎ (8 ≤ 4))
windows_terminate_iff_example = windows_terminate_iff 4 1 8

-- The replacements of the test keep the text.
abbrev keep : String → String → String → String
keep pattern replacement t = t

chunk_text-IsNumbered_example :
    (chunks : List Chunk) × (chunk_text keep "abcdefgh" 4 1 "doc" ≡ some chunks) × IsNumbered chunks
chunk_text-IsNumbered_example = chunk_text-IsNumbered keep "abcdefgh" "doc" 4 1 (omega arith)

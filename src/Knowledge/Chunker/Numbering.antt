-- ===== src/Knowledge/Chunker/Numbering.antt =====
-- The numbers that `chunk_text` of core/services/document_chunker.py gives to its chunks.
use super_agent_platform.Base.{
  ℕ, zero, suc, ◌+◌, ◌<◌, String, ◌≡◌, refl, sym, ap, ◌∙◌, subst, inl, inr, some, List, [], ◌∷◌,
  arith, ◌==◌, Bool-cases, some_injective, length, get_elem?, ℕ_eq, String_eq,
}
use super_agent_platform.Knowledge.Chunker.{
  Chunk, chars, chunk_bodies, numbered, normalize_text, chunk_text,
}
use super_agent_platform.Knowledge.Chunker.Windows.{windows-enough}

length-numbered :
    (source_name : String) (total index : ℕ) (xs : List String)
    → length (numbered source_name total index xs) ≡ length xs
unfolding numbered
length-numbered source_name total index [] = refl
length-numbered source_name total index (x ∷ xs) =
    ap suc (length-numbered source_name total (suc index) xs)

-- The number of a chunk, and of all chunks.
abbrev pub IsNumbered : List Chunk → Type 0
IsNumbered chunks =
    (i : ℕ) (c : Chunk)
    → get_elem? chunks i ≡ some c
    → (c.chunk_index ≡ i) × (c.total_chunks ≡ length chunks)

numbered_lem :
    (source_name : String) (total index : ℕ) (xs : List String) (i : ℕ) (c : Chunk)
    → get_elem? (numbered source_name total index xs) i ≡ some c
    → (c.chunk_index ≡ index + i) × (c.total_chunks ≡ total)
unfolding numbered
numbered_lem source_name total index [] i c h = absurd (ground arith)
numbered_lem source_name total index (x ∷ xs) zero c h =
    subst (λ (d : Chunk). (d.chunk_index ≡ index + 0) × (d.total_chunks ≡ total)) (some_injective h)
      (omega arith, refl)
numbered_lem source_name total index (x ∷ xs) (suc i) c h =
    let (at, all_of) = numbered_lem source_name total (suc index) xs i c h in (omega arith, all_of)

module _ (sub : String → String → String → String) where
  -- With an overlap smaller than the chunk size `chunk_text` returns, and its chunks are numbered
  -- from 0 in their order, each with the number of all of them.
  pub chunk_text-IsNumbered :
      (t source_name : String) (chunk_size overlap : ℕ)
      → overlap < chunk_size
      → (chunks : List Chunk) × (chunk_text sub t chunk_size overlap source_name ≡ some chunks)
        × IsNumbered chunks
  unfolding chunk_text
  chunk_text-IsNumbered t source_name chunk_size overlap small =
      let normalized = normalize_text sub t in
      let (ws, same) =
        windows-enough chunk_size overlap (chars normalized) (suc (chars normalized)) 0 small
          (omega arith) in
      let xs = chunk_bodies normalized ws in
      elim (Bool-cases (normalized == "")) [
        | inl empty ↦ rw (empty, chunk_text) ([], refl, λ i c h. absurd (ground arith))
        | inr full ↦
            rw (full, chunk_text)
              (rw same (
                numbered source_name (length xs) 0 xs,
                refl,
                λ i c h.
                    let (at, all_of) = numbered_lem source_name (length xs) 0 xs i c h in
                    (omega arith, all_of ∙ sym (length-numbered source_name (length xs) 0 xs)),
              ))
      ]

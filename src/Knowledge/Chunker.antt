-- ===== src/Knowledge/Chunker.antt =====
-- The sliding window over a document: `chunk_text` of core/services/document_chunker.py.
use super_agent_platform.Base.{
  strip, ℕ, zero, suc, ◌+◌, ◌-◌, min, String, Option, none, some, List, [], ◌∷◌, leb, ◌==◌,
  if◌then◌else◌, length, chars, drop_chars, take_chars, ℕ_eq, String_eq,
}
pub mod Windows
pub mod Numbering

-- A chunk with its place in the document.
pub record Chunk : Type 0 where
  pub text : String
  pub source : String
  pub chunk_index : ℕ
  pub total_chunks : ℕ

-- `s[start:end]`
abbrev pub slice : ℕ → ℕ → String → String
slice start stop t = take_chars (stop - start) (drop_chars start t)

-- The windows that the loop visits, the first at `start`: `none` where the fuel, which the loop
-- does not have, runs out. A subtraction stops at 0, as `max(end - overlap, 0)` does.
unfoldable pub windows : ℕ → ℕ → ℕ → ℕ → ℕ → Option (List (ℕ × ℕ))
windows zero chunk_size overlap total start = none
windows (suc fuel) chunk_size overlap total start =
    let stop = min (start + chunk_size) total in
    let rest = windows fuel chunk_size overlap total (stop - overlap) in
    if leb total start
    then some []
    else if leb total stop
    then some ((start, stop) ∷ [])
    else (elim rest [ none ↦ none | some ws ↦ some ((start, stop) ∷ ws) ])

-- The stripped texts of windows that are not blank.
unfoldable pub chunk_bodies : String → List (ℕ × ℕ) → List String
chunk_bodies normalized [] = []
chunk_bodies normalized ((start, stop) ∷ ws) =
    let rest = chunk_bodies normalized ws in
    let chunk = strip (slice start stop normalized) in if chunk == "" then rest else chunk ∷ rest

unfoldable pub numbered : String → ℕ → ℕ → List String → List Chunk
numbered source_name total index [] = []
numbered source_name total index (chunk ∷ chunks) =
    record { text = chunk; source = source_name; chunk_index = index; total_chunks = total }
    ∷ numbered source_name total (suc index) chunks

-- `sub` is `re.sub` by pattern, replacement and text.
module _ (sub : String → String → String → String) where
  -- `_normalize_text`
  unfoldable pub normalize_text : String → String
  normalize_text t = strip (sub "\\n{3,}" "\n\n" (sub "[ \\t]+" " " (sub "\\r\\n?" "\n" t)))

  -- `chunk_text`, with as much fuel as the text has characters, and one more.
  unfoldable pub chunk_text : String → ℕ → ℕ → String → Option (List Chunk)
  unfolding windows chunk_bodies numbered normalize_text
  chunk_text t chunk_size overlap source_name =
      let normalized = normalize_text t in
      if normalized == ""
      then some []
      else elim (windows (suc (chars normalized)) chunk_size overlap (chars normalized) 0) [
        | none ↦ none
        | some ws ↦
            let chunks = chunk_bodies normalized ws in
            some (numbered source_name (length chunks) 0 chunks)
      ]

-- ===== src/Knowledge/Chunker/Windows.antt =====
-- The windows of core/services/document_chunker.py.
use super_agent_platform.Base.{
  ℕ, zero, suc, ◌+◌, ◌-◌, ◌≤◌, ◌<◌, min, ◌≡◌, refl, sym, ◌∙◌, ◌↔◌, ◌⊎◌, inl, inr, Bool, true, false,
  ◌&&◌, none, some, List, [], ◌∷◌, arith, ltb, leb, Bool-cases, le→leb, Option-cases,
  some_injective, any, All,
}
use super_agent_platform.Knowledge.Chunker.{windows}

-- A position in a window.
abbrev pub has_position : ℕ → ℕ × ℕ → Bool
has_position i (start, stop) = leb start i && ltb i stop

-- A window of at most the size, within the text.
abbrev pub Fits : ℕ → ℕ → ℕ × ℕ → Type 0
Fits chunk_size total (start, stop) = (start ≤ stop) × (stop ≤ start + chunk_size) × (stop ≤ total)

leb-false : (a b : ℕ) → b < a → leb a b ≡ false
leb-false a b h = ground arith

module _ (chunk_size overlap total : ℕ) where
  pub windows-enough :
      (fuel start : ℕ)
      → overlap < chunk_size
      → total - start < fuel
      → (ws : List (ℕ × ℕ)) × (windows fuel chunk_size overlap total start ≡ some ws)
  unfolding windows
  windows-enough zero start small enough = absurd (omega arith)
  windows-enough (suc fuel) start small enough =
      let stop = min (start + chunk_size) total in
      elim (Bool-cases (leb total start)) [
        | inl over ↦ rw (over, windows) ([], refl)
        | inr inside ↦ elim (Bool-cases (leb total stop)) [
          | inl last ↦ rw (inside, windows) (rw last ((start, stop) ∷ [], refl))
          | inr more ↦
              let (ws, same) = windows-enough fuel (stop - overlap) small (ground arith) in
              rw (inside, windows) (rw more (rw same ((start, stop) ∷ ws, refl)))
        ]
      ]

  windows-stuck :
      (fuel : ℕ)
      → chunk_size ≤ overlap
      → chunk_size < total
      → windows fuel chunk_size overlap total 0 ≡ none
  unfolding windows
  windows-stuck zero wide long = refl
  windows-stuck (suc fuel) wide long = rw (leb-false total 0 (omega arith)) (
      rw (leb-false total (min (0 + chunk_size) total) (omega arith))
        (rw (back (omega arith)) (rw (windows-stuck fuel wide long) refl)))
    where
      back : min (0 + chunk_size) total ≤ overlap → min (0 + chunk_size) total - overlap ≡ 0
      back h = omega arith

  -- What one round gives: no window, the last one, or one before the others.
  windows-cases :
      (fuel start : ℕ) (ws : List (ℕ × ℕ))
      → windows (suc fuel) chunk_size overlap total start ≡ some ws
      → let stop = min (start + chunk_size) total in
        ((total ≤ start) × (ws ≡ []))
        ⊎ ((start < total) × (stop ≡ total) × (ws ≡ (start, stop) ∷ []))
        ⊎ ((start < total)
            × (stop < total)
            × (rest : List (ℕ × ℕ)) × (windows fuel chunk_size overlap total (stop - overlap)
                ≡ some rest)
            × (ws ≡ (start, stop) ∷ rest))
  unfolding windows
  windows-cases fuel start ws h =
      let stop = min (start + chunk_size) total in
      let next = windows fuel chunk_size overlap total (stop - overlap) in
      elim (Bool-cases (leb total start)) [
        | inl a ↦
            let e : windows (suc fuel) chunk_size overlap total start ≡ some [] =
              rw (a, windows) refl in
            inl (ground arith, some_injective (sym h ∙ e))
        | inr b ↦ elim (Bool-cases (leb total stop)) [
          | inl c ↦
              let e : windows (suc fuel) chunk_size overlap total start
                  ≡ some ((start, stop) ∷ []) =
                rw (b, windows) (rw c refl) in
              inr (inl (ground arith, ground arith, some_injective (sym h ∙ e)))
          | inr d ↦ elim (Option-cases next) [
            | inl missing ↦
                let e : windows (suc fuel) chunk_size overlap total start ≡ none =
                  rw (b, windows) (rw d (rw missing refl)) in
                absurd (ground (arith, sym h ∙ e))
            | inr (rest, found) ↦
                let e : windows (suc fuel) chunk_size overlap total start
                    ≡ some ((start, stop) ∷ rest) =
                  rw (b, windows) (rw d (rw found refl)) in
                inr (inr (ground arith, ground arith, rest, found, some_injective (sym h ∙ e)))
          ]
        ]
      ]

  windows-short :
      total ≤ chunk_size → (ws : List (ℕ × ℕ)) × (windows 1 chunk_size overlap total 0 ≡ some ws)
  unfolding windows
  windows-short short = elim (Bool-cases (leb total 0)) [
    | inl over ↦ rw (over, windows) ([], refl)
    | inr inside ↦
        rw (inside, windows)
          (rw (le→leb total (min (0 + chunk_size) total) (omega arith))
            ((0, min (0 + chunk_size) total) ∷ [], refl))
  ]

  windows-covers :
      (fuel start i : ℕ) (ws : List (ℕ × ℕ))
      → windows fuel chunk_size overlap total start ≡ some ws
      → start ≤ i
      → i < total
      → any (has_position i) ws ≡ true
  unfolding windows
  windows-covers zero start i ws h low high = absurd (ground arith)
  windows-covers (suc fuel) start i ws h low high = elim (windows-cases fuel start ws h) [
    | inl (over, same) ↦ absurd (omega arith)
    | inr (inl (inside, end_here, same)) ↦ rw same (ground arith)
    | inr (inr (inside, more, rest, found, same)) ↦ rw same (
        ground (arith, windows-covers fuel (min (start + chunk_size) total - overlap) i rest found))
  ]

  windows-Fits :
      (fuel start : ℕ) (ws : List (ℕ × ℕ))
      → windows fuel chunk_size overlap total start ≡ some ws
      → All (Fits chunk_size total) ws
  unfolding windows
  windows-Fits zero start ws h = absurd (ground arith)
  windows-Fits (suc fuel) start ws h = elim (windows-cases fuel start ws h) [
    | inl (over, same) ↦ rw same tt
    | inr (inl (inside, end_here, same)) ↦ rw same ((omega arith, omega arith, omega arith), tt)
    | inr (inr (inside, more, rest, found, same)) ↦ rw same (
      (omega arith, omega arith, omega arith),
      windows-Fits fuel (min (start + chunk_size) total - overlap) rest found,
    )
  ]

  -- Where the loop over a text ends, its windows are within the text and of at most the chunk size,
  -- and every position of the text is in one of them.
  pub windows_cover :
      (fuel : ℕ) (ws : List (ℕ × ℕ))
      → windows fuel chunk_size overlap total 0 ≡ some ws
      → All (Fits chunk_size total) ws × ((i : ℕ) → i < total → any (has_position i) ws ≡ true)
  windows_cover fuel ws h =
      (windows-Fits fuel 0 ws h, λ i inside. windows-covers fuel 0 i ws h (omega arith) inside)

  -- The loop over a text ends exactly when the overlap is smaller than the chunk size or the text
  -- is no longer than one chunk.
  pub windows_terminate_iff :
      ((fuel : ℕ) × (ws : List (ℕ × ℕ)) × (windows fuel chunk_size overlap total 0 ≡ some ws))
      ↔ ((overlap < chunk_size) ⊎ (total ≤ chunk_size))
  windows_terminate_iff = (
    ends→short,
    λ h. elim h [
      | inl small ↦
          (let (ws, same) = windows-enough (suc total) 0 small (omega arith) in
            (suc total, ws, same))
      | inr short ↦ (let (ws, same) = windows-short short in (1, ws, same))
    ],
  )
    where
      ends→short :
          ((fuel : ℕ) × (ws : List (ℕ × ℕ)) × (windows fuel chunk_size overlap total 0 ≡ some ws))
          → (overlap < chunk_size) ⊎ (total ≤ chunk_size)
      ends→short (fuel, ws, h) = elim (Bool-cases (ltb overlap chunk_size)) [
        | inl small ↦ inl (ground arith)
        | inr wide ↦ elim (Bool-cases (leb total chunk_size)) [
          | inl short ↦ inr (ground arith)
          | inr long ↦ absurd (ground (arith, windows-stuck fuel (ground arith) (ground arith)))
        ]
      ]

-- ===== src/Download/Stream/Between.antt =====
-- The part of the chunks' concatenation between two bytes, and what one chunk adds to it
-- (`streamRange` of internal/server/handlers_download.go).
use mathlib.Core.Path.{ap₂}
use vault_drift.Common.{
  ℕ, suc, zero, ◌+◌, ◌-◌, ◌≤◌, ◌<◌, ◌≡◌, refl, sym, ap, ◌∙◌, true, false, List, [], ◌++◌, length,
  take, drop, leb, ltb, arith, take-within, take-past, take-all, drop-within, drop-past,
  length-drop, length-take, if◌then◌else◌,
}
use vault_drift.Download.Stream.{slice_of, is_outside}

-- The bytes from `start` to `end` of what begins at `offset`.
abbrev pub between : ℕ → ℕ → ℕ → List ℕ → List ℕ
between start end offset bytes =
    take (end + 1 - (offset + (start - offset))) (drop (start - offset) bytes)

module _ {start end : ℕ} (ordered : start ≤ end) where
  -- A chunk outside the range adds nothing.
  pub between-outside :
      (offset : ℕ) (bytes rest : List ℕ)
      → offset ≤ end
      → is_outside start end offset bytes ≡ true
      → between start end offset (bytes ++ rest) ≡ between start end (offset + length bytes) rest
  unfolding is_outside
  between-outside offset bytes rest room h =
      let before : offset + length bytes ≤ start = ground arith in
      ap (λ xs. take (end + 1 - (offset + (start - offset))) xs)
        (drop-past (start - offset) bytes rest (omega arith))
      ∙ ap (λ k. take k (drop (start - offset - length bytes) rest)) (omega arith)
      ∙ ap
          (λ k.
            take (end + 1 - (offset + length bytes + (start - (offset + length bytes))))
              (drop k rest))
          (omega arith)

  -- A chunk in the range that reaches past its end.
  pub between-last :
      (offset : ℕ) (bytes rest : List ℕ)
      → offset ≤ end
      → is_outside start end offset bytes ≡ false
      → end + 1 ≤ offset + length bytes
      → between start end offset (bytes ++ rest) ≡ slice_of start end offset bytes
  unfolding is_outside slice_of
  between-last offset bytes rest room h past =
      let inside : start < offset + length bytes = ground arith in
      let k : ℕ = start - offset in
      let n : ℕ = end + 1 - (offset + k) in
      ap (take n) (drop-within k bytes rest (omega arith))
      ∙ take-within n (drop k bytes) rest (omega (arith, length-drop k bytes))
      ∙ ap₂ (λ m j. take m (drop j bytes)) (ground arith) (ground arith)

  -- A chunk in the range that ends before it does.
  pub between-inside :
      (offset : ℕ) (bytes rest : List ℕ)
      → is_outside start end offset bytes ≡ false
      → offset + length bytes ≤ end
      → between start end offset (bytes ++ rest)
        ≡ slice_of start end offset bytes ++ between start end (offset + length bytes) rest
  unfolding is_outside slice_of
  between-inside offset bytes rest h short =
      let inside : start < offset + length bytes = ground arith in
      let k : ℕ = start - offset in
      let n : ℕ = end + 1 - (offset + k) in
      let next : ℕ = offset + length bytes in
      let left : n - length (drop k bytes) ≡ end + 1 - (next + (start - next)) =
        omega (arith, length-drop k bytes) in
      let nothing : 0 ≡ start - next = omega arith in
      ap (take n) (drop-within k bytes rest (omega arith))
      ∙ take-past n (drop k bytes) rest (omega (arith, length-drop k bytes))
      ∙ ap₂ (λ xs ys. xs ++ ys)
          (sym (take-all (length bytes - k) (drop k bytes) (omega (arith, length-drop k bytes)))
            ∙ ap₂ (λ m j. take m (drop j bytes)) (ground arith) (ground arith))
          (ap₂ (λ m j. take m (drop j rest)) left nothing)

  -- How much of a chunk in the range is written.
  pub length-slice_of :
      (offset : ℕ) (bytes : List ℕ)
      → offset ≤ end
      → is_outside start end offset bytes ≡ false
      → (offset - start) + length (slice_of start end offset bytes)
        ≡ (if leb (end + 1) (offset + length bytes) then end + 1 else offset + length bytes) - start
  unfolding is_outside slice_of
  length-slice_of offset bytes room h =
      let j : ℕ = if ltb offset start then start - offset else 0 in
      let m : ℕ =
        (if ltb (end + 1) (offset + length bytes) then end - offset + 1 else length bytes) - j in
      let e : length (take m (drop j bytes)) ≡ m =
        length-take m (drop j bytes) (ground (arith, length-drop j bytes)) in
      ap (λ l. (offset - start) + l) e ∙ ground arith

  pub outside-before :
      (offset : ℕ) (bytes : List ℕ)
      → offset ≤ end
      → is_outside start end offset bytes ≡ true
      → offset + length bytes ≤ start
  unfolding is_outside
  outside-before offset bytes room h = ground arith

  pub meets-past :
      (offset : ℕ) (bytes : List ℕ)
      → is_outside start end offset bytes ≡ false
      → start < offset + length bytes
  unfolding is_outside
  meets-past offset bytes h = ground arith

pub take-drop_nil : (n k : ℕ) → take {A = ℕ} n (drop k []) ≡ []
take-drop_nil zero k = refl
take-drop_nil (suc n) zero = refl
take-drop_nil (suc n) (suc k) = refl

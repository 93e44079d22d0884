-- ===== src/Awt/Rows.antt =====
-- The row loops of the canvas in launch/awt.rs: every one of them writes `height` slices, each at
-- the start of the next row of a rectangle in a row-major buffer.
use native.Mathlib.Nat.{mul-le-mul_right}
use rc_launcher.Base.{
  ℕ, zero, suc, ◌+◌, ◌-◌, ◌*◌, ◌≤◌, ◌<◌, ◌≡◌, refl, sym, ap, ◌∙◌, ◌⊎◌, inl, inr, List, length,
  get_elem?, write_at, take, drop, length-write_at, get_elem?-write_at, get_elem?-write_at_before,
  get_elem?-write_at_after, arith,
}
use native.Mathlib.Decide.{dec_lt}

-- `&buf[start..start + count]`
abbrev pub slice {ℓ} : {A : Type ℓ} → List A → ℕ → ℕ → List A
slice buf start count = take count (drop start buf)

-- `for row in row..row + rows { buf[(y + row) * stride + x..].copy_from_slice(src(row)) }`
unfoldable pub write_rows {ℓ} : {A : Type ℓ} → (ℕ → List A) → ℕ → ℕ → ℕ → ℕ → ℕ → List A → List A
write_rows src stride x y zero row buf = buf
write_rows src stride x y (suc rows) row buf =
    write_rows src stride x y rows (row + 1) (write_at ((y + row) * stride + x) (src row) buf)

-- A cell of an earlier row stands before the start of a later one.
cell-lt : (py px row stride : ℕ) → py < row → px < stride → py * stride + px < row * stride
cell-lt py px row stride h k =
    let m : suc py * stride ≤ row * stride = mul-le-mul_right stride h in omega arith

module _ {ℓ} {A : Type ℓ} (src : ℕ → List A) (stride x y width : ℕ) where
  pub length-write_rows :
      (rows row : ℕ) (buf : List A) → length (write_rows src stride x y rows row buf) ≡ length buf
  unfolding write_rows
  length-write_rows zero row buf = refl
  length-write_rows (suc rows) row buf =
      length-write_rows rows (row + 1) (write_at ((y + row) * stride + x) (src row) buf)
      ∙ length-write_at ((y + row) * stride + x) (src row) buf

  module _ (fits : x + width ≤ stride) (px py : ℕ) (column : px < stride) where
    -- One row leaves every other cell alone.
    write_row_other :
        (row : ℕ) (buf : List A)
        → length (src row) ≡ width
        → (py ≡ y + row → (px < x) ⊎ (x + width ≤ px))
        → get_elem? (write_at ((y + row) * stride + x) (src row) buf) (py * stride + px)
          ≡ get_elem? buf (py * stride + px)
    write_row_other row buf l outside =
        let start : ℕ = (y + row) * stride + x in
        let cell : ℕ = py * stride + px in
        elim (dec_lt py (y + row)) [
          | yes p ↦
              get_elem?-write_at_before start (src row) buf cell
                (omega (arith, cell-lt py px (y + row) stride p column))
          | no p ↦ elim (dec_lt (y + row) py) [
            | yes q ↦
                let m : suc (y + row) * stride ≤ py * stride = mul-le-mul_right stride q in
                get_elem?-write_at_after start (src row) buf cell (omega arith)
            | no q ↦
                let e : py ≡ y + row = omega arith in
                let m : py * stride ≡ (y + row) * stride = ap (λ (t : ℕ). t * stride) e in
                elim (outside e) [
                  | inl before ↦ get_elem?-write_at_before start (src row) buf cell (omega arith)
                  | inr after ↦ get_elem?-write_at_after start (src row) buf cell (omega arith)
                ]
          ]
        ]

    -- A cell that is in none of the rows, or in none of the columns, keeps its value.
    pub write_rows_other :
        (rows row : ℕ) (buf : List A)
        → ((r : ℕ) → row ≤ r → r < row + rows → length (src r) ≡ width)
        → (px < x) ⊎ (x + width ≤ px) ⊎ (py < y + row) ⊎ (y + row + rows ≤ py)
        → get_elem? (write_rows src stride x y rows row buf) (py * stride + px)
          ≡ get_elem? buf (py * stride + px)
    unfolding write_rows
    write_rows_other zero row buf l o = refl
    write_rows_other (suc rows) row buf l o =
        let next = write_at ((y + row) * stride + x) (src row) buf in
        write_rows_other rows (row + 1) next (λ r h k. l r (omega arith) (omega arith))
          (omega arith)
        ∙ write_row_other row buf (l row (omega arith) (omega arith)) (λ e. omega arith)

    -- A cell inside holds the value of its row's slice.
    pub write_rows_inside :
        (rows row : ℕ) (buf : List A)
        → ((r : ℕ) → row ≤ r → r < row + rows → length (src r) ≡ width)
        → x ≤ px
        → px < x + width
        → y + row ≤ py
        → py < y + row + rows
        → py * stride + px < length buf
        → get_elem? (write_rows src stride x y rows row buf) (py * stride + px)
          ≡ get_elem? (src (py - y)) (px - x)
    unfolding write_rows
    write_rows_inside zero row buf l h₁ h₂ h₃ h₄ inside = absurd (omega arith)
    write_rows_inside (suc rows) row buf l h₁ h₂ h₃ h₄ inside =
        let next = write_at ((y + row) * stride + x) (src row) buf in
        elim (dec_lt (y + row) py) [
          | yes p ↦
              write_rows_inside rows (row + 1) next (λ r h k. l r (omega arith) (omega arith)) h₁ h₂
                (omega arith) (omega arith) (rw length-write_at inside)
          | no p ↦
              let e : py ≡ y + row = omega arith in
              let f : py - y ≡ row = omega arith in
              let m : py * stride ≡ (y + row) * stride = ap (λ (t : ℕ). t * stride) e in
              write_rows_other rows (row + 1) next (λ r h k. l r (omega arith) (omega arith))
                (omega arith)
              ∙ get_elem?-write_at ((y + row) * stride + x) (src row) buf (px - x)
                  (py * stride + px) (omega arith)
                  (omega (arith, l row (omega arith) (omega arith))) inside
              ∙ ap (λ (r : ℕ). get_elem? (src r) (px - x)) (sym f)
        ]

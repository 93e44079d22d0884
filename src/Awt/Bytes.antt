-- ===== src/Awt/Bytes.antt =====
-- `to_le_bytes` and `from_le_bytes` of the integers on the AWT wire (launch/awt.rs), over lists of
-- bytes. A read past the end gives 0 here; the code checks the length before it reads.
use rc_launcher.Base.{
  ℕ, zero, suc, ◌+◌, ◌*◌, ◌/◌, ◌%◌, ◌^◌, ◌<◌, ◌≡◌, refl, List, [], ◌∷◌, ◌++◌, length, arith,
}

module _ {ℓ} {A : Type ℓ} where
  abbrev pub get_or : List A → ℕ → A → A
  get_or [] i d = d
  get_or (x ∷ xs) zero d = x
  get_or (x ∷ xs) (suc i) d = get_or xs i d

abbrev pub All {ℓ} : {A : Type ℓ} → (A → Type 0) → List A → Type 0
All P [] = Unit
All P (x ∷ xs) = P x × All P xs

abbrev pub le16 : ℕ → List ℕ
le16 n = n % 256 ∷ n / 256 % 256 ∷ []

abbrev pub le32 : ℕ → List ℕ
le32 n = n % 256 ∷ n / 256 % 256 ∷ n / 65536 % 256 ∷ n / 16777216 % 256 ∷ []

abbrev pub u16_at : List ℕ → ℕ → ℕ
u16_at bytes o = get_or bytes o 0 + 256 * get_or bytes (suc o) 0

abbrev pub u32_of : ℕ → ℕ → ℕ → ℕ → ℕ
u32_of a b c d = a + 256 * b + 65536 * c + 16777216 * d

abbrev pub u32_at : List ℕ → ℕ → ℕ
u32_at bytes o =
    u32_of (get_or bytes o 0) (get_or bytes (suc o) 0) (get_or bytes (suc (suc o)) 0)
      (get_or bytes (suc (suc (suc o))) 0)

pub u16-le16 : (n : ℕ) → n < 65536 → n % 256 + 256 * (n / 256 % 256) ≡ n
u16-le16 n h = omega arith

pub u32-le32 :
    (n : ℕ)
    → n < 2 ^ 32
    → u32_of (n % 256) (n / 256 % 256) (n / 65536 % 256) (n / 16777216 % 256) ≡ n
u32-le32 n h = omega arith

-- The loop over `chunks(4)`, for a length that is a multiple of 4.
abbrev pub words_of : List ℕ → List ℕ
words_of (a ∷ b ∷ c ∷ d ∷ rest) = u32_of a b c d ∷ words_of rest
words_of _ = []

abbrev pub bytes_of : List ℕ → List ℕ
bytes_of [] = []
bytes_of (w ∷ ws) = le32 w ++ bytes_of ws

pub length-bytes_of : (ws : List ℕ) → length (bytes_of ws) ≡ length ws * 4
length-bytes_of [] = refl
length-bytes_of (w ∷ ws) = omega (arith, length-bytes_of ws)

pub words_of-bytes_of : (ws : List ℕ) → All (λ w. w < 2 ^ 32) ws → words_of (bytes_of ws) ≡ ws
words_of-bytes_of [] h = refl
words_of-bytes_of (w ∷ ws) h = cc (u32-le32 w h.0, words_of-bytes_of ws h.1)

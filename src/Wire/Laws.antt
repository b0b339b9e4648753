-- ===== src/Wire/Laws.antt =====
-- Fields that were written read back, and fields that were read are what the writers write.
use muti.Common.{
  ℕ, zero, suc, ◌*◌, ◌%◌, ◌^◌, ◌<◌, ◌≡◌, refl, sym, ap, ap₂, ◌∙◌, subst, List, [], ◌∷◌, ◌++◌,
  append_assoc, ok, All, length, length-append, arith, >>=-eq-ok,
}
use muti.Wire.{
  Bytes, IsByte, read_u8, read_u16, read_u32, sign_extend8, read_bytes, read_words, u16_bytes,
  u32_bytes, words_bytes,
}

-- `a` was read off `buf`, all but `rest`, and `written` is what was read.
pub record Took {ℓ} {A : Type ℓ} (written : A → Bytes) (buf : Bytes) (a : A) (rest : Bytes)
    : Type ℓ where
  pub split : buf ≡ written a ++ rest
  pub left : All IsByte rest

-- Two reads in a row.
pub joined :
    (a b rest : Bytes) {buf buf₁ : Bytes}
    → buf ≡ a ++ buf₁
    → buf₁ ≡ b ++ rest
    → buf ≡ (a ++ b) ++ rest
joined a b rest e f = e ∙ ap (λ x. a ++ x) f ∙ sym (append_assoc a b rest)

pub read_u16-u16_bytes :
    (n : ℕ) (rest : Bytes) → n < 2 ^ 16 → read_u16 (u16_bytes n ++ rest) ≡ ok (n, rest)
unfolding read_u16 u16_bytes
read_u16-u16_bytes n rest h = ground arith

pub read_u32-u32_bytes :
    (n : ℕ) (rest : Bytes) → n < 2 ^ 32 → read_u32 (u32_bytes n ++ rest) ≡ ok (n, rest)
unfolding read_u32 u32_bytes
read_u32-u32_bytes n rest h = ground arith

pub read_bytes-append : (bs rest : Bytes) → read_bytes (length bs) (bs ++ rest) ≡ ok (bs, rest)
unfolding read_bytes
read_bytes-append [] rest = refl
read_bytes-append (b ∷ bs) rest = rw (read_bytes-append bs rest)

pub read_words-words_bytes :
    (ws : List ℕ) (rest : Bytes)
    → All (λ w. w < 2 ^ 32) ws
    → read_words (length ws) (words_bytes ws ++ rest) ≡ ok (ws, rest)
unfolding read_words words_bytes
read_words-words_bytes [] rest h = refl
read_words-words_bytes (w ∷ ws) rest h = rw (
  append_assoc,
  read_u32-u32_bytes w (words_bytes ws ++ rest) h.0,
  read_words-words_bytes ws rest h.1,
)

-- At a count that is the length.
pub read_bytes_of :
    (n : ℕ) (bs rest : Bytes) → length bs ≡ n → read_bytes n (bs ++ rest) ≡ ok (bs, rest)
read_bytes_of n bs rest e =
    subst (λ k. read_bytes k (bs ++ rest) ≡ ok (bs, rest)) e (read_bytes-append bs rest)

pub read_words_of :
    (n : ℕ) (ws : List ℕ) (rest : Bytes)
    → length ws ≡ n
    → All (λ w. w < 2 ^ 32) ws
    → read_words n (words_bytes ws ++ rest) ≡ ok (ws, rest)
read_words_of n ws rest e h =
    subst (λ k. read_words k (words_bytes ws ++ rest) ≡ ok (ws, rest)) e
      (read_words-words_bytes ws rest h)

pub length-u16_bytes : (n : ℕ) → length (u16_bytes n) ≡ 2
unfolding u16_bytes
length-u16_bytes n = refl

pub length-u32_bytes : (n : ℕ) → length (u32_bytes n) ≡ 4
unfolding u32_bytes
length-u32_bytes n = refl

pub length-words_bytes : (ws : List ℕ) → length (words_bytes ws) ≡ 4 * length ws
unfolding words_bytes
length-words_bytes [] = refl
length-words_bytes (w ∷ ws) =
    omega (
      arith,
      length-append (u32_bytes w) (words_bytes ws),
      length-u32_bytes w,
      length-words_bytes ws,
    )

pub read_u16-Took :
    (buf : Bytes) (n : ℕ) (rest : Bytes)
    → All IsByte buf
    → read_u16 buf ≡ ok (n, rest)
    → (n < 2 ^ 16) × Took u16_bytes buf n rest
unfolding read_u16 u16_bytes
read_u16-Took [] n rest h e = cc
read_u16-Took (b0 ∷ []) n rest h e = cc
read_u16-Took (b0 ∷ b1 ∷ bs) n rest h e =
    (ground arith, record { split = ground arith; left = subst (All IsByte) (ground arith) h.1.1 })

pub read_u32-Took :
    (buf : Bytes) (n : ℕ) (rest : Bytes)
    → All IsByte buf
    → read_u32 buf ≡ ok (n, rest)
    → (n < 2 ^ 32) × Took u32_bytes buf n rest
unfolding read_u32 u32_bytes
read_u32-Took [] n rest h e = cc
read_u32-Took (b0 ∷ []) n rest h e = cc
read_u32-Took (b0 ∷ b1 ∷ []) n rest h e = cc
read_u32-Took (b0 ∷ b1 ∷ b2 ∷ []) n rest h e = cc
read_u32-Took (b0 ∷ b1 ∷ b2 ∷ b3 ∷ bs) n rest h e = (
  ground arith,
  record { split = ground arith; left = subst (All IsByte) (ground arith) h.1.1.1.1 },
)

pub read_bytes-Took :
    (n : ℕ) (buf bs rest : Bytes)
    → All IsByte buf
    → read_bytes n buf ≡ ok (bs, rest)
    → (length bs ≡ n) × All IsByte bs × Took (λ x. x) buf bs rest
unfolding read_bytes
read_bytes-Took zero buf bs rest h e =
    let none_read : [] ≡ bs = ground arith in
    let all_left : buf ≡ rest = ground arith in
    (
      sym (ap length none_read),
      subst (All IsByte) none_read tt,
      record { split = ground arith; left = subst (All IsByte) all_left h },
    )
read_bytes-Took (suc n) [] bs rest h e = cc
read_bytes-Took (suc n) (b ∷ buf) bs rest h e =
    let ((bs', rest'), read, step) = >>=-eq-ok (read_bytes n buf) _ e in
    let (size, bytes, t) = read_bytes-Took n buf bs' rest' h.1 read in
    let whole : b ∷ bs' ≡ bs = ground arith in
    let end : rest' ≡ rest = ground arith in
    (
      sym (ap length whole) ∙ ap suc size,
      subst (All IsByte) whole (h.0, bytes),
      record {
        split = ap (λ x. b ∷ x) t.split ∙ ap₂ (λ x y. x ++ y) whole end;
        left = subst (All IsByte) end t.left;
      },
    )

pub read_words-Took :
    (n : ℕ) (buf : Bytes) (ws : List ℕ) (rest : Bytes)
    → All IsByte buf
    → read_words n buf ≡ ok (ws, rest)
    → (length ws ≡ n) × All (λ w. w < 2 ^ 32) ws × Took words_bytes buf ws rest
unfolding read_words words_bytes
read_words-Took zero buf ws rest h e =
    let none_read : [] ≡ ws = ground arith in
    let all_left : buf ≡ rest = ground arith in
    (
      sym (ap length none_read),
      subst (All (λ w. w < 2 ^ 32)) none_read tt,
      record { split = rw (← none_read) all_left; left = subst (All IsByte) all_left h },
    )
read_words-Took (suc n) buf ws rest h e =
    let ((w, rest'), first, more) = >>=-eq-ok (read_u32 buf) _ e in
    let (small, t) = read_u32-Took buf w rest' h first in
    let ((ws', rest''), others, step) = >>=-eq-ok (read_words n rest') _ more in
    let (size, words, u) = read_words-Took n rest' ws' rest'' t.left others in
    let whole : w ∷ ws' ≡ ws = ground arith in
    let end : rest'' ≡ rest = ground arith in
    (
      sym (ap length whole) ∙ ap suc size,
      subst (All (λ w. w < 2 ^ 32)) whole (small, words),
      record {
        split = rw (← whole) (
            subst (λ r. buf ≡ (u32_bytes w ++ words_bytes ws') ++ r) end
              (joined (u32_bytes w) (words_bytes ws') rest'' t.split u.split));
        left = subst (All IsByte) end u.left;
      },
    )

pub read_u8-Took :
    (buf : Bytes) (b : ℕ) (rest : Bytes)
    → All IsByte buf
    → read_u8 buf ≡ ok (b, rest)
    → IsByte b × Took (λ x. x ∷ []) buf b rest
unfolding read_u8
read_u8-Took [] b rest h e = cc
read_u8-Took (b0 ∷ bs) b rest h e =
    (ground arith, record { split = ground arith; left = subst (All IsByte) (ground arith) h.1 })

-- The low byte of a status keeps a status that came from a byte.
pub sign_extend8_mod : (b : ℕ) → IsByte b → sign_extend8 b % 256 ≡ b
unfolding sign_extend8
sign_extend8_mod b h = ground arith

-- ===== src/Base/Bytes.antt =====
-- Words put together from four bytes by shifts and ors, and the bytes of a number in both orders.
use native.Mathlib.Nat.{div-add-mod', pow-suc}
use Prim.Native.Nat.{ℕ, zero, suc, ◌+◌, ◌*◌, ◌/◌, ◌%◌, ◌^◌, ◌<◌, bit_or}
use mathlib.Core.Path.{◌≡◌, refl, subst, ap, ◌∙◌}
use mathlib.Core.List.{List, [], ◌∷◌, ◌++◌}
use native.Mathlib.Omega.{arith}
use rest_rpc.Base.Bits.{bit_or_fields, bit_or_comm}
use rest_rpc.Base.Lists.{length, length-append, All}

-- The or of a multiple of `2 ^ k` and a number of `k` bits is their sum.
pub bit_or_sum : (k x r : ℕ) → x % 2 ^ k ≡ 0 → r < 2 ^ k → bit_or x r ≡ x + r
bit_or_sum k x r e h =
    let whole : x / 2 ^ k * 2 ^ k ≡ x = omega (arith, div-add-mod' x (2 ^ k), e) in
    subst (λ y. bit_or y r ≡ y + r) whole (bit_or_fields k (x / 2 ^ k) r h)

module _ (a b c d : ℕ) (ha : a < 256) (hb : b < 256) (hc : c < 256) (hd : d < 256) where
  -- The highest byte first.
  pub or_bytes_high :
      bit_or (bit_or (bit_or (a * 2 ^ 24 % 2 ^ 32) (b * 2 ^ 16 % 2 ^ 32)) (c * 2 ^ 8 % 2 ^ 32)) d
      ≡ ((a * 256 + b) * 256 + c) * 256 + d
  or_bytes_high =
      let one =
        bit_or_sum 24 (a * 2 ^ 24 % 2 ^ 32) (b * 2 ^ 16 % 2 ^ 32) (omega arith) (omega arith) in
      let two =
        bit_or_sum 16 (a * 2 ^ 24 % 2 ^ 32 + b * 2 ^ 16 % 2 ^ 32) (c * 2 ^ 8 % 2 ^ 32) (omega arith)
          (omega arith) in
      let three =
        bit_or_sum 8 (a * 2 ^ 24 % 2 ^ 32 + b * 2 ^ 16 % 2 ^ 32 + c * 2 ^ 8 % 2 ^ 32) d
          (omega arith) (omega arith) in
      rw (one, two, three) (omega arith)

  -- The lowest byte first.
  pub or_bytes_low :
      bit_or
        (bit_or (bit_or (a % 2 ^ 32) (b * 2 ^ 8 % 2 ^ 32)) (c * 2 ^ 16 % 2 ^ 32))
        (d * 2 ^ 24 % 2 ^ 32)
      ≡ a + 256 * (b + 256 * (c + 256 * d))
  or_bytes_low =
      let one =
        bit_or_comm 32 (a % 2 ^ 32) (b * 2 ^ 8 % 2 ^ 32) (omega arith) (omega arith)
        ∙ bit_or_sum 8 (b * 2 ^ 8 % 2 ^ 32) (a % 2 ^ 32) (omega arith) (omega arith) in
      let two =
        bit_or_comm 32 (b * 2 ^ 8 % 2 ^ 32 + a % 2 ^ 32) (c * 2 ^ 16 % 2 ^ 32) (omega arith)
          (omega arith)
        ∙ bit_or_sum 16 (c * 2 ^ 16 % 2 ^ 32) (b * 2 ^ 8 % 2 ^ 32 + a % 2 ^ 32) (omega arith)
            (omega arith) in
      let three =
        bit_or_comm 32 (c * 2 ^ 16 % 2 ^ 32 + (b * 2 ^ 8 % 2 ^ 32 + a % 2 ^ 32))
          (d * 2 ^ 24 % 2 ^ 32) (omega arith) (omega arith)
        ∙ bit_or_sum 24 (d * 2 ^ 24 % 2 ^ 32)
            (c * 2 ^ 16 % 2 ^ 32 + (b * 2 ^ 8 % 2 ^ 32 + a % 2 ^ 32)) (omega arith) (omega arith) in
      rw (one, two, three) (omega arith)

-- The `k` lowest bytes of a number, the lowest first, and the number that such bytes stand for.
abbrev pub le_bytes : ℕ → ℕ → List ℕ
le_bytes zero v = []
le_bytes (suc k) v = v % 256 ∷ le_bytes k (v / 256)

abbrev pub of_le_bytes : List ℕ → ℕ
of_le_bytes [] = 0
of_le_bytes (b ∷ bs) = b + 256 * of_le_bytes bs

pub length-le_bytes : (k v : ℕ) → length (le_bytes k v) ≡ k
length-le_bytes zero v = refl
length-le_bytes (suc k) v = ap suc (length-le_bytes k (v / 256))

pub le_bytes-IsByte : (k v : ℕ) → All (λ b. b < 256) (le_bytes k v)
le_bytes-IsByte zero v = tt
le_bytes-IsByte (suc k) v = (omega arith, le_bytes-IsByte k (v / 256))

-- The number that bytes stand for when the highest comes first, after those in `acc`.
abbrev pub of_be_bytes : ℕ → List ℕ → ℕ
of_be_bytes acc [] = acc
of_be_bytes acc (b ∷ bs) = of_be_bytes (acc * 256 + b) bs

-- The `k` lowest bytes of a number, the highest first.
abbrev pub be_bytes : ℕ → ℕ → List ℕ
be_bytes zero v = []
be_bytes (suc k) v = be_bytes k (v / 256) ++ (v % 256) ∷ []

pub of_be_bytes-append :
    (acc : ℕ) (xs : List ℕ) (b : ℕ) → of_be_bytes acc (xs ++ b ∷ []) ≡ of_be_bytes acc xs * 256 + b
of_be_bytes-append acc [] b = refl
of_be_bytes-append acc (x ∷ xs) b = of_be_bytes-append (acc * 256 + x) xs b

pub length-be_bytes : (k v : ℕ) → length (be_bytes k v) ≡ k
length-be_bytes zero v = refl
length-be_bytes (suc k) v =
    omega
      (arith, length-append (be_bytes k (v / 256)) ((v % 256) ∷ []), length-be_bytes k (v / 256))

-- A number of `k` bytes is had back from them, in either order.
pub of_le_bytes-le_bytes : (k v : ℕ) → v < 256 ^ k → of_le_bytes (le_bytes k v) ≡ v
of_le_bytes-le_bytes zero v h = omega arith
of_le_bytes-le_bytes (suc k) v h =
    omega (arith, of_le_bytes-le_bytes k (v / 256) (omega (arith, pow-suc 256 k)))

pub of_be_bytes-be_bytes : (k v : ℕ) → v < 256 ^ k → of_be_bytes 0 (be_bytes k v) ≡ v
of_be_bytes-be_bytes zero v h = omega arith
of_be_bytes-be_bytes (suc k) v h = omega (
  arith,
  of_be_bytes-append 0 (be_bytes k (v / 256)) (v % 256),
  of_be_bytes-be_bytes k (v / 256) (omega (arith, pow-suc 256 k)),
)

-- Eight bytes are those of the two halves.
pub le_bytes-halves :
    (x y : ℕ) → y < 2 ^ 32 → le_bytes 8 (x * 2 ^ 32 + y) ≡ le_bytes 4 y ++ le_bytes 4 x
le_bytes-halves x y h = ground arith

pub be_bytes-halves :
    (x y : ℕ) → y < 2 ^ 32 → be_bytes 8 (x * 2 ^ 32 + y) ≡ be_bytes 4 x ++ be_bytes 4 y
be_bytes-halves x y h = ground arith

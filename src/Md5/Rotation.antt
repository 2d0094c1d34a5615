-- ===== src/Md5/Rotation.antt =====
-- `LeftRotate`, `GetShift` and `SwapEndian` of include/rest_rpc/md5.hpp.
use native.Mathlib.Nat.{one-le-pow, mul_comm, div-add-mod', mod-lt}
use rest_rpc.Base.{ℕ, ◌+◌, ◌-◌, ◌*◌, ◌/◌, ◌%◌, ◌^◌, ◌≤◌, ◌<◌, ◌≡◌, ◌∙◌, arith, All-get_or}
use rest_rpc.Base.Bits.{bit_or_fields, bit_and_mask}
use rest_rpc.Base.Bytes.{or_bytes_high}
use rest_rpc.Base.Div.{pow_split, mul-mod_of, div_of, mod_of, div-lt}
use rest_rpc.Base.Words.{sub32}
use rest_rpc.Md5.{k_shifts, get_shift, left_rotate, swap_endian}

sub32-eq : (s : ℕ) → s < 32 → sub32 32 s ≡ 32 - s
sub32-eq s h = omega arith

fields-lt : (a b p q : ℕ) → a < p → b < q → a * q + b < p * q
fields-lt a b p q h k = grind arith

module _ (s : ℕ) (hs : s < 32) where
  abbrev low : ℕ
  low = 2 ^ s

  abbrev high : ℕ
  high = 2 ^ (32 - s)

  low-*-high : low * high ≡ 2 ^ 32
  low-*-high = pow_split 32 s (omega arith)

  high_pos : 0 < high
  high_pos = one-le-pow (32 - s) 2 (omega arith)

  top-lt : (v : ℕ) → v < 2 ^ 32 → v / high < low
  top-lt v h = div-lt v low high (rw low-*-high h)

  -- The bits that leave at the top come back at the bottom.
  pub left_rotate-eq :
      (v : ℕ) → v < 2 ^ 32 → left_rotate v s ≡ v % 2 ^ (32 - s) * 2 ^ s + v / 2 ^ (32 - s)
  unfolding left_rotate
  left_rotate-eq v hv =
      rw (sub32-eq s hs, mul-mod_of v low high (2 ^ 32) low-*-high high_pos)
        (bit_or_fields s (v % high) (v / high) (top-lt v hv))

  pub left_rotate-lt : (v : ℕ) → v < 2 ^ 32 → left_rotate v s < 2 ^ 32
  left_rotate-lt v hv =
      rw (left_rotate-eq v hv, ← low-*-high, mul_comm low high)
        (fields-lt (v % high) (v / high) high low (mod-lt v high_pos) (top-lt v hv))

  -- The two fields of a rotated word, exchanged.
  rotated_fields :
      (v : ℕ) → v < 2 ^ 32 → (left_rotate v s % low ≡ v / high) × (left_rotate v s / low ≡ v % high)
  rotated_fields v hv = rw (left_rotate-eq v hv) (
    mod_of (v % high) low (v / high) (top-lt v hv),
    div_of (v % high) low (v / high) (top-lt v hv),
  )

-- Rotating by `s` and then by `32 - s` gives every word back, and stays within 32 bits.
pub left_rotate_back :
    (v s : ℕ)
    → v < 2 ^ 32
    → 0 < s
    → s < 32
    → (left_rotate (left_rotate v s) (32 - s) ≡ v) × (left_rotate v s < 2 ^ 32)
left_rotate_back v s hv pos hs = (
  rw
      (
        left_rotate-eq (32 - s) (omega arith) (left_rotate v s) (left_rotate-lt s hs v hv),
        back_shift,
        (rotated_fields s hs v hv).0,
        (rotated_fields s hs v hv).1,
      )
      (div-add-mod' v (2 ^ (32 - s))),
  left_rotate-lt s hs v hv,
)
  where
    back_shift : 32 - (32 - s) ≡ s
    back_shift = omega arith

-- The shift of step `i` is the `i`th column of the RFC's table for that round, and is a rotation
-- that `left_rotate_back` speaks of.
pub get_shift_bounds : (i : ℕ) → i < 64 → (4 ≤ get_shift i) × (get_shift i ≤ 23)
unfolding get_shift
get_shift_bounds i h =
    All-get_or (λ x. (4 ≤ x) × (x ≤ 23)) k_shifts (unfold k_shifts in omega arith)
      (i / 16 * 4 + i % 4) 0 (unfold k_shifts in omega arith)

-- The bytes of a word in the opposite order.
pub swap_endian-eq :
    (a : ℕ)
    → a < 2 ^ 32
    → swap_endian a ≡ ((a % 256 * 256 + a / 256 % 256) * 256 + a / 65536 % 256) * 256 + a / 16777216
unfolding swap_endian
swap_endian-eq a h =
    rw
      (
        bit_and_mask 8 a,
        bit_and_mask 8 (a / 256),
        bit_and_mask 8 (a / 65536),
        bit_and_mask 8 (a / 16777216),
      )
      (or_bytes_high (a % 256) (a / 256 % 256) (a / 65536 % 256) (a / 16777216 % 256) (omega arith)
          (omega arith) (omega arith) (omega arith)
        ∙ omega arith)

-- `SwapEndian` undoes itself on every word.
pub swap_endian-swap_endian : (a : ℕ) → a < 2 ^ 32 → swap_endian (swap_endian a) ≡ a
swap_endian-swap_endian a h =
    let once = swap_endian-eq a h in
    omega (arith, once, swap_endian-eq (swap_endian a) (omega (arith, once)))

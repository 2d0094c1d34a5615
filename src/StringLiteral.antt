-- ===== src/StringLiteral.antt =====
-- `string_literal` of include/rest_rpc/md5.hpp: an array of characters with its terminator, whose size
-- is a part of its type. The size is a field here, and an index past the end, which the source does
-- not allow, reads a zero and writes nothing.
pub mod Contents
mod Examples
use rest_rpc.Base.{
  ℕ, zero, suc, ◌+◌, ◌-◌, Bool, true, false, not, ◌==◌, if◌then◌else◌, List, length, get_or, set_at,
  take, replicate,
}

pub record StringLiteral : Type 0 where
  pub ar : List ℕ
  pub size : ℕ

-- `string_literal<CharType, Size>{}`, which has zero_literal in all its cells.
abbrev pub zero_literal : ℕ → StringLiteral
zero_literal n = record { ar = replicate (suc n) 0; size = n }

-- `operator[]` to read.
abbrev pub at : StringLiteral → ℕ → ℕ
at l sz = get_or l.ar sz 0

-- The loop `to[i + offset] = from[i]`, for so many cells from `i` on.
unfoldable pub copy_loop : ℕ → ℕ → ℕ → List ℕ → List ℕ → List ℕ
copy_loop zero i offset from to = to
copy_loop (suc left) i offset from to =
    copy_loop left (suc i) offset from (set_at (i + offset) (get_or from i 0) to)

-- The literal of a view's first characters.
unfoldable pub literal_of_view : ℕ → List ℕ → StringLiteral
literal_of_view n str = record {
  ar = set_at n 0 (copy_loop n 0 0 str (zero_literal n).ar);
  size = n;
}

-- The literal of an array with a terminator, whose size is deduced.
unfoldable pub literal_of_array : List ℕ → StringLiteral
literal_of_array value =
    let n = length value - 1 in
    record { ar = copy_loop (suc n) 0 0 value (zero_literal n).ar; size = n }

-- The loop of `operator!=`.
unfoldable pub ne_loop : ℕ → ℕ → StringLiteral → StringLiteral → Bool
ne_loop zero i l other = false
ne_loop (suc left) i l other =
    let rest = ne_loop left (suc i) l other in if at l i == at other i then rest else true

unfoldable pub ne : StringLiteral → StringLiteral → Bool
ne l other = if l.size == other.size then ne_loop l.size 0 l other else true

unfoldable pub eq : StringLiteral → StringLiteral → Bool
eq l other = not (ne l other)

unfoldable pub plus : StringLiteral → StringLiteral → StringLiteral
plus l other =
    let ret = zero_literal (l.size + other.size) in
    record ret { ar = copy_loop other.size 0 l.size other.ar (copy_loop l.size 0 0 l.ar ret.ar) }

-- The conversion to a view.
abbrev pub view : StringLiteral → List ℕ
view l = take l.size l.ar

unfoldable pub empty : StringLiteral → Bool
empty l = l.size == 0

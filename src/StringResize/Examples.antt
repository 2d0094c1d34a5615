-- ===== src/StringResize/Examples.antt =====
-- The theorem on include/rest_rpc/string_resize.hpp for a string that grows.
use rest_rpc.Base.{
  ℕ, false, zero, suc, ◌≤◌, ◌<◌, ◌≡◌, refl, arith, List, [], ◌∷◌, ◌++◌, length, get_or, replicate,
  length-append, length-replicate,
}
use rest_rpc.Base.Text.{codes}
use rest_rpc.StringResize.{
  Buffer, Allocator, resize_string, resize_vector, vector_size, libstdcpp, libcpp, libcpp_with_asan,
  vector_members_known,
}
use rest_rpc.StringResize.Contents.{
  IsString, first_bytes, smaller, resize_string-IsString, resize_vector_wide,
}

-- An allocator that adds the cells that are wanted, filled with zeros.
abbrev zero_cells : ℕ → List ℕ
zero_cells n = replicate n 0

grown : ℕ → Buffer → Buffer
grown n b = record b { cells = b.cells ++ zero_cells n }

grown-fits : (n : ℕ) (b : Buffer) → n ≤ length (grown n b).cells
unfolding grown
grown-fits n b = omega (arith, length-append b.cells (zero_cells n), length-replicate {A = ℕ} n 0)

zeros : (n i : ℕ) → ◌≡◌ {A = ℕ} (get_or (zero_cells n) i 0) 0
zeros zero i = refl
zeros (suc n) zero = refl
zeros (suc n) (suc i) = zeros n i

append_zeros : (xs : List ℕ) (n i : ℕ) → get_or (xs ++ zero_cells n) i 0 ≡ get_or xs i 0
append_zeros [] n i = zeros n i
append_zeros (x ∷ xs) n zero = refl
append_zeros (x ∷ xs) n (suc i) = append_zeros xs n i

abbrev zero_filled : Allocator
zero_filled = record {
  reserve = grown;
  reserve-fits = grown-fits;
  reserve-size = λ n b. unfold grown in refl;
  reserve-keeps = λ n b i h. unfold grown in append_zeros b.cells n i;
}

abbrev hello : Buffer
hello = record { cells = codes "hello" ++ (0 ∷ []); size = 5 }

hello-IsString : IsString hello
hello-IsString = record { room = omega arith; terminated = refl }

resize_string-IsString_example :
    let r = resize_string false libstdcpp zero_filled 9 hello in
    IsString r
    × (r.size ≡ 9)
    × (first_bytes (smaller 9 hello.size) r ≡ first_bytes (smaller 9 hello.size) hello)
resize_string-IsString_example =
    resize_string-IsString zero_filled false libstdcpp 9 hello hello-IsString

abbrev four : Buffer
four = record { cells = codes "four"; size = 4 }

resize_vector_wide_example :
    let r = resize_vector libcpp zero_filled 1 6 four in
    (vector_size 1 r ≡ 6)
    × (6 ≤ length r.cells)
    × (first_bytes (smaller 6 four.size) r ≡ first_bytes (smaller 6 four.size) four)
    × (vector_size 4 (resize_vector libcpp zero_filled 4 6 four) < 6)
    × (vector_size 4 (resize_vector libcpp_with_asan zero_filled 4 6 four) ≡ 6)
unfolding vector_members_known
resize_vector_wide_example =
    resize_vector_wide zero_filled libcpp libcpp_with_asan 4 6 four (omega arith) (omega arith) refl
      refl

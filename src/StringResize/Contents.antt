-- ===== src/StringResize/Contents.antt =====
-- What `detail::resize` of include/rest_rpc/string_resize.hpp leaves in a string and in a vector.
use native.Mathlib.Nat.{mul-div_cancel, div-lt_self, div-one}
use rest_rpc.Base.{
  ℕ, zero, suc, ◌-◌, ◌≤◌, ◌<◌, ◌≡◌, refl, ap₂, ◌∙◌, arith, Bool, true, false, ltb, if◌then◌else◌,
  List, [], ◌∷◌, ◌++◌, length, get_or, length-set_at, get_or-set_at, get_or-set_at_ne, Bool-cases,
  inl, inr,
}
use rest_rpc.StringResize.{
  Buffer, Allocator, Library, msvc_stl, libcpp, libcpp_with_asan, old_libstdcpp, libstdcpp,
  unknown_library, resize_by_members, vector_members_known, capacity, put, put_zeros, room_for,
  string_set_length_hacker, string_resize, resize_string, vector_set_length_hacker, resize_vector,
  vector_size,
}

-- The buffer holds the bytes up to the size and the terminator.
pub record IsString (str : Buffer) : Type 0 where
  pub room : str.size < length str.cells
  pub terminated : get_or str.cells str.size 0 ≡ 0

-- The first bytes of a buffer, so many.
abbrev pub first_bytes : ℕ → Buffer → List ℕ
first_bytes zero b = []
first_bytes (suc n) b = first_bytes n b ++ (get_or b.cells n 0 ∷ [])

abbrev pub smaller : ℕ → ℕ → ℕ
smaller a b = if ltb a b then a else b

first_bytes-eq :
    (n : ℕ) (a b : Buffer)
    → ((i : ℕ) → i < n → get_or a.cells i 0 ≡ get_or b.cells i 0)
    → first_bytes n a ≡ first_bytes n b
first_bytes-eq zero a b h = refl
first_bytes-eq (suc n) a b h =
    ap₂ (λ bytes c. bytes ++ (c ∷ []))
      (first_bytes-eq n a b (λ i below. h i (omega (arith, below)))) (h n (omega arith))

-- The bytes up to the smaller of two sizes.
first_bytes-smaller :
    (m n : ℕ) (a b : Buffer)
    → ((i : ℕ) → i < n → i < m → get_or a.cells i 0 ≡ get_or b.cells i 0)
    → first_bytes (smaller m n) a ≡ first_bytes (smaller m n) b
first_bytes-smaller m n a b h =
    first_bytes-eq (smaller m n) a b
      (λ i below. h i (ground (arith, below)) (ground (arith, below)))

put_zeros-room : (n i : ℕ) (str : Buffer) → length (put_zeros n i str).cells ≡ length str.cells
unfolding put_zeros
put_zeros-room zero i str = refl
put_zeros-room (suc n) i str = put_zeros-room n (suc i) (put i 0 str) ∙ length-set_at i 0 str.cells

put_zeros-keeps :
    (n i j : ℕ) (str : Buffer) → j < i → get_or (put_zeros n i str).cells j 0 ≡ get_or str.cells j 0
unfolding put_zeros
put_zeros-keeps zero i j str h = refl
put_zeros-keeps (suc n) i j str h =
    put_zeros-keeps n (suc i) j (put i 0 str) (omega arith)
    ∙ get_or-set_at_ne i j 0 str.cells 0 (λ e. omega arith)

-- The buffer `str` after its size has been set and a zero has been put behind its bytes.
module _ (sz : ℕ) (str : Buffer) (fits : sz < length str.cells) where
  abbrev ended : Buffer
  ended = put sz 0 (record str { size = sz })

  ended-IsString : IsString ended
  ended-IsString = record {
    room = omega (arith, length-set_at sz 0 str.cells);
    terminated = get_or-set_at sz 0 str.cells 0 fits;
  }

  ended-keeps : (i : ℕ) → i < sz → get_or ended.cells i 0 ≡ get_or str.cells i 0
  ended-keeps i h = get_or-set_at_ne sz i 0 str.cells 0 (λ e. omega arith)

module _ (memory : Allocator) where
  open memory use {reserve, reserve-fits, reserve-keeps}

  room_for-fits :
      (sz : ℕ) (str : Buffer) → IsString str → sz < length (room_for memory sz str).cells
  unfolding room_for
  room_for-fits sz str w = elim (Bool-cases (ltb (capacity str) sz)) [
    | inl e ↦ rw e (omega (arith, reserve-fits (suc sz) str))
    | inr e ↦ rw e (ground (arith, w.room))
  ]

  room_for-keeps :
      (sz : ℕ) (str : Buffer) (i : ℕ)
      → i < str.size
      → get_or (room_for memory sz str).cells i 0 ≡ get_or str.cells i 0
  unfolding room_for
  room_for-keeps sz str i h = elim (Bool-cases (ltb (capacity str) sz)) [
    | inl e ↦ rw e (reserve-keeps (suc sz) str i h)
    | inr e ↦ rw e
  ]

  -- What is claimed of a resized string.
  abbrev Resized : ℕ → Buffer → Buffer → Type 0
  Resized sz str r =
      IsString r
      × (r.size ≡ sz)
      × (first_bytes (smaller sz str.size) r ≡ first_bytes (smaller sz str.size) str)

  -- Room, the size, and the terminator; libstdc++ has put the terminator already.
  room_for-Resized :
      (sz : ℕ) (str : Buffer)
      → IsString str
      → Resized sz str (put sz 0 (record (room_for memory sz str) { size = sz }))
        × Resized sz str (put sz 0 (put sz 0 (record (room_for memory sz str) { size = sz })))
  room_for-Resized sz str w =
      let there = room_for memory sz str in
      let fits = room_for-fits sz str w in
      let once = ended sz there fits in
      let again : sz < length once.cells = omega (arith, fits, length-set_at sz 0 there.cells) in
      let kept : (i : ℕ) → i < str.size → i < sz → get_or once.cells i 0 ≡ get_or str.cells i 0 =
        λ i h below. ended-keeps sz there fits i below ∙ room_for-keeps sz str i h in
      (
        (ended-IsString sz there fits, refl, first_bytes-smaller sz str.size once str kept),
        (
          ended-IsString sz once again,
          refl,
          first_bytes-smaller sz str.size (ended sz once again) str
              (λ i h below. ended-keeps sz once again i below ∙ kept i h below),
        ),
      )

  string_resize-Resized :
      (sz : ℕ) (str : Buffer) → IsString str → Resized sz str (string_resize memory sz str)
  unfolding string_resize
  string_resize-Resized sz str w =
      let filled = put_zeros (sz - str.size) str.size (room_for memory sz str) in
      let fits : sz < length filled.cells = omega (
        arith,
        room_for-fits sz str w,
        put_zeros-room (sz - str.size) str.size (room_for memory sz str),
      ) in
      (
        ended-IsString sz filled fits,
        refl,
        first_bytes-smaller sz str.size (ended sz filled fits) str (λ i h below.
            ended-keeps sz filled fits i below
            ∙ put_zeros-keeps (sz - str.size) str.size i (room_for memory sz str) h
            ∙ room_for-keeps sz str i h),
      )

  -- With every library, a string that has been resized, empty or to nothing too, has the new size, has
  -- room for it and ends there with a zero, and has kept the bytes up to the smaller of the two sizes.
  pub resize_string-IsString :
      (overwrites : Bool) (library : Library) (sz : ℕ) (str : Buffer)
      → IsString str
      → let r = resize_string overwrites library memory sz str in
        IsString r
        × (r.size ≡ sz)
        × (first_bytes (smaller sz str.size) r ≡ first_bytes (smaller sz str.size) str)
  unfolding resize_string resize_by_members string_set_length_hacker
  resize_string-IsString true library sz str w = (room_for-Resized sz str w).0
  resize_string-IsString false msvc_stl sz str w = (room_for-Resized sz str w).0
  resize_string-IsString false libcpp sz str w = (room_for-Resized sz str w).0
  resize_string-IsString false libcpp_with_asan sz str w = (room_for-Resized sz str w).0
  resize_string-IsString false old_libstdcpp sz str w = (room_for-Resized sz str w).1
  resize_string-IsString false libstdcpp sz str w = (room_for-Resized sz str w).1
  resize_string-IsString false unknown_library sz str w = string_resize-Resized sz str w

  -- With a library whose members are reached, a vector of bytes that is resized, empty too, has the new
  -- number of them, has room for it and has kept those up to the smaller of the two numbers; but a
  -- vector of wider elements that is resized to some gets fewer, where the library's own `resize`, that
  -- of libc++ with the address sanitizer too, gives it all of them.
  pub resize_vector_wide :
      (library other : Library) (width sz : ℕ) (vec : Buffer)
      → 1 < width
      → 0 < sz
      → vector_members_known library ≡ true
      → vector_members_known other ≡ false
      → let r = resize_vector library memory 1 sz vec in
        (vector_size 1 r ≡ sz)
        × (sz ≤ length r.cells)
        × (first_bytes (smaller sz vec.size) r ≡ first_bytes (smaller sz vec.size) vec)
        × (vector_size width (resize_vector library memory width sz vec) < sz)
        × (vector_size width (resize_vector other memory width sz vec) ≡ sz)
  unfolding resize_vector vector_set_length_hacker vector_size
  resize_vector_wide library other width sz vec wide some_elements known own =
      let resized : Buffer = record (reserve sz vec) { size = sz } in
      rw (known, own)
        (
          div-one sz,
          reserve-fits sz vec,
          first_bytes-smaller sz vec.size resized vec (λ i h below. reserve-keeps sz vec i h),
          div-lt_self some_elements wide,
          mul-div_cancel sz (omega arith),
        )

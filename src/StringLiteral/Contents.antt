-- ===== src/StringLiteral/Contents.antt =====
-- What the literals of include/rest_rpc/md5.hpp hold: the texts they are made of.
use mathlib.Core.List.{append_assoc, append-nil}
use rest_rpc.Base.{
  ℕ, zero, suc, ◌+◌, ◌-◌, ◌≡◌, refl, ◌∙◌, ap, sym, arith, not, ◌==◌, List, [], ◌∷◌, ◌++◌, length,
  get_or, set_at, replicate, length-append, length-replicate, take-append, Bool-cases, inl, inr,
  ==→eq,
}
use rest_rpc.Base.Views.{same_text, same_text-length}
use rest_rpc.StringLiteral.{
  StringLiteral, zero_literal, copy_loop, literal_of_view, literal_of_array, ne_loop, ne, eq, plus,
  view,
}

-- The literal of a text.
abbrev literal : List ℕ → StringLiteral
literal s = record { ar = s ++ (0 ∷ []); size = length s }

get_or_middle : (p q : List ℕ) (x : ℕ) → get_or (p ++ (x ∷ q)) (length p) 0 ≡ x
get_or_middle [] q x = refl
get_or_middle (y ∷ p) q x = get_or_middle p q x

set_at_middle : (p q : List ℕ) (x y n : ℕ) → n ≡ length p → set_at n x (p ++ (y ∷ q)) ≡ p ++ (x ∷ q)
set_at_middle [] q x y zero h = refl
set_at_middle [] q x y (suc n) h = absurd (omega (arith, h))
set_at_middle (z ∷ p) q x y zero h = absurd (omega (arith, h))
set_at_middle (z ∷ p) q x y (suc n) h = ap (λ l. z ∷ l) (set_at_middle p q x y n (omega (arith, h)))

append_one : (p q : List ℕ) (x : ℕ) → p ++ (x ∷ q) ≡ (p ++ (x ∷ [])) ++ q
append_one p q x = sym (append_assoc p (x ∷ []) q)

length_one : (p : List ℕ) (x : ℕ) → length (p ++ (x ∷ [])) ≡ suc (length p)
length_one p x = length-append p (x ∷ []) ∙ omega arith

-- A loop that copies the characters of one text over as many cells.
copy_loop-append :
    (xs before rest p q over : List ℕ) (offset : ℕ)
    → length p ≡ length before + offset
    → length over ≡ length xs
    → copy_loop (length xs) (length before) offset (before ++ (xs ++ rest)) (p ++ (over ++ q))
      ≡ p ++ (xs ++ q)
unfolding copy_loop
copy_loop-append [] before rest p q [] offset at_p same = refl
copy_loop-append [] before rest p q (y ∷ over) offset at_p same = absurd (omega (arith, same))
copy_loop-append (x ∷ xs) before rest p q [] offset at_p same = absurd (omega (arith, same))
copy_loop-append (x ∷ xs) before rest p q (y ∷ over) offset at_p same =
    let from = before ++ (x ∷ (xs ++ rest)) in
    let to = p ++ (y ∷ (over ++ q)) in
    let before' = before ++ (x ∷ []) in
    let p' = p ++ (x ∷ []) in
    let from-eq : from ≡ before' ++ (xs ++ rest) = append_one before (xs ++ rest) x in
    let to-eq : set_at (length before + offset) (get_or from (length before) 0) to
        ≡ p' ++ (over ++ q) =
      ap (λ c. set_at (length before + offset) c to) (get_or_middle before (xs ++ rest) x)
      ∙ set_at_middle p (over ++ q) x y (length before + offset) (sym at_p)
      ∙ append_one p (over ++ q) x in
    ap (copy_loop (length xs) (suc (length before)) offset from) to-eq
    ∙ ap (λ l. copy_loop (length xs) (suc (length before)) offset l (p' ++ (over ++ q))) from-eq
    ∙ ap (λ i. copy_loop (length xs) i offset (before' ++ (xs ++ rest)) (p' ++ (over ++ q)))
        (sym (length_one before x))
    ∙ copy_loop-append xs before' rest p' q over offset
        (omega (arith, length_one before x, length_one p x, at_p)) (omega (arith, same))
    ∙ sym (append_one p (xs ++ q) x)

abbrev blank : ℕ → List ℕ
blank n = replicate n 0

blank-append : (m n : ℕ) → blank (m + n) ≡ blank m ++ blank n
blank-append zero n = let none : 0 + n ≡ n = omega arith in ap blank none
blank-append (suc m) n =
    let one : suc m + n ≡ suc (m + n) = omega arith in
    ap blank one ∙ ap (λ l. 0 ∷ l) (blank-append m n)

-- The loop that copies a text into blank cells, of which there are more.
copy_loop-blank :
    (s rest p : List ℕ) (n m : ℕ)
    → n ≡ length s + m
    → copy_loop (length s) 0 (length p) (s ++ rest) (p ++ blank n) ≡ p ++ (s ++ blank m)
copy_loop-blank s rest p n m enough =
    ap (λ cells. copy_loop (length s) 0 (length p) (s ++ rest) (p ++ cells))
      (ap blank enough ∙ blank-append (length s) m)
    ∙ copy_loop-append s [] rest p (blank m) (blank (length s)) (length p) (omega arith)
        (length-replicate (length s) 0)

-- The literal of the first characters of a view that has so many.
literal_of_view-eq : (s rest : List ℕ) → literal_of_view (length s) (s ++ rest) ≡ literal s
unfolding literal_of_view
literal_of_view-eq s rest =
    ap (λ cells. record { ar = set_at (length s) 0 cells; size = length s })
      (copy_loop-blank s rest [] (suc (length s)) 1 (omega arith))
    ∙ ap (λ cells. record { ar = cells; size = length s }) (set_at_middle s [] 0 0 (length s) refl)

-- The literal of an array that holds a text and its terminator.
literal_of_array-eq : (s : List ℕ) → literal_of_array (s ++ (0 ∷ [])) ≡ literal s
unfolding literal_of_array
literal_of_array-eq s =
    let whole = s ++ (0 ∷ []) in
    let one_less : length whole - 1 ≡ length s = omega (arith, length_one s 0) in
    let cells : suc (length s) ≡ length whole = omega (arith, length_one s 0) in
    let enough : suc (length s) ≡ length whole + 0 = omega (arith, length_one s 0) in
    ap (λ n. record { ar = copy_loop (suc n) 0 0 whole (zero_literal n).ar; size = n }) one_less
    ∙ ap (λ a. record { ar = a; size = length s })
        (ap (λ k. copy_loop k 0 0 whole (blank (suc (length s)))) cells
          ∙ ap (λ l. copy_loop (length whole) 0 0 l (blank (suc (length s))))
              (sym (append-nil whole))
          ∙ copy_loop-blank whole [] [] (suc (length s)) 0 enough
          ∙ append-nil whole)

plus-literal : (s t : List ℕ) → plus (literal s) (literal t) ≡ literal (s ++ t)
unfolding plus
plus-literal s t =
    ap (λ cells. record { ar = cells; size = length s + length t })
      (ap (copy_loop (length t) 0 (length s) (t ++ (0 ∷ [])))
          (copy_loop-blank s (0 ∷ []) [] (suc (length s + length t)) (suc (length t)) (omega arith))
        ∙ copy_loop-blank t (0 ∷ []) s (suc (length t)) 1 (omega arith)
        ∙ sym (append_assoc s t (0 ∷ [])))
    ∙ ap (λ n. record { ar = (s ++ t) ++ (0 ∷ []); size = n }) (sym (length-append s t))

-- The literals of an array and of a view, of which the one holds a text and its terminator and the
-- other starts with a text, add up to a literal whose view is the one text and then the other.
view-plus :
    (s t rest : List ℕ)
    → view (plus (literal_of_array (s ++ (0 ∷ []))) (literal_of_view (length t) (t ++ rest)))
      ≡ s ++ t
view-plus s t rest =
    rw (literal_of_array-eq s, literal_of_view-eq t rest, plus-literal s t)
      (take-append (s ++ t) (0 ∷ []))

ne_loop-same_text :
    (s t before before' after after' : List ℕ) (n m : ℕ)
    → length s ≡ length t
    → length before ≡ length before'
    → ne_loop
        (length s)
        (length before)
        (record { ar = before ++ (s ++ after); size = n })
        (record { ar = before' ++ (t ++ after'); size = m })
      ≡ not (same_text s t)
unfolding ne_loop same_text
ne_loop-same_text [] [] before before' after after' n m same at_p = refl
ne_loop-same_text [] (y ∷ t) before before' after after' n m same at_p =
    absurd (omega (arith, same))
ne_loop-same_text (x ∷ s) [] before before' after after' n m same at_p =
    absurd (omega (arith, same))
ne_loop-same_text (x ∷ s) (y ∷ t) before before' after after' n m same at_p =
    let l = before ++ (x ∷ (s ++ after)) in
    let l' = before' ++ (y ∷ (t ++ after')) in
    let at_x : get_or l (length before) 0 ≡ x = get_or_middle before (s ++ after) x in
    let at_y : get_or l' (length before) 0 ≡ y =
      ap (λ i. get_or l' i 0) at_p ∙ get_or_middle before' (t ++ after') y in
    let loop = ne_loop (length s) in
    let rest : loop (suc (length before)) (record { ar = l; size = n })
          (record { ar = l'; size = m })
        ≡ not (same_text s t) =
      ap
        (λ a.
          loop (suc (length before)) (record { ar = a; size = n }) (record { ar = l'; size = m }))
        (append_one before (s ++ after) x)
      ∙ ap
          (λ a.
            loop (suc (length before))
              (record { ar = (before ++ (x ∷ [])) ++ (s ++ after); size = n })
              (record { ar = a; size = m }))
          (append_one before' (t ++ after') y)
      ∙ ap
          (λ i.
            loop i (record { ar = (before ++ (x ∷ [])) ++ (s ++ after); size = n })
              (record { ar = (before' ++ (y ∷ [])) ++ (t ++ after'); size = m }))
          (sym (length_one before x))
      ∙ ne_loop-same_text s t (before ++ (x ∷ [])) (before' ++ (y ∷ [])) after after' n m
          (omega (arith, same)) (omega (arith, at_p, length_one before x, length_one before' y)) in
    ground (arith, at_x, at_y, rest)

eq-literal : (s t : List ℕ) → eq (literal s) (literal t) ≡ same_text s t
unfolding eq ne
eq-literal s t = elim (Bool-cases (length s == length t)) [
  | inl e ↦ rw e (
      let same : length s ≡ length t = ==→eq (length s) (length t) e in
      let loop = ne_loop-same_text s t [] [] (0 ∷ []) (0 ∷ []) (length s) (length t) same refl in
      ground (arith, loop))
  | inr e ↦ rw e (ground (arith, same_text-length s t, e))
]

-- The literals of an array and of a view, of which the one holds a text and its terminator and the
-- other starts with a text, are equal, whatever their sizes, exactly if the two texts are.
pub eq-same_text :
    (s t rest : List ℕ)
    → eq (literal_of_array (s ++ (0 ∷ []))) (literal_of_view (length t) (t ++ rest)) ≡ same_text s t
eq-same_text s t rest = rw (literal_of_array-eq s, literal_of_view-eq t rest) (eq-literal s t)

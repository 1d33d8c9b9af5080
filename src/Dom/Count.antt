-- ===== src/Dom/Count.antt =====
-- How often an element stands among the children of the others.
use serve.Base.{◌≡◌, ℕ, ◌+◌, ◌≤◌, List, [], ◌∷◌, ◌++◌, arith, if◌then◌else◌, ◌==◌}
use serve.Dom.{
  Dom, on_children, on_children_of, without, put_before, put_after, put_instead, detach,
}

unfoldable pub count : ℕ → List ℕ → ℕ
count n [] = 0
count n (c ∷ cs) = (if c == n then 1 else 0) + count n cs

unfoldable pub places : ℕ → Dom → ℕ
places n [] = 0
places n (e ∷ d) = count n (e.1) + places n d

-- Every element stands in one place at most.
abbrev pub IsPlacedOnce : Dom → Type 0
IsPlacedOnce d = (n : ℕ) → places n d ≤ 1

count-append : (n : ℕ) (xs ys : List ℕ) → count n (xs ++ ys) ≡ count n xs + count n ys
unfolding count
count-append n [] ys = omega arith
count-append n (x ∷ xs) ys = omega (arith, count-append n xs ys)

count-without :
    (n x : ℕ) (cs : List ℕ) → count n (without x cs) ≡ (if n == x then 0 else count n cs)
unfolding count without
count-without n x [] = ground arith
count-without n x (c ∷ cs) = ground (arith, count-without n x cs)

count-put_before :
    (n x r : ℕ) (cs : List ℕ)
    → count n (put_before x r cs) ≡ count n cs + (if n == x then count r cs else 0)
unfolding count put_before
count-put_before n x r [] = ground arith
count-put_before n x r (c ∷ cs) = ground (arith, count-put_before n x r cs)

count-put_after :
    (n x r : ℕ) (cs : List ℕ)
    → count n (put_after x r cs) ≡ count n cs + (if n == x then count r cs else 0)
unfolding count put_after
count-put_after n x r [] = ground arith
count-put_after n x r (c ∷ cs) = ground (arith, count-put_after n x r cs)

count-put_instead :
    (n x r : ℕ) (cs : List ℕ)
    → count n (put_instead x r cs)
      ≡ (if n == r then 0 else count n cs) + (if n == x then count r cs else 0)
unfolding count put_instead
count-put_instead n x r [] = ground arith
count-put_instead n x r (c ∷ cs) = ground (arith, count-put_instead n x r cs)

pub places-detach : (n x : ℕ) (d : Dom) → places n (detach x d) ≡ (if n == x then 0 else places n d)
unfolding places detach on_children
places-detach n x [] = ground arith
places-detach n x (e ∷ d) = ground (arith, places-detach n x d, count-without n x (e.1))

pub places-put_before :
    (n x r : ℕ) (d : Dom)
    → places n (on_children (put_before x r) d) ≡ places n d + (if n == x then places r d else 0)
unfolding places on_children
places-put_before n x r [] = ground arith
places-put_before n x r (e ∷ d) =
    ground (arith, places-put_before n x r d, count-put_before n x r (e.1))

pub places-put_after :
    (n x r : ℕ) (d : Dom)
    → places n (on_children (put_after x r) d) ≡ places n d + (if n == x then places r d else 0)
unfolding places on_children
places-put_after n x r [] = ground arith
places-put_after n x r (e ∷ d) =
    ground (arith, places-put_after n x r d, count-put_after n x r (e.1))

pub places-put_instead :
    (n x r : ℕ) (d : Dom)
    → places n (on_children (put_instead x r) d)
      ≡ (if n == r then 0 else places n d) + (if n == x then places r d else 0)
unfolding places on_children
places-put_instead n x r [] = ground arith
places-put_instead n x r (e ∷ d) =
    ground (arith, places-put_instead n x r d, count-put_instead n x r (e.1))

pub places-append :
    (n p x : ℕ) (d : Dom)
    → places n (on_children_of p (λ cs. cs ++ x ∷ []) d) ≡ places n d + (if n == x then 1 else 0)
unfolding places on_children_of count
places-append n p x [] = ground arith
places-append n p x (e ∷ d) = ground (arith, places-append n p x d, count-append n (e.1) (x ∷ []))

pub places-cons :
    (n p x : ℕ) (d : Dom)
    → places n (on_children_of p (λ cs. x ∷ cs) d) ≡ places n d + (if n == x then 1 else 0)
unfolding places on_children_of count
places-cons n p x [] = ground arith
places-cons n p x (e ∷ d) = ground (arith, places-cons n p x d)

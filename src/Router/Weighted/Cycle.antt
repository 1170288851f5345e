-- ===== src/Router/Weighted/Cycle.antt =====
-- The weighted round robin of `pickLocked` of internal/router/router.go, over one full cycle.
use gatemux.Common.{
  ℕ, zero, suc, ◌+◌, ◌-◌, ◌%◌, ◌≤◌, ◌<◌, ◌≡◌, refl, ap, ◌∙◌, Bool, true, false, List, [], ◌∷◌,
  arith, if◌then◌else◌, ltb, lt→ltb, ℤ, pos, ◌+ℤ◌, max_int64, wrap64, pos_part, ltb_ℤ, inl, inr,
  Bool-cases,
}
use native.Mathlib.Nat.{add-mod_right, mod-eq_of_lt}
use gatemux.Router.Types.{AliasTarget}
use gatemux.Router.Weighted.{weight_of, total_weight, pick_loop, index_of, pick_weighted}

abbrev pub share : AliasTarget → ℕ
share t = pos_part (weight_of t)

-- Σ weight, of all candidates and of those with a property.
abbrev pub shares : List AliasTarget → ℕ
shares [] = 0
shares (c ∷ cs) = share c + shares cs

abbrev one_if : Bool → ℕ
one_if true = 1
one_if false = 0

abbrev pub shares_of : (AliasTarget → Bool) → List AliasTarget → ℕ
shares_of q [] = 0
shares_of q (c ∷ cs) = (if q c then share c else 0) + shares_of q cs

weight_of_lem : (t : AliasTarget) → (weight_of t ≡ pos (share t)) × (1 ≤ share t)
weight_of_lem t = ground arith

step_exact :
    (o : ℕ) (c : AliasTarget)
    → o + share c ≤ max_int64
    → wrap64 (pos o +ℤ weight_of c) ≡ pos (o + share c)
step_exact o c h = rw (weight_of_lem c).0 (ground (arith, h))

total_weight_lem :
    (s : ℕ) (cs : List AliasTarget)
    → s + shares cs ≤ max_int64
    → total_weight (pos s) cs ≡ pos (s + shares cs)
unfolding total_weight
total_weight_lem s [] h = ground arith
total_weight_lem s (c ∷ cs) h =
    rw (step_exact s c (omega arith))
      (total_weight_lem (s + share c) cs (omega arith) ∙ ap pos (omega arith))

-- The candidate at a place, each candidate taking as many places as its weight.
choose : AliasTarget → List AliasTarget → ℕ → AliasTarget
choose last [] k = last
choose last (c ∷ cs) k =
    let later = choose last cs (k - share c) in if ltb k (share c) then c else later

pick_loop_lem :
    (i o : ℕ) (chosen : AliasTarget) (cs : List AliasTarget)
    → o ≤ i
    → o + shares cs ≤ max_int64
    → pick_loop (pos i) (pos o) chosen cs ≡ choose chosen cs (i - o)
unfolding pick_loop choose
pick_loop_lem i o chosen [] l h = refl
pick_loop_lem i o chosen (c ∷ cs) l h =
    rw (step_exact o c (omega arith)) (elim (Bool-cases (ltb i (o + share c))) [
      | inl e ↦ ground (arith, e)
      | inr e ↦
          let ih = pick_loop_lem i (o + share c) chosen cs (ground (arith, e)) (omega arith) in
          let same : i - (o + share c) ≡ i - o - share c = omega arith in
          let ih' = ih ∙ ap (choose chosen cs) same in ground (arith, e, ih')
    ])

-- How many of the first numbers have a property.
count : (ℕ → Bool) → ℕ → ℕ
count f zero = 0
count f (suc n) = count f n + one_if (f n)

count_add : (f : ℕ → Bool) (a b : ℕ) → count f (a + b) ≡ count f a + count (λ k. f (a + k)) b
unfolding count
count_add f a zero = let e : a + 0 ≡ a = omega arith in ap (count f) e ∙ omega arith
count_add f a (suc b) =
    let e : a + suc b ≡ suc (a + b) = omega arith in
    let last : count f (suc (a + b)) ≡ count f (a + b) + one_if (f (a + b)) = refl in
    omega (arith, ap (count f) e, last, count_add f a b)

count_ext : (f g : ℕ → Bool) (n : ℕ) → ((k : ℕ) → k < n → f k ≡ g k) → count f n ≡ count g n
unfolding count
count_ext f g zero h = refl
count_ext f g (suc n) h =
    let ih = count_ext f g n (λ k l. h k (omega arith)) in
    rw (h n (omega arith)) (omega (arith, ih))

count_all : (b : Bool) (n : ℕ) → count (λ k. b) n ≡ (if b then n else 0)
unfolding count
count_all true zero = refl
count_all false zero = refl
count_all true (suc n) = omega (arith, count_all true n)
count_all false (suc n) = omega (arith, count_all false n)

place_after :
    (q : AliasTarget → Bool) (last c : AliasTarget) (cs : List AliasTarget) (k : ℕ)
    → q (choose last (c ∷ cs) (share c + k)) ≡ q (choose last cs k)
unfolding choose
place_after q last c cs k =
    let after : ltb (share c + k) (share c) ≡ false = ground arith in
    let same : share c + k - share c ≡ k = omega arith in
    rw after (ap (λ x. q (choose last cs x)) same)

-- Each candidate is at as many places as it has weight.
count-choose :
    (q : AliasTarget → Bool) (last : AliasTarget) (cs : List AliasTarget)
    → count (λ k. q (choose last cs k)) (shares cs) ≡ shares_of q cs
unfolding choose
count-choose q last [] = unfold count in refl
count-choose q last (c ∷ cs) =
    let f = λ (k : ℕ). q (choose last (c ∷ cs) k) in
    let first =
      count_ext f (λ k. q c) (share c) (λ k l. rw (lt→ltb k (share c) l) refl)
      ∙ count_all (q c) (share c) in
    let later : count (λ k. f (share c + k)) (shares cs) ≡ shares_of q cs =
      count_ext (λ k. f (share c + k)) (λ k. q (choose last cs k)) (shares cs)
        (λ k l. place_after q last c cs k)
      ∙ count-choose q last cs in
    omega (arith, count_add f (share c) (shares cs), first, later)

-- A window of one period counts the same wherever it starts.
window : (ℕ → Bool) → ℕ → ℕ → ℕ
window f s zero = 0
window f s (suc n) = one_if (f s) + window f (suc s) n

window_last : (f : ℕ → Bool) (s n : ℕ) → window f s (suc n) ≡ window f s n + one_if (f (s + n))
unfolding window
window_last f s zero = let e : s + 0 ≡ s = omega arith in rw e (omega arith)
window_last f s (suc n) =
    let e : suc s + n ≡ s + suc n = omega arith in
    let ih = window_last f (suc s) n ∙ ap (λ x. window f (suc s) n + one_if (f x)) e in
    omega (arith, ih)

window-count : (f : ℕ → Bool) (n : ℕ) → window f 0 n ≡ count f n
unfolding count
window-count f zero = unfold window in refl
window-count f (suc n) =
    let e : 0 + n ≡ n = omega arith in
    let last = window_last f 0 n ∙ ap (λ x. window f 0 n + one_if (f x)) e in
    omega (arith, last, window-count f n)

window_shift : (f : ℕ → Bool) (s n : ℕ) → ((k : ℕ) → f (k + n) ≡ f k) → window f s n ≡ window f 0 n
window_shift f zero n h = refl
window_shift f (suc s) n h =
    let first : window f s (suc n) ≡ one_if (f s) + window f (suc s) n = unfold window in refl in
    let last = window_last f s n ∙ ap (λ x. window f s n + one_if x) (h s) in
    omega (arith, first, last, window_shift f s n h)

-- The picks of consecutive requests that have a property.
abbrev pub picked : (AliasTarget → Bool) → AliasTarget → List AliasTarget → ℤ → ℕ → ℕ
picked q first rest round zero = 0
picked q first rest round (suc n) =
    let r = pick_weighted first rest round in one_if (q r.0) + picked q first rest r.1 n

index_of_lem : (t r : ℕ) → 1 ≤ t → index_of (pos t) (pos r) ≡ pos (r % t)
unfolding index_of
index_of_lem zero r h = absurd (omega arith)
index_of_lem (suc t) r h = refl

pair : {A B : Type 0} {a a' : A} {b b' : B} → a ≡ a' → b ≡ b' → ◌≡◌ {A = A × B} (a, b) (a', b')
pair h k = cc

pick_weighted_lem :
    (first : AliasTarget) (rest : List AliasTarget) (r : ℕ)
    → shares (first ∷ rest) ≤ max_int64
    → suc r ≤ max_int64
    → pick_weighted first rest (pos r)
      ≡ (choose first (first ∷ rest) (r % shares (first ∷ rest)), pos (suc r))
unfolding pick_weighted
pick_weighted_lem first rest r h m =
    let w = shares (first ∷ rest) in
    let least = (weight_of_lem first).1 in
    let t : total_weight (pos 0) (first ∷ rest) ≡ pos w =
      total_weight_lem 0 (first ∷ rest) (omega arith) ∙ ap pos (omega arith) in
    let index : index_of (total_weight (pos 0) (first ∷ rest)) (pos r) ≡ pos (r % w) =
      ap (λ x. index_of x (pos r)) t ∙ index_of_lem w r (omega (arith, least)) in
    let some_weight : ltb_ℤ (pos 0) (total_weight (pos 0) (first ∷ rest)) ≡ true =
      ground (arith, t, least) in
    let start : r % w - 0 ≡ r % w = omega arith in
    pair
      (ap (λ x. pick_loop x (pos 0) first (first ∷ rest)) index
        ∙ pick_loop_lem (r % w) 0 first (first ∷ rest) (omega arith) (omega arith)
        ∙ ap (choose first (first ∷ rest)) start)
      (rw some_weight (ground arith))

picked-window :
    (q : AliasTarget → Bool) (first : AliasTarget) (rest : List AliasTarget) (r n : ℕ)
    → shares (first ∷ rest) ≤ max_int64
    → r + n ≤ max_int64
    → picked q first rest (pos r) n
      ≡ window (λ k. q (choose first (first ∷ rest) (k % shares (first ∷ rest)))) r n
unfolding window
picked-window q first rest r zero h m = refl
picked-window q first rest r (suc n) h m =
    rw (pick_weighted_lem first rest r h (omega arith))
      (omega (arith, picked-window q first rest (suc r) n h (omega arith)))

-- Over one full cycle of the round robin, as many picks as the weights add up to, wherever the counter
-- stands, the picks with any property are as many as the weights of the candidates with it add up
-- to: no candidate gets more or less than its share. The weights' sum and the counter are ints, and
-- the counter does not wrap in the cycle.
pub picked-shares_of :
    (q : AliasTarget → Bool) (first : AliasTarget) (rest : List AliasTarget) (r : ℕ)
    → shares (first ∷ rest) ≤ max_int64
    → r + shares (first ∷ rest) ≤ max_int64
    → picked q first rest (pos r) (shares (first ∷ rest)) ≡ shares_of q (first ∷ rest)
picked-shares_of q first rest r h m =
    let w = shares (first ∷ rest) in
    let f = λ (k : ℕ). q (choose first (first ∷ rest) (k % w)) in
    let period = λ (k : ℕ). ap (λ x. q (choose first (first ∷ rest) x)) (add-mod_right k w) in
    picked-window q first rest r w h m
    ∙ (window_shift f r w period
        ∙ (window-count f w
            ∙ (count_ext f (λ k. q (choose first (first ∷ rest) k)) w
                  (λ k l. ap (λ x. q (choose first (first ∷ rest) x)) (mod-eq_of_lt l))
                ∙ count-choose q first (first ∷ rest))))

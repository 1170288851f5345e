-- ===== src/Guardrails/Push/Mask.antt =====
-- The masks of `Push` in internal/guardrails/guardrails.go.
use gatemux.Common.{
  ℕ, zero, suc, ◌≤◌, ◌<◌, ◌≡◌, refl, ap, subst, ◌∙◌, inl, inr, Bool, true, List, [], ◌∷◌, length,
  Elem, arith,
}
use gatemux.Guardrails.Push.{clear_mask, mark, mark_all, is_masked}

pub length-clear_mask : (s : List ℕ) → length (clear_mask s) ≡ length s
unfolding clear_mask
length-clear_mask [] = refl
length-clear_mask (c ∷ cs) = ap (λ n. suc n) (length-clear_mask cs)

pub length-mark : (a b : ℕ) (mask : List Bool) → length (mark a b mask) ≡ length mask
unfolding mark
length-mark a b [] = refl
length-mark a zero (m ∷ ms) = refl
length-mark zero (suc b) (m ∷ ms) = ap (λ n. suc n) (length-mark zero b ms)
length-mark (suc a) (suc b) (m ∷ ms) = ap (λ n. suc n) (length-mark a b ms)

pub mark-grows :
    (a b n : ℕ) (mask : List Bool) → is_masked n mask ≡ true → is_masked n (mark a b mask) ≡ true
unfolding mark is_masked
mark-grows a b n [] h = h
mark-grows a zero n (m ∷ ms) h = h
mark-grows zero (suc b) zero (m ∷ ms) h = refl
mark-grows zero (suc b) (suc n) (m ∷ ms) h = mark-grows zero b n ms h
mark-grows (suc a) (suc b) zero (m ∷ ms) h = h
mark-grows (suc a) (suc b) (suc n) (m ∷ ms) h = mark-grows a b n ms h

pub mark-sets :
    (a b n : ℕ) (mask : List Bool)
    → a ≤ n
    → n < b
    → n < length mask
    → is_masked n (mark a b mask) ≡ true
unfolding mark is_masked
mark-sets a b n [] h k l = absurd (omega arith)
mark-sets a zero n (m ∷ ms) h k l = absurd (omega arith)
mark-sets zero (suc b) zero (m ∷ ms) h k l = refl
mark-sets zero (suc b) (suc n) (m ∷ ms) h k l =
    mark-sets zero b n ms (omega arith) (omega arith) (omega arith)
mark-sets (suc a) (suc b) zero (m ∷ ms) h k l = absurd (omega arith)
mark-sets (suc a) (suc b) (suc n) (m ∷ ms) h k l =
    mark-sets a b n ms (omega arith) (omega arith) (omega arith)

pub length-mark_all :
    (ss : List (ℕ × ℕ)) (mask : List Bool) → length (mark_all ss mask) ≡ length mask
unfolding mark_all
length-mark_all [] mask = refl
length-mark_all (s ∷ ss) mask = length-mark_all ss (mark s.0 s.1 mask) ∙ length-mark s.0 s.1 mask

pub mark_all-grows :
    (ss : List (ℕ × ℕ)) (n : ℕ) (mask : List Bool)
    → is_masked n mask ≡ true
    → is_masked n (mark_all ss mask) ≡ true
unfolding mark_all
mark_all-grows [] n mask h = h
mark_all-grows (s ∷ ss) n mask h =
    mark_all-grows ss n (mark s.0 s.1 mask) (mark-grows s.0 s.1 n mask h)

pub mark_all-sets :
    (ss : List (ℕ × ℕ)) (a b n : ℕ) (mask : List Bool)
    → Elem (a, b) ss
    → a ≤ n
    → n < b
    → n < length mask
    → is_masked n (mark_all ss mask) ≡ true
unfolding mark_all
mark_all-sets [] a b n mask e h k l = absurd e
mark_all-sets (s ∷ ss) a b n mask (inl here) h k l =
    mark_all-grows ss n (mark s.0 s.1 mask)
      (subst (λ p. is_masked n (mark p.0 p.1 mask) ≡ true) here (mark-sets a b n mask h k l))
mark_all-sets (s ∷ ss) a b n mask (inr later) h k l =
    mark_all-sets ss a b n (mark s.0 s.1 mask) later h k (omega (arith, length-mark s.0 s.1 mask))

-- A mask that covers no less than another.
pub record Grown (old new : List Bool) : Type 0 where
  pub size : length new ≡ length old
  pub grows : (n : ℕ) → is_masked n old ≡ true → is_masked n new ≡ true

pub Grown-refl : (m : List Bool) → Grown m m
Grown-refl m = record { size = refl; grows = λ n h. h }

pub Grown-trans : {a b c : List Bool} → Grown a b → Grown b c → Grown a c
Grown-trans f g = record { size = g.size ∙ f.size; grows = λ n h. g.grows n (f.grows n h) }

pub mark_all-Grown : (ss : List (ℕ × ℕ)) (m : List Bool) → Grown m (mark_all ss m)
mark_all-Grown ss m = record { size = length-mark_all ss m; grows = λ n h. mark_all-grows ss n m h }

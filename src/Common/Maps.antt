-- ===== src/Common/Maps.antt =====
-- Go's maps as association lists with one entry to a key: `find` is the comma-ok read, `put` the
-- write, `remove` is delete, `keep` a delete in a range loop, `size` is len.
use mathlib.Core.Path.{◌≡◌, refl}
use mathlib.Core.Logic.{◌↔◌}
use mathlib.Core.Bool.{Bool, true}
use mathlib.Core.Option.{Option, none, some}
use mathlib.Core.List.{List, [], ◌∷◌}
use Prim.Native.Nat.{ℕ, suc, ◌+◌, ◌≤◌}
use native.Mathlib.Omega.{arith}
use gatemux.Common.Tests.{if◌then◌else◌}
use gatemux.Common.Lists.{length}

pub record Eq (A : Type 0) : Type 0 where
  pub equals : A → A → Bool
  pub equals_iff : (a b : A) → (equals a b ≡ true) ↔ (a ≡ b)

module _ {K V : Type 0} where
  abbrev pub size : List (K × V) → ℕ
  size m = length m

module _ {V : Type 0} where
  abbrev pub kept : (V → Bool) → Option V → Option V
  kept p none = none
  kept p (some v) = if p v then some v else none

  -- How many entries a write adds.
  abbrev pub is_missing : Option V → ℕ
  is_missing none = 1
  is_missing (some v) = 0

module _ {K V : Type 0} ⦃e : Eq K⦄ where
  unfoldable pub find : K → List (K × V) → Option V
  find k [] = none
  find k ((j, v) ∷ m) = if e.equals j k then some v else find k m

  unfoldable pub put : K → V → List (K × V) → List (K × V)
  put k v [] = (k, v) ∷ []
  put k v ((j, w) ∷ m) = if e.equals j k then (k, v) ∷ m else (j, w) ∷ put k v m

  unfoldable pub remove : K → List (K × V) → List (K × V)
  remove k [] = []
  remove k ((j, w) ∷ m) = let rest = remove k m in if e.equals j k then rest else (j, w) ∷ rest

  unfoldable pub keep : (V → Bool) → List (K × V) → List (K × V)
  keep p [] = []
  keep p ((j, w) ∷ m) = let rest = keep p m in if p w then (j, w) ∷ rest else rest

  -- One entry to a key.
  abbrev pub IsMap : List (K × V) → Type 0
  IsMap [] = Unit
  IsMap ((j, w) ∷ m) = (find j m ≡ none) × IsMap m

  pub find-put :
      (k j : K) (v : V) (m : List (K × V))
      → find j (put k v m) ≡ (if e.equals k j then some v else find j m)
  unfolding find put
  find-put k j v [] = refl
  find-put k j v ((i, w) ∷ m) =
      ground (arith, e.equals_iff k j, e.equals_iff i k, e.equals_iff i j, find-put k j v m)

  pub find-put_self : (k : K) (v : V) (m : List (K × V)) → find k (put k v m) ≡ some v
  find-put_self k v m = ground (arith, find-put k k v m, e.equals_iff k k)

  pub find-remove :
      (k j : K) (m : List (K × V)) → find j (remove k m) ≡ (if e.equals k j then none else find j m)
  unfolding find remove
  find-remove k j [] = ground arith
  find-remove k j ((i, w) ∷ m) =
      ground (arith, e.equals_iff k j, e.equals_iff i k, e.equals_iff i j, find-remove k j m)

  pub find-keep-none :
      (p : V → Bool) (j : K) (m : List (K × V)) → find j m ≡ none → find j (keep p m) ≡ none
  unfolding find keep
  find-keep-none p j [] h = refl
  find-keep-none p j ((i, w) ∷ m) h = ground (arith, find-keep-none p j m)

  pub find-keep :
      (p : V → Bool) (j : K) (m : List (K × V)) → IsMap m → find j (keep p m) ≡ kept p (find j m)
  unfolding find keep
  find-keep p j [] h = refl
  find-keep p j ((i, w) ∷ m) h =
      ground (arith, find-keep p j m h.1, e.equals_iff i j, find-keep-none p j m, h.0)

  pub put-IsMap : (k : K) (v : V) (m : List (K × V)) → IsMap m → IsMap (put k v m)
  unfolding find put
  put-IsMap k v [] h = (refl, tt)
  put-IsMap k v ((j, w) ∷ m) h =
      ground (arith, put-IsMap k v m h.1, e.equals_iff j k, e.equals_iff k j, find-put k j v m, h.0)

  pub remove-IsMap : (k : K) (m : List (K × V)) → IsMap m → IsMap (remove k m)
  unfolding find remove
  remove-IsMap k [] h = tt
  remove-IsMap k ((j, w) ∷ m) h = ground (arith, remove-IsMap k m h.1, find-remove k j m, h.0)

  pub keep-IsMap : (p : V → Bool) (m : List (K × V)) → IsMap m → IsMap (keep p m)
  unfolding find keep
  keep-IsMap p [] h = tt
  keep-IsMap p ((j, w) ∷ m) h = ground (arith, keep-IsMap p m h.1, find-keep-none p j m h.0)

  pub keep-keep : (p : V → Bool) (m : List (K × V)) → keep p (keep p m) ≡ keep p m
  unfolding keep
  keep-keep p [] = refl
  keep-keep p ((j, w) ∷ m) = ground (arith, keep-keep p m)

  -- Of two tests of which one is sharper, it alone counts.
  pub keep-keep_sharper :
      (p q : V → Bool) (m : List (K × V))
      → ((v : V) → q v ≡ true → p v ≡ true)
      → keep q (keep p m) ≡ keep q m
  unfolding keep
  keep-keep_sharper p q [] h = refl
  keep-keep_sharper p q ((j, w) ∷ m) h = ground (arith, keep-keep_sharper p q m h, h w)

  pub keep-remove :
      (p : V → Bool) (k : K) (m : List (K × V)) → keep p (remove k m) ≡ remove k (keep p m)
  unfolding keep remove
  keep-remove p k [] = refl
  keep-remove p k ((j, w) ∷ m) = ground (arith, keep-remove p k m)

  pub remove-remove : (k : K) (m : List (K × V)) → remove k (remove k m) ≡ remove k m
  unfolding remove
  remove-remove k [] = refl
  remove-remove k ((j, w) ∷ m) = ground (arith, remove-remove k m)

  -- What is put among the kept is kept.
  pub keep-put :
      (p : V → Bool) (k : K) (v : V) (m : List (K × V))
      → p v ≡ true
      → keep p (put k v (keep p m)) ≡ put k v (keep p m)
  unfolding keep put
  keep-put p k v [] h = ground arith
  keep-put p k v ((j, w) ∷ m) h = ground (arith, keep-put p k v m h, keep-keep p m)

  pub put-put : (k : K) (v : V) (m : List (K × V)) → put k v (put k v m) ≡ put k v m
  unfolding put
  put-put k v [] = ground (arith, e.equals_iff k k)
  put-put k v ((j, w) ∷ m) = ground (arith, put-put k v m, e.equals_iff k k)

  pub size-put :
      (k : K) (v : V) (m : List (K × V)) → size (put k v m) ≡ size m + is_missing (find k m)
  unfolding find put
  size-put k v [] = omega arith
  size-put k v ((j, w) ∷ m) = ground (arith, size-put k v m)

  pub size-remove-le : (k : K) (m : List (K × V)) → size (remove k m) ≤ size m
  unfolding remove
  size-remove-le k [] = omega arith
  size-remove-le k ((j, w) ∷ m) = ground (arith, size-remove-le k m)

  pub size-remove-lt :
      (k : K) (m : List (K × V)) {v : V} → find k m ≡ some v → suc (size (remove k m)) ≤ size m
  unfolding remove find
  size-remove-lt k [] h = absurd (ground (arith, h))
  size-remove-lt k ((j, w) ∷ m) {v} h =
      ground (arith, size-remove-lt k m {v = v}, size-remove-le k m, h)

  pub size-keep-le : (p : V → Bool) (m : List (K × V)) → size (keep p m) ≤ size m
  unfolding keep
  size-keep-le p [] = omega arith
  size-keep-le p ((j, w) ∷ m) = ground (arith, size-keep-le p m)

  -- A map whose keys another map has is no larger.
  pub size-le :
      (a b : List (K × V))
      → IsMap a
      → ((k : K) (v : V) → find k a ≡ some v → (w : V) × (find k b ≡ some w))
      → size a ≤ size b
  unfolding find
  size-le [] b u h = omega arith
  size-le ((j, v) ∷ a) b u h =
      let (w, at) = h j v (ground (arith, e.equals_iff j j)) in
      let smaller = size-remove-lt j b at in
      let rest = size-le a (remove j b) u.1 λ k x found.
        let (y, there) = h k x (ground (arith, e.equals_iff j k, found, u.0)) in
        (y, ground (arith, find-remove j k b, there, e.equals_iff j k, found, u.0)) in
      omega (arith, smaller, rest)

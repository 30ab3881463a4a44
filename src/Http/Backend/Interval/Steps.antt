-- ===== src/Http/Backend/Interval/Steps.antt =====
-- Which intervals onBackendQueryPPLNSAcc lets pass, in whole steps of groupByInterval.
use poolfrontend.Prelude.{
  ℕ, zero, suc, ◌+◌, ◌*◌, ◌/◌, ◌%◌, ◌^◌, ◌≤◌, ◌<◌, ◌≡◌, refl, sym, ap, ◌∙◌, Bool, true, false, not,
  ◌⊎◌, inl, inr, subst, ◌||◌, ◌↔◌, arith, leb, ltb, ◌==◌,
}
use poolfrontend.Prelude.Int.{
  ℤ, pos, negsuc, ◌-ℤ◌, leb_ℤ, sub_ℕ, pos_part, neg_part, wrap64, ◌/ℤ◌, ◌%ℤ◌, neg,
}
use native.Mathlib.Nat.{div-add-mod', div-eq_of_eq-mul_left}
use poolfrontend.Http.Backend.Interval.{is_zero, bad_interval}

is_zero-pos : (n : ℕ) → is_zero (pos n) ≡ (n == 0)
is_zero-pos zero = refl
is_zero-pos (suc n) = ground arith

wrap64-pos : (d : ℕ) → d < 2 ^ 63 → wrap64 (pos d) ≡ pos d
unfolding wrap64
wrap64-pos d h = ground arith

sub_ℕ-leb : (a b d : ℕ) → sub_ℕ a b ≡ pos d → leb a b ≡ (d == 0)
sub_ℕ-leb a b d h = let p = ap pos_part h in let q = ap neg_part h in ground arith

plus_zero : (q : ℕ) → q + 0 ≡ q
plus_zero q = omega arith

good_parts :
    (d n : ℕ)
    → ((d == 0) || ((n == 0) || (not (d % n == 0) || ltb 3200 (d / n)))) ≡ false
    → (0 < d) × (0 < n) × (d % n ≡ 0) × (d / n ≤ 3200)
good_parts d n h = ground arith

parts_good :
    (d n : ℕ)
    → 0 < d
    → 0 < n
    → d % n ≡ 0
    → d / n ≤ 3200
    → ((d == 0) || ((n == 0) || (not (d % n == 0) || ltb 3200 (d / n)))) ≡ false
parts_good d n a b c e = ground arith

at_least_one : (k n d : ℕ) → 0 < d → d ≡ k * n → 1 ≤ k
at_least_one zero n d h e = ground arith
at_least_one (suc k) n d h e = omega arith

product_pos : (k n d : ℕ) → 1 ≤ k → 0 < n → d ≡ k * n → 0 < d
product_pos zero n d low n_pos e = ground arith
product_pos (suc k) n d low n_pos e = omega arith

no_rest : (m r : ℕ) → m + r ≡ m → r ≡ 0
no_rest m r h = omega arith

neg_not_more : (q : ℕ) → ltb (3200 + neg_part (neg q)) (pos_part (neg q) + 0) ≡ false
neg_not_more q = ground arith

negative_parts : (d r : ℕ) → ((d == 0) || (not (r == 0) || false)) ≡ false → (0 < d) × (r ≡ 0)
negative_parts d r h = ground arith

negative_good : (d r : ℕ) → 0 < d → r ≡ 0 → ((d == 0) || (not (r == 0) || false)) ≡ false
negative_good d r a b = ground arith

module _ (time_from time_to : ℤ) (d : ℕ) (difference : time_to -ℤ time_from ≡ pos d)
    (fits : d < 2 ^ 63) where
  unordered : leb_ℤ time_to time_from ≡ (d == 0)
  unfolding ◌-ℤ◌
  unordered =
      ap (leb (pos_part time_to + neg_part time_from)) (omega arith)
      ∙ sub_ℕ-leb (pos_part time_to + neg_part time_from) (neg_part time_to + pos_part time_from) d
          difference

  bad_positive :
      (n : ℕ)
      → bad_interval time_from time_to (pos n)
        ≡ ((d == 0) || ((n == 0) || (not (d % n == 0) || ltb 3200 (d / n))))
  unfolding bad_interval ◌/ℤ◌ ◌%ℤ◌
  bad_positive n =
      rw (difference, wrap64-pos d fits, unordered, is_zero-pos n, is_zero-pos (d % n))
        (ap (λ q. (d == 0) || ((n == 0) || (not (d % n == 0) || ltb 3200 q))) (plus_zero (d / n)))

  bad_negative :
      (n : ℕ)
      → bad_interval time_from time_to (negsuc n) ≡ ((d == 0) || (not (d % suc n == 0) || false))
  unfolding bad_interval ◌/ℤ◌ ◌%ℤ◌
  bad_negative n =
      rw (difference, wrap64-pos d fits, unordered, is_zero-pos (d % suc n))
        (ap (λ b. (d == 0) || (not (d % suc n == 0) || b)) (neg_not_more (d / suc n)))

  steps_of :
      (n : ℕ)
      → bad_interval time_from time_to (pos n) ≡ false
      → (0 < n) × (k : ℕ) × (d ≡ k * n) × (1 ≤ k) × (k ≤ 3200)
  steps_of n h =
      let (d_pos, n_pos, r, q) = good_parts d n (sym (bad_positive n) ∙ h) in
      let whole = div-add-mod' d n in
      (n_pos, d / n, omega arith, at_least_one (d / n) n d d_pos (omega arith), q)

  good_steps :
      (n k : ℕ)
      → 0 < n
      → d ≡ k * n
      → 1 ≤ k
      → k ≤ 3200
      → bad_interval time_from time_to (pos n) ≡ false
  good_steps n k n_pos e low high =
      let q = div-eq_of_eq-mul_left n_pos e in
      let whole = ap (λ x. x * n + d % n) (sym q) ∙ div-add-mod' d n in
      let r = no_rest (k * n) (d % n) (whole ∙ e) in
      bad_positive n ∙ parts_good d n (product_pos k n d low n_pos e) n_pos r (omega arith)

sub_ℕ-negsuc : (a b m : ℕ) → sub_ℕ a b ≡ negsuc m → leb a b ≡ true
sub_ℕ-negsuc a b m h = let q = ap neg_part h in ground arith

ℤ-cases : (x : ℤ) → ((d : ℕ) × (x ≡ pos d)) ⊎ ((m : ℕ) × (x ≡ negsuc m))
ℤ-cases (pos d) = inl (d, refl)
ℤ-cases (negsuc m) = inr (m, refl)

true_or : {b : Bool} (c : Bool) → b ≡ true → (b || c) ≡ false → ⊥
true_or {b = b} c h e = ground arith

module _ (time_from time_to : ℤ) where
  reversed : (m : ℕ) → time_to -ℤ time_from ≡ negsuc m → leb_ℤ time_to time_from ≡ true
  unfolding ◌-ℤ◌
  reversed m difference =
      ap (leb (pos_part time_to + neg_part time_from)) (omega arith)
      ∙ sub_ℕ-negsuc (pos_part time_to + neg_part time_from) (neg_part time_to + pos_part time_from)
          m difference

  accepted-pos :
      (g : ℤ) → bad_interval time_from time_to g ≡ false → (d : ℕ) × (time_to -ℤ time_from ≡ pos d)
  unfolding bad_interval
  accepted-pos g h = elim (ℤ-cases (time_to -ℤ time_from)) [
    | inl found ↦ found
    | inr (m, e) ↦ absurd (true_or _ (reversed m e) h)
  ]

module _ (time_from time_to : ℤ) (fits : pos_part (time_to -ℤ time_from) < 2 ^ 63) where
  bounded : (d : ℕ) → time_to -ℤ time_from ≡ pos d → d < 2 ^ 63
  bounded d e = subst (λ x. x < 2 ^ 63) (ap pos_part e) fits

  -- Of the ends of an interval, in whatever order, whose difference is below 2^63, a positive
  -- groupByInterval is accepted just when the end less the start is from one to 3200 whole steps of it.
  pub bad_interval_iff :
      (n : ℕ)
      → (bad_interval time_from time_to (pos n) ≡ false)
        ↔ ((0 < n) × (k : ℕ) × (time_to -ℤ time_from ≡ pos (k * n)) × (1 ≤ k) × (k ≤ 3200))
  bad_interval_iff n = (forward, backward)
    where
      forward :
          bad_interval time_from time_to (pos n) ≡ false
          → (0 < n) × (k : ℕ) × (time_to -ℤ time_from ≡ pos (k * n)) × (1 ≤ k) × (k ≤ 3200)
      forward h =
          let (d, e) = accepted-pos time_from time_to (pos n) h in
          let (n_pos, k, is, low, high) = steps_of time_from time_to d e (bounded d e) n h in
          (n_pos, k, e ∙ ap pos is, low, high)

      backward :
          (0 < n) × (k : ℕ) × (time_to -ℤ time_from ≡ pos (k * n)) × (1 ≤ k) × (k ≤ 3200)
          → bad_interval time_from time_to (pos n) ≡ false
      backward (n_pos, k, e, low, high) =
          good_steps time_from time_to (k * n) e (bounded (k * n) e) n k n_pos refl low high

  -- Of the ends of an interval, in whatever order, whose difference is below 2^63, a negative
  -- groupByInterval is accepted just when the end less the start is positive and its magnitude divides
  -- it, however many times.
  pub bad_interval-negative_iff :
      (n : ℕ)
      → (bad_interval time_from time_to (negsuc n) ≡ false)
        ↔ ((d : ℕ) × (time_to -ℤ time_from ≡ pos d) × (0 < d) × (d % suc n ≡ 0))
  bad_interval-negative_iff n = (forward, backward)
    where
      forward :
          bad_interval time_from time_to (negsuc n) ≡ false
          → (d : ℕ) × (time_to -ℤ time_from ≡ pos d) × (0 < d) × (d % suc n ≡ 0)
      forward h =
          let (d, e) = accepted-pos time_from time_to (negsuc n) h in
          let (d_pos, whole) =
            negative_parts d (d % suc n)
              (sym (bad_negative time_from time_to d e (bounded d e) n) ∙ h) in
          (d, e, d_pos, whole)

      backward :
          (d : ℕ) × (time_to -ℤ time_from ≡ pos d) × (0 < d) × (d % suc n ≡ 0)
          → bad_interval time_from time_to (negsuc n) ≡ false
      backward (d, e, a, b) =
          bad_negative time_from time_to d e (bounded d e) n ∙ negative_good d (d % suc n) a b

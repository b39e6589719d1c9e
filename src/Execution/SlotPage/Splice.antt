-- ===== src/Execution/SlotPage/Splice.antt =====
-- Bytes and fields of a page after a `memcpy` into it.
use resume_project.Common.{
  ℕ, zero, suc, ◌+◌, ◌-◌, ◌≤◌, ◌<◌, ◌≡◌, refl, ◌∙◌, ap, ◌⊎◌, inl, inr, List, [], ◌∷◌, ◌++◌, length,
  length-append, take, drop, length-take-le, length-drop, get_or, get_or-append_left,
  get_or-append_right, arith, IsU16, put16, get16, drop-append, sym,
}
use resume_project.Execution.SlotPage.{splice}

drop-nil : (n : ℕ) → drop {A = ℕ} n [] ≡ []
drop-nil zero = refl
drop-nil (suc n) = refl

get_or-take : (n : ℕ) (xs : List ℕ) (i : ℕ) → i < n → get_or (take n xs) i 0 ≡ get_or xs i 0
get_or-take zero xs i h = absurd (omega arith)
get_or-take (suc n) [] i h = refl
get_or-take (suc n) (x ∷ xs) zero h = refl
get_or-take (suc n) (x ∷ xs) (suc i) h = get_or-take n xs i (omega arith)

get_or-drop : (n : ℕ) (xs : List ℕ) (i : ℕ) → get_or (drop n xs) i 0 ≡ get_or xs (n + i) 0
get_or-drop zero xs i = ap (λ k. get_or xs k 0) (omega arith)
get_or-drop (suc n) [] i = refl
get_or-drop (suc n) (x ∷ xs) i = get_or-drop n xs i ∙ ap (λ k. get_or (x ∷ xs) k 0) (shift n i)
  where
    shift : (a b : ℕ) → suc (a + b) ≡ suc a + b
    shift a b = omega arith

drop_beyond : (xs ys : List ℕ) (k : ℕ) → drop (length xs + k) (xs ++ ys) ≡ drop k ys
drop_beyond [] ys k = ap (λ n. drop n ys) (omega arith)
drop_beyond (x ∷ xs) ys k =
    ap (λ n. drop n (x ∷ (xs ++ ys))) (shift (length xs) k) ∙ drop_beyond xs ys k
  where
    shift : (a b : ℕ) → suc a + b ≡ suc (a + b)
    shift a b = omega arith

drop-drop : (n k : ℕ) (xs : List ℕ) → drop k (drop n xs) ≡ drop (n + k) xs
drop-drop zero k xs = ap (λ m. drop m xs) (omega arith)
drop-drop (suc n) zero [] = sym (drop-nil (suc n + 0))
drop-drop (suc n) (suc k) [] = sym (drop-nil (suc n + suc k))
drop-drop (suc n) k (x ∷ xs) = drop-drop n k xs ∙ ap (λ m. drop m (x ∷ xs)) (shift n k)
  where
    shift : (a b : ℕ) → suc (a + b) ≡ suc a + b
    shift a b = omega arith

take_within :
    (k n : ℕ) (xs ys : List ℕ) → k ≤ n → n ≤ length xs → take k (take n xs ++ ys) ≡ take k xs
take_within zero n xs ys h g = refl
take_within (suc k) zero xs ys h g = absurd (omega arith)
take_within (suc k) (suc n) [] ys h g = absurd (omega arith)
take_within (suc k) (suc n) (x ∷ xs) ys h g =
    ap (λ zs. x ∷ zs) (take_within k n xs ys (omega arith) (omega arith))

module _ (payload : List ℕ) (at : ℕ) (bytes : List ℕ)
    (fits : at + length bytes ≤ length payload) where
  pub length-splice : length (splice payload at bytes) ≡ length payload
  unfolding splice
  length-splice = omega (
    arith,
    length-append (take at payload) (bytes ++ drop (at + length bytes) payload),
    length-append bytes (drop (at + length bytes) payload),
    length-take-le at payload,
    length-drop (at + length bytes) payload,
  )

  -- What was there before.
  pub splice_before : (i : ℕ) → i < at → get_or (splice payload at bytes) i 0 ≡ get_or payload i 0
  unfolding splice
  splice_before i h =
      let size = length-take-le at payload (omega arith) in
      get_or-append_left (take at payload) (bytes ++ drop (at + length bytes) payload) i 0
        (rw size h)
      ∙ get_or-take at payload i h

  -- What was put there, and what stands behind it.
  splice_from :
      (j : ℕ)
      → get_or (splice payload at bytes) (at + j) 0
        ≡ get_or (bytes ++ drop (at + length bytes) payload) j 0
  unfolding splice
  splice_from j =
      let size = length-take-le at payload (omega arith) in
      ap (λ k. get_or (splice payload at bytes) (k + j) 0) (sym size)
      ∙ get_or-append_right (take at payload) (bytes ++ drop (at + length bytes) payload) j 0

  pub splice_inside :
      (j : ℕ) → j < length bytes → get_or (splice payload at bytes) (at + j) 0 ≡ get_or bytes j 0
  splice_inside j h =
      splice_from j ∙ get_or-append_left bytes (drop (at + length bytes) payload) j 0 h

  pub splice_behind :
      (i : ℕ) → at + length bytes ≤ i → get_or (splice payload at bytes) i 0 ≡ get_or payload i 0
  splice_behind i h =
      let n = length bytes in
      let e : at + (n + (i - (at + n))) ≡ i = omega arith in
      ap (λ k. get_or (splice payload at bytes) k 0) (sym e)
      ∙ splice_from (n + (i - (at + n)))
      ∙ get_or-append_right bytes (drop (at + n) payload) (i - (at + n)) 0
      ∙ get_or-drop (at + n) payload (i - (at + n))
      ∙ ap (λ k. get_or payload k 0) (omega arith)

  pub drop-splice_behind :
      (k : ℕ) → at + length bytes ≤ k → drop k (splice payload at bytes) ≡ drop k payload
  unfolding splice
  drop-splice_behind k h =
      let n = length bytes in
      let size = length-take-le at payload (omega arith) in
      let e : at + (n + (k - (at + n))) ≡ k = omega arith in
      ap (λ x. drop x (splice payload at bytes)) (sym e)
      ∙ ap (λ x. drop (x + (n + (k - (at + n)))) (splice payload at bytes)) (sym size)
      ∙ drop_beyond (take at payload) (bytes ++ drop (at + n) payload) (n + (k - (at + n)))
      ∙ drop_beyond bytes (drop (at + n) payload) (k - (at + n))
      ∙ drop-drop (at + n) (k - (at + n)) payload
      ∙ ap (λ x. drop x payload) (omega arith)

  pub take-splice : (k : ℕ) → k ≤ at → take k (splice payload at bytes) ≡ take k payload
  unfolding splice
  take-splice k h =
      take_within k at payload (bytes ++ drop (at + length bytes) payload) h (omega arith)

  -- A field of two bytes beside what was put.
  pub get16-splice_ne :
      (i : ℕ)
      → (i + 2 ≤ at) ⊎ (at + length bytes ≤ i)
      → get16 (splice payload at bytes) i ≡ get16 payload i
  unfolding get16
  get16-splice_ne i (inl h) =
      rw (splice_before (i + 0) (omega arith), splice_before (i + 1) (omega arith)) refl
  get16-splice_ne i (inr h) =
      rw (splice_behind (i + 0) (omega arith), splice_behind (i + 1) (omega arith)) refl

-- A field that was put.
pub get16-splice :
    (payload : List ℕ) (at v : ℕ)
    → at + 2 ≤ length payload
    → IsU16 v
    → get16 (splice payload at (put16 v)) at ≡ v
unfolding get16 put16
get16-splice payload at v h small =
    let bytes = put16 v in
    let first = splice_inside payload at bytes h 0 (omega arith) in
    let second = splice_inside payload at bytes h 1 (omega arith) in
    rw (first, second) (omega (arith, small))

-- Bytes that were put, with what is behind them.
pub drop-splice :
    (payload : List ℕ) (at : ℕ) (bytes : List ℕ)
    → at + length bytes ≤ length payload
    → drop at (splice payload at bytes) ≡ bytes ++ drop (at + length bytes) payload
unfolding splice
drop-splice payload at bytes h =
    let size = length-take-le at payload (omega arith) in
    ap (λ k. drop k (splice payload at bytes)) (sym size)
    ∙ drop-append (take at payload) (bytes ++ drop (at + length bytes) payload)

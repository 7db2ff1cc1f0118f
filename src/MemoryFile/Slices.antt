-- ===== src/MemoryFile/Slices.antt =====
-- Reading and writing a file in memory, as laws on the slices of its contents.
use dblock.Prelude.{
  take-append-drop, take-append_of, drop-append_of, append_assoc, append-nil, length-append,
  length-take, take_all, drop-drop, ◌∙◌, sym, ltb, length-copy, ◌++◌, Bool-cases, inl, inr, ℕ, zero,
  suc, ◌+◌, ◌-◌, ◌≤◌, ◌<◌, ◌≡◌, ◌⊎◌, refl, ap, List, [], ◌∷◌, arith, length, take, drop, copy,
  replicate, length-drop, length-replicate, le→ltb, ltb→lt, le_of_ltb,
}
use dblock.Prelude.Fault.{ok}
use dblock.Prelude.Int.{pos}
use dblock.MemoryFile.{put_slice, write_at, MemoryFile, read_block}

-- `n` bytes from `offset` on.
abbrev pub slice : ℕ → ℕ → List ℕ → List ℕ
slice offset n xs = take n (drop offset xs)

copy-take : (n : ℕ) (src : List ℕ) → n ≤ length src → copy (replicate n 0) src ≡ take n src
copy-take zero src h = refl
copy-take (suc n) [] h = absurd (omega arith)
copy-take (suc n) (s ∷ ss) h = ap (λ t. s ∷ t) (copy-take n ss (omega arith))

-- A read that stays within the file returns its slice.
pub read_block-slice :
    (f : MemoryFile) (n offset : ℕ)
    → 0 < n
    → offset + n ≤ length f.contents
    → read_block f n offset ≡ ok (slice offset n f.contents)
unfolding read_block
read_block-slice f n offset some_bytes fits = ground (
  arith,
  copy-take n (drop offset f.contents) (omega (arith, length-drop offset f.contents)),
  length-replicate {A = ℕ} n 0,
)

-- A file with zeros behind its contents, up to `offset`.
abbrev pub padded : ℕ → List ℕ → List ℕ
padded offset c = c ++ replicate (offset - length c) 0

copy-nil : (xs : List ℕ) → copy xs [] ≡ xs
copy-nil [] = refl
copy-nil (x ∷ xs) = refl

take-grown :
    (n e m : ℕ) (c : List ℕ)
    → n ≤ e
    → n ≤ length c + m
    → take n (copy (replicate e 0) c) ≡ take n (c ++ replicate m 0)
take-grown zero e m c h k = refl
take-grown (suc n) zero m c h k = absurd (omega arith)
take-grown (suc n) (suc e) zero [] h k = absurd (omega arith)
take-grown (suc n) (suc e) (suc m) [] h k =
    ap (λ t. 0 ∷ t)
      (rw (copy-nil (replicate e 0)) at (take-grown n e m [] (omega arith) (omega arith)))
take-grown (suc n) (suc e) m (x ∷ c) h k =
    ap (λ t. x ∷ t) (take-grown n e m c (omega arith) (omega arith))

length-padded : (n : ℕ) (c : List ℕ) → length (padded n c) ≡ length c + (n - length c)
length-padded n c =
    length-append c (replicate (n - length c) 0)
    ∙ ap (λ k. length c + k) (length-replicate {A = ℕ} (n - length c) 0)

pub padded-within : (n : ℕ) (c : List ℕ) → n ≤ length c → padded n c ≡ c
padded-within n c h =
    let none_left : n - length c ≡ 0 = omega arith in
    ap (λ k. c ++ replicate k 0) none_left ∙ append-nil c

drop-all : (n : ℕ) (xs : List ℕ) → length xs ≤ n → drop n xs ≡ []
drop-all zero [] h = refl
drop-all zero (x ∷ xs) h = absurd (omega arith)
drop-all (suc n) [] h = refl
drop-all (suc n) (x ∷ xs) h = drop-all n xs (omega arith)

-- A file with `buf` written over what stood from `offset` on.
abbrev pub overwrite : ℕ → List ℕ → List ℕ → List ℕ
overwrite offset buf xs = take offset xs ++ (buf ++ drop (offset + length buf) xs)

pub write_at-overwrite :
    (buf : List ℕ) (offset : ℕ) (f : MemoryFile)
    → write_at buf (pos offset) f
      ≡ (ok (length buf), record f { contents = overwrite offset buf (padded offset f.contents) })
unfolding write_at put_slice
write_at-overwrite buf offset f =
    let end = offset + length buf in
    let c = f.contents in
    elim (Bool-cases (ltb (length c) end)) [
      | inl past ↦
          let size : length (copy (replicate end 0) c) ≡ end =
            length-copy (replicate end 0) c ∙ length-replicate {A = ℕ} end 0 in
          let fits = le→ltb (length (copy (replicate end 0) c)) end (omega (arith, size)) in
          rw (
            past,
            fits,
            take-grown offset end (offset - length c) c (omega arith) (omega arith),
            drop-all end (copy (replicate end 0) c) (omega (arith, size)),
            drop-all end (padded offset c) (omega (arith, length-padded offset c, ltb→lt _ _ past)),
          )
      | inr inside ↦
          let fits = le_of_ltb _ _ inside in
          rw (inside, inside, padded-within offset c (omega arith))
    ]

-- Within the file, or right behind it.
pub write_at-within :
    (buf : List ℕ) (offset : ℕ) (f : MemoryFile)
    → offset ≤ length f.contents
    → write_at buf (pos offset) f
      ≡ (ok (length buf), record f { contents = overwrite offset buf f.contents })
write_at-within buf offset f h =
    write_at-overwrite buf offset f
    ∙ ap (λ c. (ok (length buf), record f { contents = overwrite offset buf c }))
        (padded-within offset f.contents h)

-- Two writes, one behind the other, are one write.
pub overwrite-overwrite :
    (o : ℕ) (xs ys c : List ℕ)
    → o ≤ length c
    → overwrite (o + length xs) ys (overwrite o xs c) ≡ overwrite o (xs ++ ys) c
overwrite-overwrite o xs ys c h =
    let front = take o c ++ xs in
    let back = drop (o + length xs) c in
    let len : length front ≡ o + length xs =
      omega (arith, length-append (take o c) xs, length-take o c) in
    let split : overwrite o xs c ≡ front ++ back = sym (append_assoc (take o c) xs back) in
    ap (λ t. overwrite (o + length xs) ys t) split
    ∙ rw
        (
          take-append_of (o + length xs) front back len,
          ← drop-drop (o + length xs) (length ys) (front ++ back),
          drop-append_of (o + length xs) front back len,
          drop-drop (o + length xs) (length ys) c,
        )
        (let end : o + length xs + length ys ≡ o + length (xs ++ ys) =
            omega (arith, length-append xs ys) in
          rw end (simp append_assoc))

-- A write right behind the end appends.
pub overwrite-end : (xs c : List ℕ) → overwrite (length c) xs c ≡ c ++ xs
overwrite-end xs c =
    rw (take_all (length c) c refl, drop-all (length c + length xs) c (omega arith), append-nil)

pub length-overwrite :
    (o : ℕ) (xs c : List ℕ) → o ≤ length c → o + length xs ≤ length (overwrite o xs c)
length-overwrite o xs c h = omega (
  arith,
  length-append (take o c) (xs ++ drop (o + length xs) c),
  length-append xs (drop (o + length xs) c),
  length-take o c,
)

slice-append : (o n : ℕ) (xs ys : List ℕ) → o + n ≤ length xs → slice o n (xs ++ ys) ≡ slice o n xs
slice-append zero zero xs ys h = refl
slice-append zero (suc n) [] ys h = absurd (omega arith)
slice-append zero (suc n) (x ∷ xs) ys h = ap (λ t. x ∷ t) (slice-append zero n xs ys (omega arith))
slice-append (suc o) zero xs ys h = refl
slice-append (suc o) (suc n) [] ys h = absurd (omega arith)
slice-append (suc o) (suc n) (x ∷ xs) ys h = slice-append o (suc n) xs ys (omega arith)

-- A write leaves what stands before it.
pub slice-overwrite :
    (o n e : ℕ) (xs c : List ℕ)
    → o + n ≤ e
    → e ≤ length c
    → slice o n (overwrite e xs c) ≡ slice o n c
slice-overwrite o n e xs c before within =
    let fits : o + n ≤ length (take e c) = omega (arith, length-take e c) in
    slice-append o n (take e c) (xs ++ drop (e + length xs) c) fits
    ∙ sym (slice-append o n (take e c) (drop e c) fits)
    ∙ ap (slice o n) (take-append-drop e c)

-- A write leaves what stands behind it.
slice-overwrite_behind :
    (o n e : ℕ) (xs c : List ℕ)
    → e + length xs ≤ o
    → e ≤ length c
    → slice o n (overwrite e xs c) ≡ slice o n c
slice-overwrite_behind o n e xs c behind within =
    let front = take e c ++ xs in
    let back = drop (e + length xs) c in
    let k = o - (e + length xs) in
    let len : length front ≡ e + length xs =
      omega (arith, length-append (take e c) xs, length-take e c) in
    let at : e + length xs + k ≡ o = omega arith in
    ap (take n) (
      ap (drop o) (sym (append_assoc (take e c) xs back))
      ∙ ap (λ m. drop m (front ++ back)) (sym at)
      ∙ sym (drop-drop (e + length xs) k (front ++ back))
      ∙ ap (drop k) (drop-append_of (e + length xs) front back len)
      ∙ drop-drop (e + length xs) k c
      ∙ ap (λ m. drop m c) at)

-- A write at any offset leaves what stands apart from it within the file.
pub slice-apart :
    (o n e : ℕ) (xs c : List ℕ)
    → (o + n ≤ e) ⊎ (e + length xs ≤ o)
    → 0 < n
    → o + n ≤ length c
    → slice o n (overwrite e xs (padded e c)) ≡ slice o n c
slice-apart o n e xs c (inl before) some_bytes fits =
    slice-overwrite o n e xs (padded e c) before (omega (arith, length-padded e c))
    ∙ slice-append o n c (replicate (e - length c) 0) fits
slice-apart o n e xs c (inr behind) some_bytes fits =
    rw (padded-within e c (omega arith)) (slice-overwrite_behind o n e xs c behind (omega arith))

pub length-written : (e : ℕ) (xs c : List ℕ) → length c ≤ length (overwrite e xs (padded e c))
length-written e xs c = omega (
  arith,
  length-append (take e (padded e c)) (xs ++ drop (e + length xs) (padded e c)),
  length-append xs (drop (e + length xs) (padded e c)),
  length-take e (padded e c),
  length-drop (e + length xs) (padded e c),
  length-padded e c,
)

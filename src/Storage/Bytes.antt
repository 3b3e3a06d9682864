-- ===== src/Storage/Bytes.antt =====
-- The bytes of a file that `pwrite` and `pread` of src/storage.c change and return.
use mathlib.Core.Path.{fun_ext}
use native.Mathlib.Nat.{zero-add, add-zero}
use linglongta.Prelude.{
  ℕ, zero, suc, ◌+◌, ◌≤◌, ◌<◌, ◌≡◌, refl, sym, ap, ◌∙◌, ◌⊎◌, inl, inr, arith, List, [], ◌∷◌, ◌++◌,
  length, ◌==◌, if◌then◌else◌, Bool-cases,
}

-- Byte `p` after `xs` has been written at `off`.
unfoldable pub write_bytes : (ℕ → ℕ) → ℕ → List ℕ → ℕ → ℕ
write_bytes f off [] p = f p
write_bytes f off (x ∷ xs) p = if off == p then x else write_bytes f (off + 1) xs p

unfoldable pub read_bytes : (ℕ → ℕ) → ℕ → ℕ → List ℕ
read_bytes f off zero = []
read_bytes f off (suc n) = f off ∷ read_bytes f (off + 1) n

read_bytes_ext :
    (f g : ℕ → ℕ) (off n : ℕ)
    → ((p : ℕ) → off ≤ p → p < off + n → f p ≡ g p)
    → read_bytes f off n ≡ read_bytes g off n
unfolding read_bytes
read_bytes_ext f g off zero h = refl
read_bytes_ext f g off (suc n) h = cc (
  h off (omega arith) (omega arith),
  read_bytes_ext f g (off + 1) n (λ p lo hi. h p (omega arith) (omega arith)),
)

pub write_bytes_outside :
    (f : ℕ → ℕ) (off : ℕ) (xs : List ℕ) (p : ℕ)
    → (p < off) ⊎ (off + length xs ≤ p)
    → write_bytes f off xs p ≡ f p
unfolding write_bytes
write_bytes_outside f off [] p h = refl
write_bytes_outside f off (x ∷ xs) p h = ground (arith, write_bytes_outside f (off + 1) xs p)

-- What was written is read back.
pub read_bytes-write_bytes :
    (f : ℕ → ℕ) (off : ℕ) (xs : List ℕ) → read_bytes (write_bytes f off xs) off (length xs) ≡ xs
unfolding read_bytes write_bytes
read_bytes-write_bytes f off [] = refl
read_bytes-write_bytes f off (x ∷ xs) = ground (
  arith,
  read_bytes-write_bytes f (off + 1) xs,
  read_bytes_ext (write_bytes f off (x ∷ xs)) (write_bytes f (off + 1) xs) (off + 1) (length xs)
      (λ p lo hi. ground arith),
)

-- A write leaves what lies beside it alone.
pub read_bytes-write_bytes_apart :
    (f : ℕ → ℕ) (off : ℕ) (xs : List ℕ) (o n : ℕ)
    → (o + n ≤ off) ⊎ (off + length xs ≤ o)
    → read_bytes (write_bytes f off xs) o n ≡ read_bytes f o n
read_bytes-write_bytes_apart f off xs o n h =
    read_bytes_ext (write_bytes f off xs) f o n (λ p lo hi.
      write_bytes_outside f off xs p
        (elim h [ inl a ↦ inl (omega arith) | inr b ↦ inr (omega arith) ]))

pub length-read_bytes : (f : ℕ → ℕ) (off n : ℕ) → length (read_bytes f off n) ≡ n
unfolding read_bytes
length-read_bytes f off zero = refl
length-read_bytes f off (suc n) = omega (arith, length-read_bytes f (off + 1) n)

write_bytes_base :
    (f g : ℕ → ℕ) (off : ℕ) (xs : List ℕ) (p : ℕ)
    → f p ≡ g p
    → write_bytes f off xs p ≡ write_bytes g off xs p
unfolding write_bytes
write_bytes_base f g off [] p e = e
write_bytes_base f g off (x ∷ xs) p e =
    ap (λ r. if off == p then x else r) (write_bytes_base f g (off + 1) xs p e)

write_bytes-append_at :
    (f : ℕ → ℕ) (off : ℕ) (xs ys : List ℕ) (p : ℕ)
    → write_bytes f off (xs ++ ys) p ≡ write_bytes (write_bytes f off xs) (off + length xs) ys p
unfolding write_bytes
write_bytes-append_at f off [] ys p = rw add-zero
write_bytes-append_at f off (x ∷ xs) ys p = elim (Bool-cases (off == p)) [
  | inl here ↦ rw here (
      sym (
        write_bytes_outside (write_bytes f off (x ∷ xs)) (off + suc (length xs)) ys p
          (inl (ground arith))
        ∙ rw here))
  | inr beyond ↦ rw beyond (
      write_bytes-append_at f (off + 1) xs ys p
      ∙ rw (off_suc off (length xs)) (
          write_bytes_base (write_bytes f (off + 1) xs) (write_bytes f off (x ∷ xs))
            (off + suc (length xs)) ys p (rw beyond)))
]
  where
    off_suc : (a b : ℕ) → a + 1 + b ≡ a + suc b
    off_suc a b = omega arith

-- Two writes side by side are one.
pub write_bytes-append :
    (f : ℕ → ℕ) (off : ℕ) (xs ys : List ℕ)
    → write_bytes (write_bytes f off xs) (off + length xs) ys ≡ write_bytes f off (xs ++ ys)
write_bytes-append f off xs ys = fun_ext (λ p. sym (write_bytes-append_at f off xs ys p))

pub read_bytes-add :
    (f : ℕ → ℕ) (off m n : ℕ)
    → read_bytes f off (m + n) ≡ read_bytes f off m ++ read_bytes f (off + m) n
unfolding read_bytes
read_bytes-add f off zero n = rw (zero-add, add-zero)
read_bytes-add f off (suc m) n =
    rw (suc_add m n, off_suc off m) (ap (λ l. f off ∷ l) (read_bytes-add f (off + 1) m n))
  where
    suc_add : (a b : ℕ) → suc a + b ≡ suc (a + b)
    suc_add a b = omega arith

    off_suc : (a b : ℕ) → a + suc b ≡ a + 1 + b
    off_suc a b = omega arith

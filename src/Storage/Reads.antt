-- ===== src/Storage/Reads.antt =====
-- src/storage.c: what `pread` returns after the writes of a data file.
use linglongta.Prelude.{
  ℕ, zero, suc, ◌+◌, ◌-◌, ◌≤◌, ◌≡◌, refl, sym, ap, ◌∙◌, ◌⊎◌, inl, inr, arith, List, [], ◌∷◌, length,
  take, leb, Bool-cases, ℕ_discrete,
}
use linglongta.Storage.Types.{BlockFile, DataFile, Env}
use linglongta.Storage.Bytes.{
  read_bytes, read_bytes-write_bytes, read_bytes-write_bytes_apart, length-read_bytes,
}
use linglongta.Storage.Files.{sync_data, sync_data_file_header, sync_slot, pread, grown}

take-length : (xs : List ℕ) → take (length xs) xs ≡ xs
take-length [] = refl
take-length (x ∷ xs) = ap (λ ys. x ∷ ys) (take-length xs)

length-take-le : (n : ℕ) (xs : List ℕ) → length (take n xs) ≤ length xs
length-take-le zero xs = omega arith
length-take-le (suc n) [] = omega arith
length-take-le (suc n) (x ∷ xs) = omega (arith, length-take-le n xs)

-- A full read ends within the file, or is empty.
pread_full :
    (f : DataFile) (o n : ℕ)
    → length (pread f o n) ≡ n
    → (pread f o n ≡ read_bytes f.bytes o n) × ((n ≡ 0) ⊎ (o + n ≤ f.size))
unfolding pread
pread_full f o n full = elim (Bool-cases (leb (o + n) f.size)) [
  | inl fits ↦ (rw fits, inr (ground arith))
  | inr short ↦
      let e : f.size - o ≡ n = ground (arith, length-read_bytes f.bytes o (f.size - o)) in
      (rw (short, e), inl (ground arith))
]

pread_in :
    (f : DataFile) (o n : ℕ) → (n ≡ 0) ⊎ (o + n ≤ f.size) → pread f o n ≡ read_bytes f.bytes o n
unfolding pread
pread_in f o n h = elim (Bool-cases (leb (o + n) f.size)) [
  | inl fits ↦ rw fits
  | inr short ↦ let e : f.size - o ≡ n = ground arith in rw (short, e)
]

size-le-grown : (size o w : ℕ) → size ≤ grown size o w
unfolding grown
size-le-grown size o w = ground arith

-- The bytes of a whole write lie within the file.
grown-ge : (size o w : ℕ) → (w ≡ 0) ⊎ (o + w ≤ grown size o w)
unfolding grown
grown-ge size o w = elim (ℕ_discrete w 0) [ yes e ↦ inl e | no ne ↦ inr (ground arith) ]

-- Data that is written whole is read back.
pub pread-sync_data :
    (env : Env) (b o : ℕ) (content : List ℕ) (f : DataFile)
    → env.data_written b o (length content) ≡ length content
    → pread (sync_data env b o content f).1 o (length content) ≡ content
unfolding sync_data
pread-sync_data env b o content f whole =
    pread_in _ o (length content) (rw whole (grown-ge f.size o (length content)))
    ∙ rw (whole, take-length content) (read_bytes-write_bytes f.bytes o content)

-- A write of data, whole or short, leaves what could be read beside it.
pub pread-sync_data_apart :
    (env : Env) (b off : ℕ) (content : List ℕ) (f : DataFile) (o n : ℕ)
    → (o + n ≤ off) ⊎ (off + length content ≤ o)
    → length (pread f o n) ≡ n
    → pread (sync_data env b off content f).1 o n ≡ pread f o n
unfolding sync_data
pread-sync_data_apart env b off content f o n apart full =
    let (old, inside) = pread_full f o n full in
    pread_in _ o n (still inside)
    ∙ read_bytes-write_bytes_apart f.bytes off (take w content) o n (shorter apart)
    ∙ sym old
  where
    w : ℕ
    w = env.data_written b off (length content)

    still : (n ≡ 0) ⊎ (o + n ≤ f.size) → (n ≡ 0) ⊎ (o + n ≤ grown f.size off w)
    still (inl e) = inl e
    still (inr le) = inr (omega (arith, size-le-grown f.size off w))

    shorter :
        (o + n ≤ off) ⊎ (off + length content ≤ o)
        → (o + n ≤ off) ⊎ (off + length (take w content) ≤ o)
    shorter (inl h) = inl h
    shorter (inr h) = inr (omega (arith, length-take-le w content))

-- The writes of the header and of a slot change no block.
pub pread-sync_data_file_header :
    (env : Env) (b : ℕ) (fh : BlockFile) (f : DataFile) (o n : ℕ)
    → pread (sync_data_file_header env b fh f) o n ≡ pread f o n
unfolding sync_data_file_header pread
pread-sync_data_file_header env b fh f o n = elim (Bool-cases (env.header_written b)) [
  | inl done ↦ rw done
  | inr lost ↦ rw lost
]

pub pread-sync_slot :
    (env : Env) (b i v : ℕ) (f : DataFile) (o n : ℕ)
    → pread (sync_slot env b i v f) o n ≡ pread f o n
unfolding sync_slot pread
pread-sync_slot env b i v f o n = elim (Bool-cases (env.slot_written b i)) [
  | inl done ↦ rw done
  | inr lost ↦ rw lost
]

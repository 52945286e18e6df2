-- ===== src/Disk/Install/Loader.antt =====
-- boot/bootsect.S: what the boot loader wants on the disk, against the sectors that
-- `disk_install_system` makes.
use mathlib.Core.List.{append_assoc, append-nil}
use fur_os.Prelude.{
  ℕ, zero, suc, ◌+◌, ◌-◌, ◌*◌, ◌≤◌, ◌<◌, ◌^◌, ◌≡◌, refl, sym, ap, ◌∙◌, List, [], ◌∷◌, ◌++◌, arith,
  length, take, drop, length-take, length-drop, take-append, length-replicate, true, false, ltb,
  leb, Bool-cases, inl, inr, codes,
}
use fur_os.KString.{kmemcpy}
use fur_os.KString.Copy.{kmemcpy-eq, length-kmemcpy}
use fur_os.KString.Bytes.{
  IsBytes, append-IsBytes, drop-IsBytes, replicate-IsBytes, kmemcpy-IsBytes, all_bytes,
  all_bytes-IsBytes,
}
use fur_os.Fs.Node.{zeros}
use fur_os.Fs.Image.{put32, get32}
use fur_os.Fs.Image.Bytes.{put32-IsBytes}
use fur_os.Disk.Drive.{IsSector}
use fur_os.Disk.Install.{info_sector, kernel_sector}

-- The loop `load_loop`: `k` sectors from `lba` on, one behind the other.
unfoldable pub load_loop : (ℕ → List ℕ) → ℕ → ℕ → List ℕ
load_loop sector lba zero = []
load_loop sector lba (suc k) = sector lba ++ load_loop sector (suc lba) k

-- A disk from which the loader starts `kernel` at `entry`: sector 0 is the loader, sector 1 begins
-- with "FURBOOT1", the size in bytes, the number of sectors and the entry, and the sectors from 2 on,
-- as many as sector 1 says, begin with the kernel.
pub record Bootable (bootsect kernel : List ℕ) (entry : ℕ) (sector : ℕ → List ℕ) : Type 0 where
  pub loader : sector 0 ≡ take 512 bootsect
  pub magic : take 8 (sector 1) ≡ 70 ∷ 85 ∷ 82 ∷ 66 ∷ 79 ∷ 79 ∷ 84 ∷ 49 ∷ []
  pub size : get32 (drop 8 (sector 1)) ≡ length kernel
  pub some_sectors : 0 < get32 (drop 12 (sector 1))
  pub not_too_many : get32 (drop 12 (sector 1)) ≤ 1920
  pub entry_offset : get32 (drop 16 (sector 1)) ≡ entry
  pub image : take (length kernel) (load_loop sector 2 (get32 (drop 12 (sector 1)))) ≡ kernel

drop_all : (n : ℕ) (xs : List ℕ) → length xs ≤ n → drop n xs ≡ []
drop_all zero [] h = refl
drop_all zero (x ∷ xs) h = absurd (omega (arith, h))
drop_all (suc n) [] h = refl
drop_all (suc n) (x ∷ xs) h = drop_all n xs (omega (arith, h))

drop-drop : (n m : ℕ) (xs : List ℕ) → drop m (drop n xs) ≡ drop (n + m) xs
drop-drop zero m xs = ap (λ k. drop k xs) (omega arith)
drop-drop (suc n) m [] = drop_all m [] (omega arith) ∙ sym (drop_all (suc n + m) [] (omega arith))
drop-drop (suc n) m (x ∷ xs) = drop-drop n m xs ∙ ap (λ k. drop k (x ∷ xs)) (shift n m)
  where
    shift : (n m : ℕ) → suc (n + m) ≡ suc n + m
    shift n m = omega arith

take-drop : (n : ℕ) (xs : List ℕ) → take n xs ++ drop n xs ≡ xs
take-drop zero xs = refl
take-drop (suc n) [] = refl
take-drop (suc n) (x ∷ xs) = ap (λ r. x ∷ r) (take-drop n xs)

take_past : (n : ℕ) (xs ys : List ℕ) → take (length xs + n) (xs ++ ys) ≡ xs ++ take n ys
take_past n [] ys = ap (λ k. take k ys) (omega arith)
take_past n (x ∷ xs) ys =
    ap (λ k. take k (x ∷ (xs ++ ys))) (shift (length xs) n) ∙ ap (λ r. x ∷ r) (take_past n xs ys)
  where
    shift : (a b : ℕ) → suc a + b ≡ suc (a + b)
    shift a b = omega arith

length-zeros : (n : ℕ) → length (zeros n) ≡ n
unfolding zeros
length-zeros n = length-replicate {A = ℕ} n 0

-- A whole sector of the kernel, and its last one.
module _ (kernel : List ℕ) (i : ℕ) where
  abbrev rest : List ℕ
  rest = drop (i * 512) kernel

  whole_sector : 512 ≤ length rest → kernel_sector kernel i ≡ take 512 rest
  whole_sector h =
      let b : leb 512 (length kernel - i * 512) ≡ true =
        ground (arith, h, length-drop (i * 512) kernel) in
      rw b (
        kmemcpy-eq (zeros 512) rest 512 (omega (arith, length-zeros 512)) h
        ∙ ap (λ r. take 512 rest ++ r) (drop_all 512 (zeros 512) (omega (arith, length-zeros 512)))
        ∙ append-nil (take 512 rest))

  last_sector : length rest < 512 → kernel_sector kernel i ≡ rest ++ drop (length rest) (zeros 512)
  last_sector h =
      let b : leb 512 (length kernel - i * 512) ≡ false =
        ground (arith, h, length-drop (i * 512) kernel) in
      let e : take (length rest) rest ≡ rest =
        ap (take (length rest)) (sym (append-nil rest)) ∙ take-append rest [] in
      rw b (
        ap (kmemcpy (zeros 512) rest) (sym (length-drop (i * 512) kernel))
        ∙ kmemcpy-eq (zeros 512) rest (length rest) (omega (arith, h, length-zeros 512))
            (omega arith)
        ∙ ap (λ r. r ++ drop (length rest) (zeros 512)) e)

-- The sectors that are written begin with the kernel.
pub load_loop-kernel :
    (k i : ℕ) (kernel : List ℕ) (sector : ℕ → List ℕ)
    → ((j : ℕ) → i ≤ j → j < i + k → sector (2 + j) ≡ kernel_sector kernel j)
    → length kernel ≤ (i + k) * 512
    → take (length (drop (i * 512) kernel)) (load_loop sector (2 + i) k) ≡ drop (i * 512) kernel
unfolding load_loop
load_loop-kernel zero i kernel sector held fits =
    let e : drop (i * 512) kernel ≡ [] = drop_all (i * 512) kernel (omega (arith, fits)) in
    rw e refl
load_loop-kernel (suc k) i kernel sector held fits =
    let here : List ℕ = drop (i * 512) kernel in
    let next : List ℕ = drop (suc i * 512) kernel in
    let more : List ℕ = load_loop sector (suc (2 + i)) k in
    let first : sector (2 + i) ≡ kernel_sector kernel i = held i (omega arith) (omega arith) in
    elim (Bool-cases (ltb (length here) 512)) [
      | inl y ↦
          let q : sector (2 + i) ≡ here ++ drop (length here) (zeros 512) =
            first ∙ last_sector kernel i (ground (arith, y)) in
          ap (λ b. take (length here) (b ++ more)) q
          ∙ ap (take (length here)) (append_assoc here (drop (length here) (zeros 512)) more)
          ∙ take-append here (drop (length here) (zeros 512) ++ more)
      | inr n ↦
          let long : 512 ≤ length here = ground (arith, n) in
          let q : sector (2 + i) ≡ take 512 here = first ∙ whole_sector kernel i long in
          let d : drop 512 here ≡ next =
            drop-drop (i * 512) 512 kernel ∙ ap (λ m. drop m kernel) (step i) in
          let size : length here ≡ length (take 512 here) + length next = omega (
            arith,
            long,
            length-take 512 here,
            length-drop (i * 512) kernel,
            length-drop (suc i * 512) kernel,
          ) in
          let ih : take (length next) more ≡ next =
            ap (λ l. take (length next) (load_loop sector l k)) (up i)
            ∙ load_loop-kernel k (suc i) kernel sector (λ j x y. held j (omega arith) (omega arith))
                (omega (arith, fits)) in
          ap (λ b. take (length here) (b ++ more)) q
          ∙ ap (λ m. take m (take 512 here ++ more)) size
          ∙ take_past (length next) (take 512 here) more
          ∙ ap (λ r. take 512 here ++ r) (ih ∙ sym d)
          ∙ take-drop 512 here
    ]
  where
    step : (i : ℕ) → i * 512 + 512 ≡ suc i * 512
    step i = omega arith

    up : (i : ℕ) → suc (2 + i) ≡ 2 + suc i
    up i = omega arith

-- The sectors that are written are sectors.
zeros-IsBytes : IsBytes (zeros 512)
unfolding zeros
zeros-IsBytes = replicate-IsBytes 512 0 (omega arith)

pub boot-IsSector :
    (bootsect : List ℕ) → IsBytes bootsect → IsSector (kmemcpy (zeros 512) bootsect 512)
boot-IsSector bootsect b = record {
  size = length-kmemcpy (zeros 512) bootsect 512 ∙ length-zeros 512;
  bytes = kmemcpy-IsBytes (zeros 512) bootsect 512 zeros-IsBytes b;
}

pub kernel_sector-IsSector :
    (kernel : List ℕ) (i : ℕ) → IsBytes kernel → IsSector (kernel_sector kernel i)
kernel_sector-IsSector kernel i b = record {
  size = length-kmemcpy (zeros 512) (drop (i * 512) kernel) _ ∙ length-zeros 512;
  bytes =
      kmemcpy-IsBytes (zeros 512) (drop (i * 512) kernel) _ zeros-IsBytes
        (drop-IsBytes (i * 512) kernel b);
}

pub info_sector-IsSector : (size count entry : ℕ) → IsSector (info_sector size count entry)
info_sector-IsSector size count entry = record {
  size = let e : length (zeros 488) ≡ 488 = length-zeros 488 in unfold put32 in omega (arith, e);
  bytes =
      append-IsBytes (codes "FURBOOT1") _
        (all_bytes-IsBytes (codes "FURBOOT1") (unfold all_bytes in refl))
        (put32-IsBytes size _ (
          put32-IsBytes count _ (
            put32-IsBytes entry _ (
              put32-IsBytes 0 (zeros 488)
                (unfold zeros in replicate-IsBytes 488 0 (omega arith))))));
}

pub info_magic :
    (size count entry : ℕ)
    → take 8 (info_sector size count entry) ≡ 70 ∷ 85 ∷ 82 ∷ 66 ∷ 79 ∷ 79 ∷ 84 ∷ 49 ∷ []
info_magic size count entry = refl

pub info_size :
    (size count entry : ℕ) → size < 2 ^ 32 → get32 (drop 8 (info_sector size count entry)) ≡ size
unfolding put32 get32
info_size size count entry h = omega (arith, h)

pub info_count :
    (size count entry : ℕ) → count < 2 ^ 32 → get32 (drop 12 (info_sector size count entry)) ≡ count
unfolding put32 get32
info_count size count entry h = omega (arith, h)

pub info_entry :
    (size count entry : ℕ) → entry < 2 ^ 32 → get32 (drop 16 (info_sector size count entry)) ≡ entry
unfolding put32 get32
info_entry size count entry h = omega (arith, h)

pub boot_whole :
    (bootsect : List ℕ)
    → 512 ≤ length bootsect
    → kmemcpy (zeros 512) bootsect 512 ≡ take 512 bootsect
boot_whole bootsect h =
    kmemcpy-eq (zeros 512) bootsect 512 (omega (arith, length-zeros 512)) h
    ∙ ap (λ r. take 512 bootsect ++ r) (drop_all 512 (zeros 512) (omega (arith, length-zeros 512)))
    ∙ append-nil (take 512 bootsect)

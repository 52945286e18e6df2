-- ===== src/Disk/Sectors.antt =====
-- The loops of disk.c over the sectors of the payload.
use mathlib.Core.List.{append_assoc}
use fur_os.Prelude.{
  ℕ, zero, suc, ◌+◌, ◌*◌, ◌≤◌, ◌<◌, ◌≡◌, refl, sym, ◌∙◌, ap, Option, some, List, [], ◌∷◌, ◌++◌,
  arith, length, take, drop, length-take, length-drop, length-append, take-append, Bool-cases, inl,
  inr, ◌==◌,
}
use fur_os.KString.{kmemcpy}
use fur_os.KString.Copy.{kmemcpy-eq, length-kmemcpy}
use fur_os.KString.Bytes.{IsBytes, take-IsBytes, drop-IsBytes}
use fur_os.Fs.Node.{Status, ok}
use fur_os.Fs.MakePath.{copy_at}
use fur_os.Disk.Drive.{Drive, Keeps, IsSector}
use fur_os.Disk.Store.{chunk, save_sectors, load_sectors}

take_nil : (n : ℕ) → take {A = ℕ} n [] ≡ []
take_nil zero = refl
take_nil (suc n) = refl

add_suc : (a b : ℕ) → suc a + b ≡ suc (a + b)
add_suc a b = omega arith

take_add : (a b : ℕ) (xs : List ℕ) → take (a + b) xs ≡ take a xs ++ take b (drop a xs)
take_add zero b xs = ap (λ n. take n xs) (omega arith)
take_add (suc a) b [] = take_nil (suc a + b) ∙ sym (take_nil b)
take_add (suc a) b (x ∷ xs) =
    ap (λ n. take n (x ∷ xs)) (add_suc a b) ∙ ap (λ r. x ∷ r) (take_add a b xs)

take_exact : (n : ℕ) (xs ys : List ℕ) → length xs ≡ n → take n (xs ++ ys) ≡ xs
take_exact n xs ys e = rw (← e) (take-append xs ys)

-- One sector more is read in behind those that are there.
take-copy_at :
    (q p s : List ℕ) (n : ℕ)
    → n + 512 ≤ length q
    → length s ≡ 512
    → take n q ≡ take n p
    → s ≡ take 512 (drop n p)
    → take (n + 512) (copy_at q n s 512) ≡ take (n + 512) p
take-copy_at q p s n room size same e =
    let rest : List ℕ = drop 512 (drop n q) in
    let c : kmemcpy (drop n q) s 512 ≡ s ++ rest =
      kmemcpy-eq (drop n q) s 512 (omega (arith, length-drop n q)) (omega arith)
      ∙ ap (λ r. r ++ rest) (take_all s size) in
    ap (λ r. take (n + 512) (take n q ++ r)) c
    ∙ ap (take (n + 512)) (sym (append_assoc (take n q) s rest))
    ∙ take_exact (n + 512) (take n q ++ s) rest
        (omega (arith, length-append (take n q) s, length-take n q))
    ∙ ap (λ r. r ++ s) same
    ∙ ap (λ r. take n p ++ r) e
    ∙ sym (take_add n 512 p)
  where
    take_all : (s : List ℕ) → length s ≡ 512 → take 512 s ≡ s
    take_all s h = rw (← h) (take_self s)
      where
        take_self : (s : List ℕ) → take (length s) s ≡ s
        take_self [] = refl
        take_self (x ∷ xs) = ap (λ r. x ∷ r) (take_self xs)

length-copy_at : (q s : List ℕ) (n : ℕ) → n ≤ length q → length (copy_at q n s 512) ≡ length q
length-copy_at q s n h = omega (
  arith,
  length-append (take n q) (kmemcpy (drop n q) s 512),
  length-take n q,
  length-drop n q,
  length-kmemcpy (drop n q) s 512,
)

-- The first sector of the payload, behind the header.
abbrev pub first_lba : ℕ
first_lba = 2049

next_start : (i : ℕ) → suc i * 512 ≡ i * 512 + 512
next_start i = omega arith

plus_zero : (i : ℕ) → i + 0 ≡ i
plus_zero i = omega arith

shift : (i k : ℕ) → i + suc k ≡ suc i + k
shift i k = omega arith

-- A sector's worth of bytes is one.
pub chunk-IsSector :
    (a : Drive) (payload : List ℕ) (i : ℕ)
    → suc i * 512 ≤ length payload
    → IsBytes payload
    → IsSector (chunk a payload i)
chunk-IsSector a payload i long b = record {
  size = omega (arith, length-take 512 (drop (i * 512) payload), length-drop (i * 512) payload);
  bytes = take-IsBytes 512 (drop (i * 512) payload) (drop-IsBytes (i * 512) payload b);
}

module _ (a : Drive) (keeps : Keeps a) where
  open keeps use {
    capacity, sector, IsHealthy, read_some, read_keeps, read_healthy, write_ok, write_healthy,
    write_stores, write_keeps,
  }

  -- After the writes of `k` sectors from `i` on.
  pub record Saved (k i : ℕ) (payload : List ℕ) (s : a.State) (r : Status × a.State) : Type 0 where
    pub status : r.0 ≡ ok
    pub healthy : IsHealthy r.1
    pub stored : (j : ℕ) → i ≤ j → j < i + k → sector r.1 (first_lba + j) ≡ chunk a payload j
    pub other : (lba : ℕ) → lba < first_lba + i → sector r.1 lba ≡ sector s lba

  pub save_sectors-Saved :
      (k i : ℕ) (payload : List ℕ) (s : a.State)
      → IsHealthy s
      → first_lba + (i + k) ≤ capacity
      → (i + k) * 512 ≤ length payload
      → IsBytes payload
      → Saved k i payload s (save_sectors a k i payload s)
  save_sectors-Saved zero i payload s h c n b =
      unfold save_sectors in
      record {
        status = refl;
        healthy = h;
        stored = λ j x l. absurd (omega arith);
        other = λ lba l. refl;
      }
  save_sectors-Saved (suc k) i payload s h c n b =
      let w : Status × a.State = a.write_sector s (first_lba + i) (chunk a payload i) in
      let e : w.0 ≡ ok = write_ok s (first_lba + i) (chunk a payload i) h (omega arith) in
      let r : Saved k (suc i) payload w.1 (save_sectors a k (suc i) payload w.1) =
        save_sectors-Saved k (suc i) payload w.1
          (write_healthy s (first_lba + i) (chunk a payload i) h (omega arith)) (omega arith)
          (omega arith) b in
      let q : save_sectors a (suc k) i payload s ≡ save_sectors a k (suc i) payload w.1 =
        unfold save_sectors in ground (arith, e) in
      rw q (record {
        status = r.status;
        healthy = r.healthy;
        stored = λ j x l. elim (Bool-cases (j == i)) [
          | inl z ↦
              let y : j ≡ i = ground arith in
              rw y (
                r.other (first_lba + i) (omega arith)
                ∙ write_stores s (first_lba + i) (chunk a payload i) h (omega arith)
                    (chunk-IsSector a payload i (omega arith) b))
          | inr z ↦ r.stored j (ground arith) (omega arith)
        ];
        other = λ lba l.
            r.other lba (omega arith)
            ∙ write_keeps s (first_lba + i) lba (chunk a payload i) h (omega arith) (omega arith)
                (omega arith);
      })

  -- After the reads of `k` sectors from `i` on into `payload`, when the disk holds those of `p`.
  pub record Loaded (k i : ℕ) (p : List ℕ) (r : Status × List ℕ × a.State) : Type 0 where
    pub status : r.0 ≡ ok
    pub healthy : IsHealthy r.2
    pub bytes : take ((i + k) * 512) r.1 ≡ take ((i + k) * 512) p

  pub load_sectors-Loaded :
      (k i : ℕ) (payload p : List ℕ) (s : a.State)
      → IsHealthy s
      → first_lba + (i + k) ≤ capacity
      → (i + k) * 512 ≤ length payload
      → (i + k) * 512 ≤ length p
      → take (i * 512) payload ≡ take (i * 512) p
      → ((j : ℕ) → i ≤ j → j < i + k → sector s (first_lba + j) ≡ chunk a p j)
      → Loaded k i p (load_sectors a k i payload s)
  load_sectors-Loaded zero i payload p s h c m n e held =
      unfold load_sectors in record { status = refl; healthy = h; bytes = rw (plus_zero i) e }
  load_sectors-Loaded (suc k) i payload p s h c m n e held =
      let r : Option (List ℕ) × a.State = a.read_sector s (first_lba + i) in
      let b : List ℕ = sector s (first_lba + i) in
      let got : r.0 ≡ some b = read_some s (first_lba + i) h (omega arith) in
      let here : b ≡ chunk a p i = held i (omega arith) (omega arith) in
      let full : length b ≡ 512 =
        ap length here
        ∙ omega (arith, length-take 512 (drop (i * 512) p), length-drop (i * 512) p) in
      let payload' : List ℕ = copy_at payload (i * 512) b 512 in
      let long : length payload' ≡ length payload =
        length-copy_at payload b (i * 512) (omega arith) in
      let next : take (suc i * 512) payload' ≡ take (suc i * 512) p =
        rw (next_start i) (take-copy_at payload p b (i * 512) (omega arith) full e here) in
      let l : Loaded k (suc i) p (load_sectors a k (suc i) payload' r.1) =
        load_sectors-Loaded k (suc i) payload' p r.1
          (read_healthy s (first_lba + i) h (omega arith)) (omega arith) (omega arith) (omega arith)
          next
          (λ j x y.
            read_keeps s (first_lba + i) (first_lba + j) h (omega arith)
            ∙ held j (omega arith) (omega arith)) in
      let q : load_sectors a (suc k) i payload s ≡ load_sectors a k (suc i) payload' r.1 =
        unfold load_sectors in ground (arith, got) in
      rw q (record { status = l.status; healthy = l.healthy; bytes = rw (shift i k) l.bytes })

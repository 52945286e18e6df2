-- ===== src/Disk/Install/Regions.antt =====
-- `disk_install_system`: which sectors it writes, and with what.
use fur_os.Prelude.{
  ℕ, zero, suc, ◌+◌, ◌*◌, ◌≤◌, ◌<◌, ◌≡◌, refl, sym, subst, ap, ◌∙◌, true, false, ◌||◌, not, List,
  arith, length, take, drop, ltb, leb, ◌==◌, Bool-cases, inl, inr, branch,
}
use mathlib.Core.Path.{fun_ext}
use fur_os.KString.{kmemcpy}
use fur_os.KString.Bytes.{IsBytes}
use fur_os.Fs.Node.{Status, ok, zeros, status_branch}
use fur_os.Fs.Image.{get32}
use fur_os.Disk.Drive.{Drive, Keeps}
use fur_os.Disk.Store.{Disk, disk_available, sectors_of}
use fur_os.Disk.Install.{
  info_sector, kernel_sector, too_small, install_sectors, write_system, disk_install_system,
}
use fur_os.Disk.Install.Loader.{
  load_loop, Bootable, load_loop-kernel, boot-IsSector, kernel_sector-IsSector,
  info_sector-IsSector, info_magic, info_size, info_count, info_entry, boot_whole,
}

module _ (a : Drive) (D : a.State → Type 0)
    (below : (s : a.State) (lba : ℕ) (b : List ℕ) → lba < 2048 → D s → D (a.write_sector s lba b).1)
    (flushed : (s : a.State) → D s → D (a.flush s)) where
  install_sectors-other :
      (k i : ℕ) (kernel : List ℕ) (s : a.State)
      → 2 + (i + k) ≤ 2048
      → D s
      → D (install_sectors a k i kernel s).1
  unfolding install_sectors
  install_sectors-other zero i kernel s h d = d
  install_sectors-other (suc k) i kernel s h d =
      let b : List ℕ = kernel_sector kernel i in
      let w : Status × a.State = a.write_sector s (2 + i) b in
      let d' : D w.1 = below s (2 + i) b (omega arith) d in
      status_branch (λ (r : Status × a.State). D r.1) w.0
        (λ e. install_sectors-other k (suc i) kernel w.1 (omega arith) d') (λ e. d')

  write_system-other :
      (s : a.State) (bootsect kernel : List ℕ) (entry : ℕ)
      → sectors_of a (length kernel) ≤ 1920
      → D s
      → D (write_system a s bootsect kernel entry).1
  unfolding write_system
  write_system-other s bootsect kernel entry h d =
      let P : Status × a.State → Type 0 = λ r. D r.1 in
      let n : ℕ = sectors_of a (length kernel) in
      let b : List ℕ = kmemcpy (zeros 512) bootsect 512 in
      let info : List ℕ = info_sector (length kernel) n entry in
      let w : Status × a.State = a.write_sector s 0 b in
      let x : Status × a.State = a.write_sector w.1 1 info in
      let d' : D w.1 = below s 0 b (omega arith) d in
      let d'' : D x.1 = below w.1 1 info (omega arith) d' in
      status_branch P w.0
        (λ e.
          status_branch P x.0 (λ e. install_sectors-other n 0 kernel x.1 (omega (arith, h)) d'')
            (λ e. d''))
        (λ e. d')

  -- Whatever holds of the drives, and is kept by writes to sectors below 2048 and by flushing, holds
  -- after the installation of the system, on every path through it: so it leaves the sectors of the
  -- file system, from 2048 on, alone.
  pub disk_install_system-other :
      (d : Disk a) (bootsect kernel : List ℕ) (entry : ℕ)
      → D d.drive
      → D (disk_install_system a d bootsect kernel entry).1.drive
  unfolding disk_install_system
  disk_install_system-other d bootsect kernel entry h =
      let P : Status × Disk a → Type 0 = λ r. D r.1.drive in
      let size : ℕ = length kernel in
      let w : Status × a.State = write_system a d.drive bootsect kernel entry in
      branch P (not (disk_available a d)) (λ y. h)
        (λ n.
          branch P (too_small a d) (λ y. h)
            (λ n.
              branch P (ltb (length bootsect) 512) (λ y. h)
                (λ n.
                  branch P (size == 0 || leb size entry) (λ y. h)
                    (λ n.
                      branch P (sectors_of a size == 0 || ltb 1920 (sectors_of a size)) (λ y. h)
                        (λ n.
                          let d' : D w.1 =
                            write_system-other d.drive bootsect kernel entry (ground (arith, n))
                              h in
                          status_branch P w.0 (λ e. flushed w.1 d') (λ e. d'))))))

installed :
    (a : Drive) (d : Disk a) (bootsect kernel : List ℕ) (entry : ℕ)
    → disk_available a d ≡ true
    → too_small a d ≡ false
    → (write_system a d.drive bootsect kernel entry).0 ≡ ok
    → 512 ≤ length bootsect
    → entry < length kernel
    → length kernel ≤ 1920 * 512
    → disk_install_system a d bootsect kernel entry ≡ (
      ok,
      record d {
        drive = a.flush (write_system a d.drive bootsect kernel entry).1;
        g_last_error = "ok";
      },
    )
unfolding disk_install_system
installed a d bootsect kernel entry live fits done whole inside small =
    ground (arith, done, live, fits)

module _ (a : Drive) (keeps : Keeps a) where
  open keeps use {
    capacity, sector, IsHealthy, write_ok, write_healthy, write_stores, write_keeps, flush_keeps,
  }

  -- After the writes of `k` sectors of the kernel from `i` on.
  record Written (k i : ℕ) (kernel : List ℕ) (s : a.State) (r : Status × a.State) : Type 0 where
    status : r.0 ≡ ok
    healthy : IsHealthy r.1
    stored : (j : ℕ) → i ≤ j → j < i + k → sector r.1 (2 + j) ≡ kernel_sector kernel j
    lower : (lba : ℕ) → lba < 2 + i → sector r.1 lba ≡ sector s lba

  install_sectors-Written :
      (k i : ℕ) (kernel : List ℕ) (s : a.State)
      → IsHealthy s
      → 2 + (i + k) ≤ capacity
      → IsBytes kernel
      → Written k i kernel s (install_sectors a k i kernel s)
  install_sectors-Written zero i kernel s h c p =
      unfold install_sectors in
      record {
        status = refl;
        healthy = h;
        stored = λ j b l. absurd (omega arith);
        lower = λ lba l. refl;
      }
  install_sectors-Written (suc k) i kernel s h c p =
      let b : List ℕ = kernel_sector kernel i in
      let w : Status × a.State = a.write_sector s (2 + i) b in
      let e : w.0 ≡ ok = write_ok s (2 + i) b h (omega arith) in
      let r : Written k (suc i) kernel w.1 (install_sectors a k (suc i) kernel w.1) =
        install_sectors-Written k (suc i) kernel w.1 (write_healthy s (2 + i) b h (omega arith))
          (omega arith) p in
      let q : install_sectors a (suc k) i kernel s ≡ install_sectors a k (suc i) kernel w.1 =
        unfold install_sectors in ground (arith, e) in
      rw q (record {
        status = r.status;
        healthy = r.healthy;
        stored = λ j x l. elim (Bool-cases (j == i)) [
          | inl z ↦
              let y : j ≡ i = ground arith in
              rw y (
                r.lower (2 + i) (omega arith)
                ∙ write_stores s (2 + i) b h (omega arith) (kernel_sector-IsSector kernel i p))
          | inr z ↦ r.stored j (ground arith) (omega arith)
        ];
        lower = λ lba l.
            r.lower lba (omega arith)
            ∙ write_keeps s (2 + i) lba b h (omega arith) (omega arith) (omega arith);
      })

  write_system-Bootable :
      (s : a.State) (bootsect kernel : List ℕ) (entry : ℕ)
      → IsHealthy s
      → 6144 ≤ capacity
      → IsBytes bootsect
      → IsBytes kernel
      → 512 ≤ length bootsect
      → entry < length kernel
      → length kernel ≤ 1920 * 512
      → let r = write_system a s bootsect kernel entry in
        (r.0 ≡ ok) × IsHealthy r.1 × Bootable bootsect kernel entry (sector r.1)
  write_system-Bootable s bootsect kernel entry h big p q whole inside small =
      let b : List ℕ = kmemcpy (zeros 512) bootsect 512 in
      let n : ℕ = sectors_of a (length kernel) in
      let w : Status × a.State = a.write_sector s 0 b in
      let info : List ℕ = info_sector (length kernel) n entry in
      let x : Status × a.State = a.write_sector w.1 1 info in
      let e : w.0 ≡ ok = write_ok s 0 b h (omega arith) in
      let hw : IsHealthy w.1 = write_healthy s 0 b h (omega arith) in
      let f : x.0 ≡ ok = write_ok w.1 1 info hw (omega arith) in
      let hx : IsHealthy x.1 = write_healthy w.1 1 info hw (omega arith) in
      let l : Written n 0 kernel x.1 (install_sectors a n 0 kernel x.1) =
        install_sectors-Written n 0 kernel x.1 hx (omega arith) q in
      let written : write_system a s bootsect kernel entry ≡ install_sectors a n 0 kernel x.1 =
        unfold write_system in ground (arith, e, f) in
      let last : a.State = (install_sectors a n 0 kernel x.1).1 in
      let one : sector last 1 ≡ info =
        l.lower 1 (omega arith)
        ∙ write_stores w.1 1 info hw (omega arith) (info_sector-IsSector (length kernel) n entry) in
      let count : get32 (drop 12 (sector last 1)) ≡ n =
        ap (λ b. get32 (drop 12 b)) one ∙ info_count (length kernel) n entry (omega arith) in
      rw written (
        l.status,
        l.healthy,
        record {
          loader =
              l.lower 0 (omega arith)
              ∙ write_keeps w.1 1 0 info hw (omega arith) (omega arith) (omega arith)
              ∙ write_stores s 0 b h (omega arith) (boot-IsSector bootsect p)
              ∙ boot_whole bootsect whole;
          magic = ap (take 8) one ∙ info_magic (length kernel) n entry;
          size = ap (λ b. get32 (drop 8 b)) one ∙ info_size (length kernel) n entry (omega arith);
          some_sectors = rw count (omega arith);
          not_too_many = rw count (omega arith);
          entry_offset =
              ap (λ b. get32 (drop 16 b)) one ∙ info_entry (length kernel) n entry (omega arith);
          image =
              ap (λ m. take (length kernel) (load_loop (sector last) 2 m)) count
              ∙ load_loop-kernel n 0 kernel (sector last) (λ j z y. l.stored j z y) (omega arith);
        },
      )

  -- On a healthy disk of at least 6144 sectors that is selected and not reported as too small, with a
  -- boot sector of at least 512 bytes, and a kernel of at most 1920 sectors with its entry inside:
  -- the installation succeeds, and the disk then holds what the boot loader of boot/bootsect.S wants:
  -- sector 0 is the boot sector, sector 1 begins with "FURBOOT1", the size of the kernel, a number of
  -- sectors from 1 to 1920, and the entry, and that many sectors from 2 on begin with the kernel.
  pub disk_install_system-Bootable :
      (d : Disk a) (bootsect kernel : List ℕ) (entry : ℕ)
      → IsHealthy d.drive
      → 6144 ≤ capacity
      → disk_available a d ≡ true
      → too_small a d ≡ false
      → IsBytes bootsect
      → IsBytes kernel
      → 512 ≤ length bootsect
      → entry < length kernel
      → length kernel ≤ 1920 * 512
      → ((disk_install_system a d bootsect kernel entry).0 ≡ ok)
        × Bootable bootsect kernel entry
            (sector (disk_install_system a d bootsect kernel entry).1.drive)
  disk_install_system-Bootable d bootsect kernel entry h big live fits p q whole inside small =
      let w : Status × a.State = write_system a d.drive bootsect kernel entry in
      let (done, sound, held) =
        write_system-Bootable d.drive bootsect kernel entry h big p q whole inside small in
      let e : disk_install_system a d bootsect kernel entry
          ≡ (ok, record d { drive = a.flush w.1; g_last_error = "ok" }) =
        installed a d bootsect kernel entry live fits done whole inside small in
      let same : sector (a.flush w.1) ≡ sector w.1 = fun_ext (λ j. flush_keeps w.1 j sound) in
      rw e (refl, subst (Bootable bootsect kernel entry) (sym same) held)

-- ===== src/Ata/Scan/Recorded.antt =====
-- kernel/ata.c: the table of AHCI disks.
use fur_os.Prelude.{
  ℕ, suc, ◌<◌, ◌≤◌, ◌≡◌, ◌≢◌, refl, ap, ◌∙◌, true, List, codes, length, arith, ◌==◌, get_or, set,
  replicate, length-set, get_or-set_self, get_or-set_ne, Bool-cases, inl, inr,
}
use fur_os.KString.{kstrcpy}
use fur_os.Fs.Node.{zeros}
use fur_os.Ata.Ahci.{AhciDevice}
use fur_os.Ata.Scan.Controllers.{no_device}

-- A device as one that could not be identified.
abbrev pub unidentified : ℕ → ℕ → AhciDevice
unidentified port port_no = record {
  present = true;
  port = port;
  port_no = port_no;
  sectors28 = 0x0FFFFFFF;
  model = kstrcpy (zeros 41) (codes "AHCI Disk");
}

-- Of at most 8 devices the first `count` are there, all of them unidentified.
pub record IsUnidentified (devices : List AhciDevice) (count : ℕ) : Type 0 where
  pub room : length devices ≡ 8
  pub bounded : count ≤ 8
  pub entries :
      (i : ℕ)
      → i < count
      → (port : ℕ) × (port_no : ℕ) × (get_or devices i no_device ≡ unidentified port port_no)

-- A write behind the devices that count.
pub behind :
    (devices : List AhciDevice) (count : ℕ) (dev : AhciDevice)
    → IsUnidentified devices count
    → IsUnidentified (set devices count dev) count
behind devices count dev u = record {
  room = length-set devices count dev ∙ u.room;
  bounded = u.bounded;
  entries = λ i h.
      let ne : count ≢ i = λ q. absurd (omega (arith, h, q)) in
      let (a, b, q) = u.entries i h in (a, b, get_or-set_ne devices count i dev no_device ne ∙ q);
}

pub one_more :
    (devices : List AhciDevice) (count port port_no : ℕ)
    → IsUnidentified devices count
    → count < 8
    → IsUnidentified (set devices count (unidentified port port_no)) (suc count)
one_more devices count port port_no u lt =
    let new : AhciDevice = unidentified port port_no in
    let after = behind devices count new u in
    record {
      room = after.room;
      bounded = omega (arith, lt);
      entries = λ i h. elim (Bool-cases (i == count)) [
        | inl e ↦
            let q : i ≡ count = ground (arith, e) in
            let r : count < length devices = omega (arith, lt, u.room) in
            (
              port,
              port_no,
              ap (λ j. get_or (set devices count new) j no_device) q
                  ∙ get_or-set_self devices count new no_device r,
            )
        | inr n ↦ after.entries i (ground (arith, h, n))
      ];
    }

pub nothing : IsUnidentified (replicate 8 no_device) 0
nothing = record { room = refl; bounded = omega arith; entries = λ i h. absurd (omega (arith, h)) }

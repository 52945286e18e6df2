-- ===== src/Tests/IdeDisk.antt =====
-- kernel/ata.c over one IDE disk that answers, and over a bus where nothing does.
use fur_os.Prelude.{
  ℕ, suc, ◌<◌, ◌≤◌, ◌≡◌, Bool, ◌&&◌, ◌||◌, leb, refl, ap, ◌∙◌, true, false, some, List, [], ◌∷◌,
  ◌++◌, length, arith, ltb, ◌==◌, if◌then◌else◌, replicate, length-replicate, branch,
}
use fur_os.Fs.Node.{zeros}
use fur_os.Ata.Bus.{Ports, bit}
use fur_os.Ata.Ide.{IdeDevice}
use fur_os.Ata.Ide.Pio.{
  Pio, Phase, idle, reading, writing, Speaks, tick, has_data, start, address, delivered, put_words,
}
use fur_os.Ata.Ide.Transfers.{IsServing}
use fur_os.Ata.Scan.{Ata, ide_entry}
use fur_os.Ata.Sectors.{selected}
use fur_os.Ata.Selected.{IsIde}

-- The bits of busy, ready, data and error.
abbrev flags : Bool → Bool → Bool → ℕ
flags true d false = 128
flags true d true = 129
flags false true false = 72
flags false true true = 73
flags false false false = 64
flags false false true = 65

abbrev status : Pio → ℕ
status v = flags (ltb 0 v.busy) (has_data v.phase) v.failed

-- A disk of 64 MB.
abbrev sector_count : ℕ
sector_count = 131072

-- A read or a write of a sector that the disk does not have ends with the error bit.
abbrev obey : ℕ → Pio → Pio
obey x v =
    if (x == 0x20 || x == 0x30) && leb sector_count (address v.regs)
    then record v { failed = true; busy = 3 }
    else record v { phase = start x v; busy = 3 }

abbrev give : Pio → Phase → ℕ × Pio
give v idle = (0, v)
give v (reading []) = (0, v)
give v (reading (w ∷ ws)) = (w, record v { phase = delivered ws })
give v (writing lba ws) = (0, v)

abbrev accept : Pio → ℕ → Phase → Pio
accept v w idle = v
accept v w (reading ws) = v
accept v w (writing lba ws) =
    if suc (length ws) == 256
    then record v { phase = idle; words = put_words v.words lba (ws ++ w ∷ []); busy = 2 }
    else record v { phase = writing lba (ws ++ w ∷ []) }

abbrev write_register : Pio → ℕ → ℕ → Pio
write_register v port x =
    if port == 0x1F2
    then record v { regs = record (v.regs) { count = x } }
    else if port == 0x1F3
    then record v { regs = record (v.regs) { lba0 = x } }
    else if port == 0x1F4
    then record v { regs = record (v.regs) { lba1 = x } }
    else if port == 0x1F5
    then record v { regs = record (v.regs) { lba2 = x } }
    else if port == 0x1F6
    then record v { regs = record (v.regs) { select = x } }
    else if port == 0x1F7
    then obey x v
    else v

-- The first disk of the first channel.
abbrev pub one_disk : Ports
one_disk = record {
  State = Pio;
  inb = λ v port. (status v, if port == 0x1F7 then tick v else if port == 0x3F6 then tick v else v);
  outb = write_register;
  inw = λ v port. give v v.phase;
  outw = λ v port w. accept v w v.phase;
  inl = λ v port. (0xFFFFFFFF, v);
  outl = λ v port x. v;
  load32 = λ v at. (0xFFFFFFFF, v);
  store32 = λ v at x. v;
  load_bytes = λ v at n. replicate n 255;
  store_bytes = λ v at bytes. v;
}

flags_busy : (b d f : Bool) → bit 7 (flags b d f) ≡ b
flags_busy true d false = refl
flags_busy true d true = refl
flags_busy false true false = refl
flags_busy false true true = refl
flags_busy false false false = refl
flags_busy false false true = refl

flags_low : (b d : Bool) → (bit 0 (flags b d false) ≡ false) × (bit 5 (flags b d false) ≡ false)
flags_low true d = (refl, refl)
flags_low false true = (refl, refl)
flags_low false false = (refl, refl)

flags_drq : (d f : Bool) → bit 3 (flags false d f) ≡ d
flags_drq true false = refl
flags_drq true true = refl
flags_drq false false = refl
flags_drq false true = refl

status_low : (v : Pio) → v.failed ≡ false → (bit 0 (status v) ≡ false) × (bit 5 (status v) ≡ false)
status_low v h = rw h (flags_low (ltb 0 v.busy) (has_data v.phase))

obeyed :
    (v : Pio) (x : ℕ)
    → address v.regs < sector_count
    → obey x v ≡ record v { phase = start x v; busy = 3 }
obeyed v x lt = ground (arith, lt)

status_drq : (v : Pio) → v.busy ≡ 0 → bit 3 (status v) ≡ has_data v.phase
status_drq v z = rw z (flags_drq (has_data v.phase) v.failed)

give_word :
    (v : Pio) (w : ℕ) (ws : List ℕ)
    → v.phase ≡ reading (w ∷ ws)
    → ((give v v.phase).0 ≡ w) × ((give v v.phase).1 ≡ record v { phase = delivered ws })
give_word v w ws e = (ap (λ f. (give v f).0) e, ap (λ f. (give v f).1) e)

accept_word :
    (v : Pio) (w lba : ℕ) (ws : List ℕ)
    → v.phase ≡ writing lba ws
    → suc (length ws) < 256
    → accept v w v.phase ≡ record v { phase = writing lba (ws ++ w ∷ []) }
accept_word v w lba ws e lt =
    ap (accept v w) e
    ∙ branch (λ r. r ≡ record v { phase = writing lba (ws ++ w ∷ []) }) (suc (length ws) == 256)
        (λ h. absurd (ground (arith, h, lt))) (λ h. refl)

accept_last :
    (v : Pio) (w lba : ℕ) (ws : List ℕ)
    → v.phase ≡ writing lba ws
    → suc (length ws) ≡ 256
    → accept v w v.phase
      ≡ record v { phase = idle; words = put_words v.words lba (ws ++ w ∷ []); busy = 2 }
accept_last v w lba ws e q =
    ap (accept v w) e
    ∙ branch
        (λ r. r ≡ record v { phase = idle; words = put_words v.words lba (ws ++ w ∷ []); busy = 2 })
        (suc (length ws) == 256) (λ h. refl) (λ h. absurd (ground (arith, h, q)))

pub one_disk_speaks : Speaks one_disk 0x1F0 0
one_disk_speaks = record {
  view = λ s. s;
  capacity = sector_count;
  addressable = omega arith;
  status_busy = λ s. flags_busy (ltb 0 s.busy) (has_data s.phase) s.failed;
  status_error = λ s h. (status_low s h).0;
  status_fault = λ s h. (status_low s h).1;
  status_drq = λ s z. status_drq s z;
  status_tick = λ s. refl;
  alt_tick = λ s. refl;
  waited = λ s. refl;
  out_count = λ s x z. refl;
  out_lba0 = λ s x z. refl;
  out_lba1 = λ s x z. refl;
  out_lba2 = λ s x z. refl;
  out_select = λ s x z. refl;
  out_command = λ s x z i f lt c h. (3, omega arith, obeyed s x lt);
  out_flush = λ s z i f h. (3, omega arith, refl);
  in_word = λ s w ws z e. give_word s w ws e;
  out_word = λ s w lba ws z e lt. accept_word s w lba ws e lt;
  out_last = λ s w lba ws z e q. (2, omega arith, accept_last s w lba ws e q);
}

pub many_sectors : 6144 ≤ one_disk_speaks.capacity
unfolding one_disk_speaks
many_sectors = omega arith

abbrev fresh : Pio
fresh = record {
  phase = idle;
  regs = record { count = 0; lba0 = 0; lba1 = 0; lba2 = 0; select = 0 };
  words = λ j. replicate 256 j;
  busy = 1;
  failed = false;
}

abbrev pub first_device : IdeDevice
first_device = record {
  present = true;
  io_base = 0x1F0;
  slave = 0;
  identify = zeros 256;
  sectors28 = 131072;
  model = zeros 41;
}

abbrev pub scanned : Ata one_disk
scanned = record {
  hba = record {
    line = record { hw = fresh; g_last_error = "ok"; g_last_status = 0; g_last_error_reg = 0 };
    g_ahci_devices = [];
    g_ahci_count = 0;
    g_ahci_controllers_seen = 0;
    g_ahci_bar64_rejected = 0;
    g_ahci_ports_considered = 0;
  };
  g_ide_devices = first_device ∷ [];
  seen = record { pci_host_id = 0; slot13_id = 0; slot13_class = 0; slot13_bar5 = 0 };
  table = record {
    g_devices = ide_entry 0 first_device ∷ [];
    g_device_count = 1;
    g_selected_device = some 0;
  };
}

pub scanned-IsIde : IsIde one_disk scanned 0
unfolding selected
scanned-IsIde = record {
  entry = ide_entry 0 first_device;
  selects = refl;
  kind = refl;
  source = refl;
  bounded = omega arith;
  present = refl;
}

pub scanned-IsServing : IsServing one_disk 0x1F0 0 one_disk_speaks scanned.hba.line
unfolding one_disk_speaks
scanned-IsServing = record {
  phase = refl;
  patient = omega arith;
  sound = refl;
  whole = λ j lt. length-replicate 256 j;
}

sevens : ℕ → List ℕ
sevens n = replicate n 7

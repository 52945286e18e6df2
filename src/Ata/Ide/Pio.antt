-- ===== src/Ata/Ide/Pio.antt =====
-- What kernel/ata.c relies on of an IDE disk: the transfer of one sector by programmed input and
-- output, as the ATA standard has it.
use fur_os.Prelude.{
  ℕ, suc, ◌+◌, ◌-◌, ◌*◌, ◌/◌, ◌%◌, ◌^◌, ◌<◌, ◌≤◌, ◌≡◌, Bool, true, false, List, [], ◌∷◌, ◌++◌,
  length, ltb, ◌==◌, if◌then◌else◌,
}
use fur_os.Ata.Bus.{Ports, bit}

pub record Regs : Type 0 where
  pub count : ℕ
  pub lba0 : ℕ
  pub lba1 : ℕ
  pub lba2 : ℕ
  pub select : ℕ

-- Idle, with words of a sector to deliver, or with words that have come for a sector.
pub data Phase : Type 0 where
  idle : Phase
  reading : List ℕ → Phase
  writing : ℕ → List ℕ → Phase

-- A disk: `words` are the 256 words of each sector, `busy` for how many reads of its status it
-- will still say that it is busy, `failed` whether it reports an error or a fault.
pub record Pio : Type 0 where
  pub phase : Phase
  pub regs : Regs
  pub words : ℕ → List ℕ
  pub busy : ℕ
  pub failed : Bool

abbrev pub has_data : Phase → Bool
has_data idle = false
has_data (reading ws) = true
has_data (writing lba ws) = true

-- The sector that the registers name.
abbrev pub address : Regs → ℕ
address r = r.lba0 + r.lba1 * 2 ^ 8 + r.lba2 * 2 ^ 16 + r.select % 16 * 2 ^ 24

abbrev pub tick : Pio → Pio
tick v = record v { busy = v.busy - 1 }

abbrev pub start : ℕ → Pio → Phase
start command v =
    if command == 0x20
    then reading (v.words (address v.regs))
    else if command == 0x30
    then writing (address v.regs) []
    else v.phase

abbrev pub delivered : List ℕ → Phase
delivered [] = idle
delivered (w ∷ ws) = reading (w ∷ ws)

abbrev pub put_words : (ℕ → List ℕ) → ℕ → List ℕ → ℕ → List ℕ
put_words words lba ws j = if lba == j then ws else words j

-- The disk `slave` at `io` of the hardware, with `capacity` sectors. No register is written while it
-- is busy; after a command for one of its sectors, after the last word that it is given, and after a
-- flush, it is busy for fewer polls than the driver makes. What it does on a command for a sector
-- that it does not have, and what its status says once it has failed, is left open.
pub record Speaks (p : Ports) (io slave : ℕ) : Type 1 where
  pub view : p.State → Pio
  pub capacity : ℕ
  pub addressable : capacity ≤ 2 ^ 28
  pub status_busy : (s : p.State) → bit 7 (p.inb s (io + 7)).0 ≡ ltb 0 (view s).busy
  pub status_error : (s : p.State) → (view s).failed ≡ false → bit 0 (p.inb s (io + 7)).0 ≡ false
  pub status_fault : (s : p.State) → (view s).failed ≡ false → bit 5 (p.inb s (io + 7)).0 ≡ false
  pub status_drq :
      (s : p.State) → (view s).busy ≡ 0 → bit 3 (p.inb s (io + 7)).0 ≡ has_data (view s).phase
  pub status_tick : (s : p.State) → view (p.inb s (io + 7)).1 ≡ tick (view s)
  pub alt_tick : (s : p.State) → view (p.inb s (io + 0x206)).1 ≡ tick (view s)
  pub waited : (s : p.State) → view (p.outb s 0x80 0) ≡ view s
  pub out_count :
      (s : p.State) (x : ℕ)
      → (view s).busy ≡ 0
      → view (p.outb s (io + 2) x) ≡ record (view s) { regs = record ((view s).regs) { count = x } }
  pub out_lba0 :
      (s : p.State) (x : ℕ)
      → (view s).busy ≡ 0
      → view (p.outb s (io + 3) x) ≡ record (view s) { regs = record ((view s).regs) { lba0 = x } }
  pub out_lba1 :
      (s : p.State) (x : ℕ)
      → (view s).busy ≡ 0
      → view (p.outb s (io + 4) x) ≡ record (view s) { regs = record ((view s).regs) { lba1 = x } }
  pub out_lba2 :
      (s : p.State) (x : ℕ)
      → (view s).busy ≡ 0
      → view (p.outb s (io + 5) x) ≡ record (view s) { regs = record ((view s).regs) { lba2 = x } }
  pub out_select :
      (s : p.State) (x : ℕ)
      → (view s).busy ≡ 0
      → view (p.outb s (io + 6) x)
        ≡ record (view s) { regs = record ((view s).regs) { select = x } }
  pub out_command :
      (s : p.State) (x : ℕ)
      → (view s).busy ≡ 0
      → (view s).phase ≡ idle
      → (view s).failed ≡ false
      → address (view s).regs < capacity
      → (view s).regs.count ≡ 1
      → (view s).regs.select / 16 ≡ 14 + slave
      → (d : ℕ) × (d < 1000000)
        × (view (p.outb s (io + 7) x) ≡ record (view s) { phase = start x (view s); busy = d })
  pub out_flush :
      (s : p.State)
      → (view s).busy ≡ 0
      → (view s).phase ≡ idle
      → (view s).failed ≡ false
      → (view s).regs.select / 16 ≡ 10 + slave
      → (d : ℕ) × (d < 1000000) × (view (p.outb s (io + 7) 0xE7) ≡ record (view s) { busy = d })
  pub in_word :
      (s : p.State) (w : ℕ) (ws : List ℕ)
      → (view s).busy ≡ 0
      → (view s).phase ≡ reading (w ∷ ws)
      → ((p.inw s io).0 ≡ w) × (view (p.inw s io).1 ≡ record (view s) { phase = delivered ws })
  pub out_word :
      (s : p.State) (w lba : ℕ) (ws : List ℕ)
      → (view s).busy ≡ 0
      → (view s).phase ≡ writing lba ws
      → suc (length ws) < 256
      → view (p.outw s io w) ≡ record (view s) { phase = writing lba (ws ++ w ∷ []) }
  pub out_last :
      (s : p.State) (w lba : ℕ) (ws : List ℕ)
      → (view s).busy ≡ 0
      → (view s).phase ≡ writing lba ws
      → suc (length ws) ≡ 256
      → (d : ℕ) × (d < 1000000)
        × (view (p.outw s io w) ≡ record (view s) {
          phase = idle;
          words = put_words (view s).words lba (ws ++ w ∷ []);
          busy = d;
        })

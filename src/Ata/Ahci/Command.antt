-- ===== src/Ata/Ahci/Command.antt =====
-- kernel/ata.c: the bytes of a command for an AHCI disk.
use fur_os.Prelude.{
  ℕ, ◌+◌, ◌-◌, ◌*◌, ◌/◌, ◌%◌, ◌^◌, ◌<◌, ◌≡◌, refl, arith, length, Bool, List, [], ◌∷◌, ◌++◌,
  if◌then◌else◌,
}
use fur_os.KString.{byte_at}
use fur_os.Fs.Node.{zeros}

-- A number in four bytes.
abbrev pub quad : ℕ → List ℕ
quad x = x % 256 ∷ x / 2 ^ 8 % 256 ∷ x / 2 ^ 16 % 256 ∷ x / 2 ^ 24 % 256 ∷ []

-- `struct hba_cmd_header`; the length of the frame is 5 words.
unfoldable pub header_bytes : Bool → ℕ → List ℕ
header_bytes write ctba =
    (if write then 5 + 2 ^ 6 else 5) ∷ 0 ∷ 1 ∷ 0 ∷ zeros 4 ++ (quad ctba ++ zeros 20)

-- `struct fis_reg_h2d`
unfoldable pub fis_bytes : ℕ → ℕ → ℕ → ℕ → List ℕ
fis_bytes command lba fis_count device_reg =
    0x27
    ∷ 2 ^ 7
    ∷ command
    ∷ 0
    ∷ lba % 256
    ∷ lba / 2 ^ 8 % 256
    ∷ lba / 2 ^ 16 % 256
    ∷ device_reg
    ∷ lba / 2 ^ 24 % 256
    ∷ 0
    ∷ 0
    ∷ 0
    ∷ fis_count % 256
    ∷ fis_count / 2 ^ 8 % 256
    ∷ 0
    ∷ 0
    ∷ zeros 4

-- `struct hba_prdt_entry`
unfoldable pub prdt_bytes : ℕ → ℕ → List ℕ
prdt_bytes dba transfer_count = quad dba ++ (zeros 8 ++ quad (transfer_count * 512 - 1))

-- For a sector number of 32 bits and a count of 16 bits the frame has 20 bytes, and its bytes 4 to 6
-- and 8 are the number's, low byte first, as its bytes 12 and 13 are the count's.
fis_bytes-number :
    (command lba fis_count device_reg : ℕ)
    → lba < 2 ^ 32
    → fis_count < 2 ^ 16
    → let f : List ℕ = fis_bytes command lba fis_count device_reg in
      (length f ≡ 20)
      × (byte_at f 4 + byte_at f 5 * 2 ^ 8 + byte_at f 6 * 2 ^ 16 + byte_at f 8 * 2 ^ 24 ≡ lba)
      × (byte_at f 12 + byte_at f 13 * 2 ^ 8 ≡ fis_count)
unfolding fis_bytes zeros
fis_bytes-number command lba fis_count device_reg lt lt' =
    (refl, omega (arith, lt), omega (arith, lt'))

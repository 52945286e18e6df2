-- ===== src/Ata/Bus.antt =====
-- kernel/ata.c: the instructions that reach the hardware, as an interface, and the variables that
-- say what went wrong.
use fur_os.Prelude.{ℕ, ◌+◌, ◌-◌, ◌/◌, ◌%◌, ◌^◌, Bool, List, String, ◌==◌, if◌then◌else◌}
use fur_os.Fs.Node.{Status, fail}

-- The state of everything outside the processor. A read changes it too: it may be a step of a
-- transfer. The last four are the loads and stores of memory that a controller shares.
pub record Ports : Type 1 where
  pub State : Type 0
  pub inb : State → ℕ → ℕ × State
  pub outb : State → ℕ → ℕ → State
  pub inw : State → ℕ → ℕ × State
  pub outw : State → ℕ → ℕ → State
  pub inl : State → ℕ → ℕ × State
  pub outl : State → ℕ → ℕ → State
  pub load32 : State → ℕ → ℕ × State
  pub store32 : State → ℕ → ℕ → State
  pub load_bytes : State → ℕ → ℕ → List ℕ
  pub store_bytes : State → ℕ → List ℕ → State

-- `(x & (1u << k)) != 0`
abbrev pub bit : ℕ → ℕ → Bool
bit k x = x / 2 ^ k % 2 == 1

-- `x | (1u << k)`
abbrev pub set_bit : ℕ → ℕ → ℕ
set_bit k x = if bit k x then x else x + 2 ^ k

-- `x & ~(1u << k)`
abbrev pub clear_bit : ℕ → ℕ → ℕ
clear_bit k x = if bit k x then x - 2 ^ k else x

abbrev pub ata_poll_attempts : ℕ
ata_poll_attempts = 1000000

module _ (p : Ports) where
  -- The hardware, with `g_last_error`, `g_last_status` and `g_last_error_reg`.
  pub record Line : Type 0 where
    pub hw : p.State
    pub g_last_error : String
    pub g_last_status : ℕ
    pub g_last_error_reg : ℕ

  -- `inb`, and `inb` for its effect alone.
  abbrev pub read8 : Line → ℕ → ℕ × Line
  read8 l port = ((p.inb l.hw port).0, record l { hw = (p.inb l.hw port).1 })

  abbrev pub write8 : Line → ℕ → ℕ → Line
  write8 l port value = record l { hw = p.outb l.hw port value }

  abbrev pub io_wait : Line → Line
  io_wait l = write8 l 0x80 0

  abbrev pub error_ok : Line → Line
  error_ok l = record l { g_last_error = "ok"; g_last_status = 0; g_last_error_reg = 0 }

  -- A failure that leaves its message alone.
  abbrev pub with_error : Line → String → Status × Line
  with_error l msg = (fail, record l { g_last_error = msg })

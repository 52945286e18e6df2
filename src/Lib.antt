-- ===== src/Lib.antt =====
-- FurOS: a model of the kernel's own logic, in C under kernel/, and the theorems about it.
--
-- The parts and where they are modelled:
--   Prelude    tests, lists, integers and tables that the other modules share
--   KString    kernel/kstring.c: copying and comparing bytes and C strings
--   Fs         kernel/fs.c: the table of 128 nodes, path resolution, creation, files, access
--              rights, path printing and the on-disk image
--   Ata        kernel/ata.c: the instructions that reach the hardware (Bus), the IDE transfers (Ide) and
--              their probe (Probe), the AHCI ports and commands (Ahci), the search of the PCI bus and
--              the table of disks (Scan), the sector calls (Sectors, Selected), and
--              the whole as drives for disk.c (Drive)
--   Disk       kernel/disk.c: where the file system, the boot sector and the kernel lie on a disk
--   Vga        kernel/vga.c: the cursor, the viewport and the cells of the text screen
--   Keyboard   kernel/keyboard.c: scancodes to keys
--   Shell      kernel/shell.c: Numbers and Line (parsing), State (the static variables), Access and
--              Files (the commands on files), Info (help, id, ifconfig), Packages (apt), Network
--              (networkmanager, nmcli), Nano, Seed (the files of a fresh system), Command (the
--              dispatch to these), Machine (disk, install, sync), Run (sudo, nano, the whole
--              dispatch and the main loop)
--   Desktop    kernel/desktop.c: the text editor: its buffer and keys (Kate) and its file (Kate/Save)
--   Installer  kernel/installer.c: the lines of /etc/passwd and /etc/group (Installer, Lines), the boxes and
--              texts on the screen (Draw), the menu and the text field (Widgets), the stages (Wizard,
--              Stages, Install) and the run from the scan to the halt (Run)
--   Tests      runs of the definitions and instances of the theorems
--
-- The shell reads keys through the keyboard, prints on the screen, and works on the node table. The
-- text editor works on the node table and saves the disk as the shell does.
-- disk.c turns the node table into bytes with `fs_serialize` and keeps them in sectors.
--
-- Conventions. A definition has the name of the C function that it translates; a part of a function
-- that is a definition of its own says in a comment which part. Static variables are the fields of a
-- record that is passed and returned. A negative `int` result is `none` or `fail`. A piece of memory
-- is the list of its bytes; a write past its end changes nothing. An `int` that may be negative is its
-- 32-bit pattern or the integer type of Prelude/Int. Unsigned arithmetic wraps by `% 2 ^ w`. A null
-- pointer takes the branches of the empty string.
--
-- Loops are structural: over the list of bytes, or over the number of rounds that are left, which is
-- the loop's own bound (128 nodes, 11 digits, the sectors of the payload). `fs_make_path` climbs at
-- most 128 parents, as its C loop does. But for the probe of a disk, below, no
-- definition can run out of fuel before the code would stop.
-- The loops that wait for input are recursions on the sequence of the inputs; they return `none` when
-- the sequence ends first. The main loop of the shell takes a number of rounds, each of which
-- reads at least the Enter that ends its line; a `sudo` in a command line recurs on the words behind it.
--
-- The shell works on a `Machine`: its own variables with the node table and the screen, the disk, and
-- the characters that `keyboard_getchar` will return. Buffers of the stack that the C code fills
-- before it reads them start as zeros or empty.
--
-- The loops of the disk driver that wait have the bound of the source, 1000000 reads; the one in its
-- probe has none there, and takes a number of rounds here, with `none` where they are used up.
-- Probe/Rounds says when some number of rounds is enough. In Disk/Drive a scan that gives `none` never
-- returns (for Ata/Drive: not in the given rounds); the shell and the installer then end as `hanging`,
-- before their loops.
--
-- The installer works on a `Setup`: the screen, the node table, the disk and the keys that
-- `keyboard_get_key` will return; `none` says that it waits for a key. Its main loop takes a number of
-- rounds, each of which takes a key but the last two; a stage that calls itself again returns `retry`
-- instead, and `halt_forever` ends the run.
--
-- disk.c, the shell and the installer work over the interface Disk/Drive, and their theorems on what a
-- disk holds over its laws, Keeps: a disk of a given capacity keeps sectors of 512 bytes below it.
-- Ata/Drive fills the interface with the functions of ata.c, and the laws with those functions on a
-- selected IDE disk; Tests/DriverImage takes this instance, Tests/DiskImage a disk in memory.
--
-- What the model takes as parameters: the instructions by which ata.c reaches the hardware, as the
-- interface Ata/Bus.Ports. Ata/Ide/Pio states of an IDE disk what the driver relies on, as the record
-- Speaks: the disk has a capacity of at most 2^28 sectors, and what it does on a command for a sector
-- beyond it, or once it has failed, is open. Tests/IdeDisk fills it with a disk of 64 MB that fails
-- there. An AHCI controller works on memory, so its buffers are addresses: `ctx` is that of `g_ahci_ctx`,
-- `dba` that of the caller's buffer.
--
-- Not modelled: the instructions themselves, kernel/serial.c, the ports of kernel/keyboard.c, the
-- assembly of boot/ and kernel/boot.S, kernel/kernel.c, and so far the rest of the desktop
-- (kernel/desktop.c), which draws over kernel/vga.c. Of boot/bootsect.S there is the loop that loads the
-- kernel (Disk/Install/Loader), with what the loader checks before it. An AHCI disk has no laws here.
pub mod Prelude
pub mod KString
pub mod Fs
pub mod Ata
pub mod Disk
pub mod Vga
pub mod Keyboard
pub mod Shell
pub mod Installer
pub mod Desktop
pub mod Tests

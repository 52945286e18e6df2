-- ===== src/Tests/Commands.antt =====
-- kernel/shell.c: commands from the start of the shell.
use fur_os.Prelude.{◌≡◌, refl, true, List, [], ◌∷◌, codes, ℕ, replicate}
use fur_os.KString.{str_eq, kstrcmp, kstrncpy}
use fur_os.Shell.State.{Shell, booted}
use fur_os.Fs.Node.{fs_init}
use fur_os.Vga.{Screen}
use fur_os.Shell.Packages.{cmd_apt, package_at}
use fur_os.Shell.Packages.Essential.{IsKept, cmd_apt-IsKept}
use fur_os.Shell.Network.{network_ready, cmd_nmcli}
use fur_os.Shell.Network.Connected.{Command, Session, network_ready-Session}

abbrev pub empty_text : Screen
empty_text = record {
  row = 0;
  column = 0;
  color = 7;
  vp_top = 0;
  vp_bot = 24;
  memory = replicate 2000 0;
}

abbrev pub started : Shell
started = booted empty_text fs_init

abbrev connect : List (List ℕ)
connect = codes "nmcli" ∷ codes "device" ∷ codes "wifi" ∷ codes "connect" ∷ codes "OpenGuest" ∷ []

connected : (cmd_nmcli started connect).wifi_connected ≡ true
unfolding cmd_nmcli booted str_eq kstrcmp kstrncpy
connected = refl

network_ready-Session_example :
    network_ready (cmd_nmcli started connect) ≡ (cmd_nmcli started connect).wifi_connected
network_ready-Session_example =
    network_ready-Session (cmd_nmcli started connect)
      (Session.next (Session.start empty_text fs_init) (Command.nmcli started connect))

cmd_apt-IsKept_example :
    IsKept
      (package_at started 1)
      (package_at (cmd_apt started (codes "apt" ∷ codes "remove" ∷ codes "bash" ∷ [])) 1)
cmd_apt-IsKept_example = cmd_apt-IsKept started (codes "apt" ∷ codes "remove" ∷ codes "bash" ∷ []) 1

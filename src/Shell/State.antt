-- ===== src/Shell/State.antt =====
-- kernel/shell.c: the static variables, and what the commands print.
use fur_os.Prelude.{ℕ, ◌+◌, Bool, true, false, List, [], ◌∷◌, String, codes, replicate}
use fur_os.Fs.Node.{Nodes, fs_max_name}
use fur_os.Vga.{Screen, vga_write_string}

-- `struct package`
pub record Package : Type 0 where
  pub name : List ℕ
  pub installed : Bool
  pub essential : Bool

-- The variables of `shell.c`, with the node table and the screen that its functions work on.
pub record Shell : Type 0 where
  pub screen : Screen
  pub nodes : Nodes
  pub shell_cwd : ℕ
  pub shell_uid : ℕ
  pub g_shell_exit : Bool
  pub apt_index_ready : Bool
  pub network_manager_running : Bool
  pub wifi_enabled : Bool
  pub wifi_connected : Bool
  pub wifi_ssid : List ℕ
  pub package_repo : List Package

entry : String → Bool → Bool → Package
entry name installed essential = record {
  name = codes name;
  installed = installed;
  essential = essential;
}

-- The initial values of the static variables, over a screen and a table.
unfoldable pub booted : Screen → Nodes → Shell
unfolding entry
booted screen nodes = record {
  screen = screen;
  nodes = nodes;
  shell_cwd = 0;
  shell_uid = 1000;
  g_shell_exit = false;
  apt_index_ready = false;
  network_manager_running = true;
  wifi_enabled = true;
  wifi_connected = false;
  wifi_ssid = replicate (fs_max_name + 1) 0;
  package_repo =
      entry "base" true true
      ∷ entry "bash" true true
      ∷ entry "coreutils" true true
      ∷ entry "sudo" true true
      ∷ entry "nano" true false
      ∷ entry "less" true false
      ∷ entry "network-manager" true false
      ∷ entry "net-tools" false false
      ∷ entry "curl" false false
      ∷ entry "openssh-client" false false
      ∷ entry "vim" false false
      ∷ entry "git" false false
      ∷ [];
}

-- Calls of `vga_write_string`, one after the other.
unfoldable pub write_all : Screen → List (List ℕ) → Screen
write_all screen [] = screen
write_all screen (text ∷ rest) = write_all (vga_write_string screen text) rest

abbrev pub say : List (List ℕ) → Shell → Shell
say texts s = record s { screen = write_all s.screen texts }

abbrev pub line_end : List ℕ
line_end = 10 ∷ []

abbrev pub shell_println : String → Shell → Shell
shell_println text s = say (codes text ∷ line_end ∷ []) s

-- ===== src/Shell/Packages.antt =====
-- kernel/shell.c: the packages and `apt`.
--
-- A pointer into `package_repo` is the index of its package.
pub mod Essential
use fur_os.Prelude.{
  ℕ, zero, suc, ◌+◌, Bool, true, false, ◌&&◌, not, Option, none, some, List, [], ◌∷◌, ◌++◌, codes,
  length, get_or, set, ltb, if◌then◌else◌, String,
}
use fur_os.KString.{str_eq}
use fur_os.Shell.State.{Package, Shell, say, line_end, shell_println}

unfoldable pub is_installed_in : List Package → List ℕ → Bool
is_installed_in [] name = false
is_installed_in (p ∷ ps) name =
    let rest = is_installed_in ps name in if str_eq p.name name then p.installed else rest

unfoldable pub package_is_installed : Shell → List ℕ → Bool
unfolding is_installed_in
package_is_installed s name = is_installed_in s.package_repo name

unfoldable pub find_from : ℕ → List Package → List ℕ → Option ℕ
find_from i [] name = none
find_from i (p ∷ ps) name =
    let rest = find_from (suc i) ps name in if str_eq p.name name then some i else rest

unfoldable pub package_find : Shell → List ℕ → Option ℕ
unfolding find_from
package_find s name = find_from 0 s.package_repo name

-- What an index past the list reads.
abbrev pub no_package : Package
no_package = record { name = []; installed = false; essential = false }

-- `package_repo[i]`
abbrev pub package_at : Shell → ℕ → Package
package_at s i = get_or s.package_repo i no_package

abbrev pub network_manager : List ℕ
network_manager = codes "network-manager"

-- The name is emptied by its first byte.
unfoldable pub sync_state_with_packages : Shell → Shell
unfolding package_is_installed
sync_state_with_packages s =
    if not (package_is_installed s network_manager)
    then record s {
      network_manager_running = false;
      wifi_enabled = false;
      wifi_connected = false;
      wifi_ssid = set s.wifi_ssid 0 0;
    }
    else s

-- `package_repo[i].installed = value`
abbrev pub set_installed : ℕ → Bool → Shell → Shell
set_installed i value s = record s {
  package_repo = set s.package_repo i (record (package_at s i) { installed = value });
}

-- The line of `apt list` for a package.
package_line : Package → List (List ℕ)
package_line p =
    codes "  "
    ∷ p.name
    ∷ codes "/bookworm  "
    ∷ (if p.installed then codes "[installed]" else codes "[available]")
    ∷ (if p.essential then codes " [essential]" else [])
    ∷ line_end
    ∷ []

unfoldable pub package_lines : List Package → List (List ℕ)
unfolding package_line
package_lines [] = []
package_lines (p ∷ ps) = package_line p ++ package_lines ps

-- argv[i]
abbrev pub arg : List (List ℕ) → ℕ → List ℕ
arg argv i = get_or argv i []

-- `apt update`
unfoldable pub apt_update : Shell → Shell
apt_update s =
    let t =
      say
        (codes "Get:1 http://deb.furos.org/furos bookworm InRelease\n"
          ∷ codes "Get:2 http://deb.debian.org/debian bookworm InRelease\n"
          ∷ codes "Get:3 http://deb.debian.org/debian bookworm-updates InRelease\n"
          ∷ codes "Get:4 http://security.debian.org bookworm-security InRelease\n"
          ∷ codes "Reading package lists... Done\n"
          ∷ codes "Building dependency tree... Done\n"
          ∷ [])
        s in
    record t { apt_index_ready = true }

-- `apt install <name>`
unfoldable pub apt_install : Shell → List ℕ → Shell
unfolding package_find sync_state_with_packages
apt_install s name = elim (package_find s name) [
  | none ↦ say (codes "apt: package '" ∷ name ∷ codes "' not found in sources\n" ∷ []) s
  | some i ↦
      if (package_at s i).installed
      then say ((package_at s i).name ∷ codes " is already the newest version.\n" ∷ []) s
      else sync_state_with_packages (
          set_installed i true (
            say
              (codes "Selecting previously unselected package "
                ∷ (package_at s i).name
                ∷ codes ".\nUnpacking ... Setting up ... Done.\n"
                ∷ [])
              s))
]

-- `apt remove <name>`
unfoldable pub apt_remove : Shell → List ℕ → Shell
unfolding package_find sync_state_with_packages
apt_remove s name = elim (package_find s name) [
  | none ↦ say (codes "apt: package '" ∷ name ∷ codes "' not found\n" ∷ []) s
  | some i ↦
      if (package_at s i).essential
      then say
          (codes "apt: refusing to remove essential package '"
            ∷ (package_at s i).name
            ∷ codes "'\n"
            ∷ [])
          s
      else if not (package_at s i).installed
      then say ((package_at s i).name ∷ codes " is not installed.\n" ∷ []) s
      else sync_state_with_packages (
          set_installed i false
            (say (codes "Removing " ∷ (package_at s i).name ∷ codes " ... Done.\n" ∷ []) s))
]

-- `argc` is the length of `argv`.
unfoldable pub cmd_apt : Shell → List (List ℕ) → Shell
unfolding apt_update apt_install apt_remove package_lines
cmd_apt s argv =
    if ltb (length argv) 2
    then shell_println "apt: usage apt update|list|install|remove <pkg>" s
    else if str_eq (arg argv 1) (codes "update")
    then apt_update s
    else if str_eq (arg argv 1) (codes "list")
    then say (package_lines s.package_repo) (shell_println "Listing packages:" s)
    else if ltb (length argv) 3
    then shell_println "apt: package name required" s
    else if str_eq (arg argv 1) (codes "install")
    then apt_install s (arg argv 2)
    else if str_eq (arg argv 1) (codes "remove")
    then apt_remove s (arg argv 2)
    else say
        (codes "apt: unknown subcommand '"
          ∷ arg argv 1
          ∷ codes "' (update|list|install|remove)\n"
          ∷ [])
        s

-- ===== src/Shell/Command.antt =====
-- kernel/shell.c: the commands that need the state of the shell alone.
use fur_os.Prelude.{ℕ, Bool, true, ◌||◌, Option, none, some, List, codes, String, if◌then◌else◌}
use fur_os.KString.{str_eq}
use fur_os.Vga.{vga_clear}
use fur_os.Shell.State.{Shell}
use fur_os.Shell.Packages.{arg, cmd_apt}
use fur_os.Shell.Network.{cmd_networkmanager, cmd_nmcli}
use fur_os.Shell.Files.{
  cmd_ls, cmd_pwd, cmd_cd, cmd_mkdir, cmd_touch, cmd_cat, cmd_write, cmd_rm, cmd_chmod, cmd_chown,
}
use fur_os.Shell.Info.{cmd_help, cmd_whoami, cmd_id, cmd_ifconfig}

unfoldable pub cmd_logout : Shell → Shell
cmd_logout s = record s { g_shell_exit = true }

-- `kstrcmp(argv[0], name) == 0`
abbrev pub is_command : List (List ℕ) → String → Bool
is_command argv name = str_eq (arg argv 0) (codes name)

-- The branches of `shell_dispatch` whose command needs the state of the shell alone; `none` if
-- `argv[0]` is none of theirs. The names are all different, so the order of the tests is free.
unfoldable pub shell_command : Shell → List (List ℕ) → Option Shell
unfolding cmd_logout
shell_command s argv =
    if is_command argv "help"
    then some (cmd_help s)
    else if is_command argv "clear"
    then some (record s { screen = vga_clear s.screen })
    else if is_command argv "whoami"
    then some (cmd_whoami s)
    else if is_command argv "id"
    then some (cmd_id s)
    else if is_command argv "pwd"
    then some (cmd_pwd s)
    else if is_command argv "ls"
    then some (cmd_ls s argv s.shell_uid)
    else if is_command argv "cd"
    then some (cmd_cd s argv s.shell_uid)
    else if is_command argv "mkdir"
    then some (cmd_mkdir s argv s.shell_uid)
    else if is_command argv "touch"
    then some (cmd_touch s argv s.shell_uid)
    else if is_command argv "cat"
    then some (cmd_cat s argv s.shell_uid)
    else if is_command argv "write"
    then some (cmd_write s argv)
    else if is_command argv "rm"
    then some (cmd_rm s argv)
    else if is_command argv "chmod"
    then some (cmd_chmod s argv s.shell_uid)
    else if is_command argv "chown"
    then some (cmd_chown s argv s.shell_uid)
    else if is_command argv "logout" || is_command argv "exit"
    then some (cmd_logout s)
    else if is_command argv "apt"
    then some (cmd_apt s argv)
    else if is_command argv "networkmanager"
    then some (cmd_networkmanager s argv)
    else if is_command argv "nmcli"
    then some (cmd_nmcli s argv)
    else if is_command argv "ifconfig"
    then some (cmd_ifconfig s)
    else none

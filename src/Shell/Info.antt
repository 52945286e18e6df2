-- ===== src/Shell/Info.antt =====
-- kernel/shell.c: the commands that only print.
use fur_os.Prelude.{ℕ, not, List, [], ◌∷◌, codes, ◌==◌, if◌then◌else◌}
use fur_os.Shell.State.{Shell, say, line_end, shell_println}
use fur_os.Shell.Numbers.{shell_uid_root, uid_to_name, shell_print_uint}
use fur_os.Shell.Packages.{package_is_installed}
use fur_os.Shell.Network.{network_ready}

help_lines : List (List ℕ)
help_lines =
    codes "FurOS 1.0 (Debian-based) -- available commands:\n"
    ∷ codes "\n"
    ∷ codes "  File system:\n"
    ∷ codes "    pwd                     print working directory\n"
    ∷ codes "    ls [path]               list directory contents\n"
    ∷ codes "    cd <path>               change directory\n"
    ∷ codes "    mkdir <path>            create directory\n"
    ∷ codes "    touch <path>            create empty file\n"
    ∷ codes "    cat <file>              print file contents\n"
    ∷ codes "    write <file> <text>     write text to file\n"
    ∷ codes "    nano <file>             edit file (Ctrl+S save, Ctrl+X exit)\n"
    ∷ codes "    rm <path>               remove file or empty directory\n"
    ∷ codes "    chmod <mode> <path>     change permissions (octal, e.g. 755)\n"
    ∷ codes "    chown <user> <path>     change file owner (root only)\n"
    ∷ codes "\n"
    ∷ codes "  Users:\n"
    ∷ codes "    whoami                  print current user name\n"
    ∷ codes "    id                      print uid/gid/groups\n"
    ∷ codes "    sudo <command>          run command as root\n"
    ∷ codes "\n"
    ∷ codes "  System:\n"
    ∷ codes "    help                    show this help\n"
    ∷ codes "    clear                   clear the screen\n"
    ∷ codes "    logout / exit           return to the desktop\n"
    ∷ codes "    install                 install FurOS to disk\n"
    ∷ codes "    disk info|load|save|format\n"
    ∷ codes "    sync                    save filesystem to disk\n"
    ∷ codes "\n"
    ∷ codes "  Packages:\n"
    ∷ codes "    apt update              refresh package index\n"
    ∷ codes "    apt list                list all packages\n"
    ∷ codes "    apt install <pkg>       install a package\n"
    ∷ codes "    apt remove <pkg>        remove a package\n"
    ∷ codes "\n"
    ∷ codes "  Network:\n"
    ∷ codes "    networkmanager status|start|stop|restart\n"
    ∷ codes "    nmcli general|device|connection|radio|networking ...\n"
    ∷ codes "    ifconfig                show network interfaces\n"
    ∷ []

unfoldable pub cmd_help : Shell → Shell
unfolding help_lines
cmd_help s = say help_lines s

unfoldable pub cmd_whoami : Shell → Shell
unfolding uid_to_name
cmd_whoami s = say (uid_to_name s.shell_uid ∷ line_end ∷ []) s

-- The digits of `shell_print_uint` go to `vga_putchar`, as those of a string do.
unfoldable pub cmd_id : Shell → Shell
unfolding uid_to_name shell_print_uint
cmd_id s =
    let uid = s.shell_uid in
    let name = uid_to_name uid in
    let number = shell_print_uint uid in
    say
      (codes "uid="
        ∷ number
        ∷ codes "("
        ∷ name
        ∷ codes ") gid="
        ∷ number
        ∷ codes "("
        ∷ name
        ∷ codes ") groups="
        ∷ number
        ∷ codes "("
        ∷ name
        ∷ codes ")"
        ∷ (if not (uid == shell_uid_root) then codes ",27(sudo)" else [])
        ∷ line_end
        ∷ [])
      s

-- The two forms of the lines on wlan0.
unfoldable pub cmd_ifconfig : Shell → Shell
unfolding package_is_installed network_ready
cmd_ifconfig s =
    if not (package_is_installed s (codes "net-tools"))
    then shell_println "ifconfig: command not found (try: sudo apt install net-tools)" s
    else say
        (codes "lo: flags=73<UP,LOOPBACK,RUNNING>  mtu 65536\n"
          ∷ codes "        inet 127.0.0.1  netmask 255.0.0.0\n"
          ∷ codes "        loop  txqueuelen 1000  (Local Loopback)\n"
          ∷ codes "\n"
          ∷ (if network_ready s
              then codes
                  "wlan0: flags=4163<UP,BROADCAST,RUNNING,MULTICAST>  mtu 1500\n        inet 192.168.1.100  netmask 255.255.255.0  broadcast 192.168.1.255\n"
              else codes "wlan0: flags=4099<UP,BROADCAST,MULTICAST>  mtu 1500\n")
          ∷ codes "        ether 02:00:00:00:00:01  txqueuelen 1000  (Ethernet)\n"
          ∷ codes "\n"
          ∷ [])
        s

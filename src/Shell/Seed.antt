-- ===== src/Shell/Seed.antt =====
-- kernel/shell.c: the files that a fresh system starts with.
use fur_os.Prelude.{ℕ, none, some, List, [], ◌∷◌, ◌++◌, codes, String}
use fur_os.KString.{kstrlen}
use fur_os.Fs.Node.{Nodes, fs_get_root}
use fur_os.Fs.Resolve.{fs_resolve}
use fur_os.Fs.Create.{fs_mkdir_as}
use fur_os.Fs.Files.{fs_write_file}
use fur_os.Shell.Numbers.{shell_uid_root, shell_uid_debian}

bashrc : List ℕ
bashrc =
    codes "# ~/.bashrc: executed by bash for non-login shells\n"
    ++ codes "PS1='\\u@furos:\\w\\$ '\n"
    ++ codes "alias ls='ls --color=auto'\n"
    ++ codes "alias ll='ls -la'\n"

os_release : List ℕ
os_release =
    codes "PRETTY_NAME=\"FurOS 1.0 (Bookworm)\"\n"
    ++ codes "NAME=\"FurOS\"\n"
    ++ codes "VERSION_ID=\"1.0\"\n"
    ++ codes "VERSION=\"1.0 (Bookworm)\"\n"
    ++ codes "VERSION_CODENAME=bookworm\n"
    ++ codes "ID=furos\n"
    ++ codes "ID_LIKE=debian\n"
    ++ codes "HOME_URL=\"https://furos.org/\"\n"
    ++ codes "SUPPORT_URL=\"https://furos.org/support\"\n"
    ++ codes "BUG_REPORT_URL=\"https://furos.org/bugs\"\n"

-- The shorter one that `cmd_install` writes.
installed_os_release : List ℕ
installed_os_release =
    codes "PRETTY_NAME=\"FurOS 1.0 (Bookworm)\"\n"
    ++ codes "NAME=\"FurOS\"\n"
    ++ codes "VERSION_ID=\"1.0\"\n"
    ++ codes "VERSION=\"1.0 (Bookworm)\"\n"
    ++ codes "VERSION_CODENAME=bookworm\n"
    ++ codes "ID=furos\n"
    ++ codes "ID_LIKE=debian\n"

hostname : List ℕ
hostname = codes "furos\n"

motd : List ℕ
motd =
    codes "\n"
    ++ codes "  ______           ____  ____\n"
    ++ codes " |  ____|         / __ \\/ ___|\n"
    ++ codes " | |__ _   _ _ __| |  | \\___ \\\n"
    ++ codes " |  __| | | | '__| |  | |___) |\n"
    ++ codes " | |  | |_| | |  | |__| |____/\n"
    ++ codes " |_|   \\__,_|_|   \\____/\n"
    ++ codes "\n"
    ++ codes " FurOS 1.0 (based on Debian GNU/Linux 12 Bookworm)\n"
    ++ codes " Type 'help' for available commands.\n"
    ++ codes "\n"

passwd : List ℕ
passwd =
    codes "root:x:0:0:root:/root:/bin/sh\n"
    ++ codes "debian:x:1000:1000:Debian User,,,:/home/debian:/bin/sh\n"

group : List ℕ
group = codes "root:x:0:\n" ++ codes "sudo:x:27:debian\n" ++ codes "debian:x:1000:\n"

-- Calls of `fs_mkdir_as` from the root with the mode 0755 for root, whose results are not looked at.
unfoldable pub make_directories : List (List ℕ) → Nodes → Nodes
make_directories [] t = t
make_directories (name ∷ rest) t =
    make_directories rest (fs_mkdir_as t fs_get_root name shell_uid_root 0o755).1

abbrev pub hierarchy : List (List ℕ)
hierarchy = codes "bin" ∷ codes "etc" ∷ codes "home" ∷ codes "var" ∷ codes "tmp" ∷ codes "usr" ∷ []

-- `fs_write_file(dir, name, text, kstrlen(text))`
unfoldable pub put_file : ℕ → String → List ℕ → Nodes → Nodes
put_file dir name text t = (fs_write_file t dir (codes name) text (kstrlen text)).1

-- `/home/debian`, in the tree of `cmd_install`.
unfoldable pub make_home : Nodes → Nodes
make_home t = elim (fs_resolve t fs_get_root (codes "home")) [
  | none ↦ t
  | some home_node ↦ (fs_mkdir_as t home_node (codes "debian") shell_uid_debian 0o755).1
]

-- `/home/debian` with its `.bashrc`, in the tree of `shell_seed_filesystem`.
unfoldable pub seed_home : Nodes → Nodes
unfolding put_file bashrc
seed_home t = elim (fs_resolve t fs_get_root (codes "home")) [
  | none ↦ t
  | some home_node ↦
      let made = (fs_mkdir_as t home_node (codes "debian") shell_uid_debian 0o755).1 in
      elim (fs_resolve made home_node (codes "debian")) [
        | none ↦ made
        | some deb ↦ put_file deb ".bashrc" bashrc made
      ]
]

unfoldable pub shell_seed_filesystem : Nodes → Nodes
unfolding make_directories seed_home put_file os_release hostname motd passwd group
shell_seed_filesystem t = put_file fs_get_root "etc/group" group (
    put_file fs_get_root "etc/passwd" passwd (
      put_file fs_get_root "etc/motd" motd (
        put_file fs_get_root "etc/hostname" hostname (
          put_file fs_get_root "etc/os-release" os_release
            (seed_home (make_directories hierarchy t))))))

-- The calls of `cmd_install` on the formatted tree.
unfoldable pub install_files : Nodes → Nodes
unfolding make_directories make_home put_file installed_os_release hostname passwd group
install_files t = put_file fs_get_root "etc/group" group (
    put_file fs_get_root "etc/passwd" passwd (
      put_file fs_get_root "etc/hostname" hostname (
        put_file fs_get_root "etc/os-release" installed_os_release
          (make_home (make_directories hierarchy t)))))

-- ===== src/Shell/Network/Connected.antt =====
-- kernel/shell.c: a connection needs the package, the service and the radio.
use fur_os.Prelude.{ℕ, ◌≡◌, refl, Bool, true, false, not, List, Bool-cases, branch, inl, inr, arith}
use fur_os.Fs.Node.{Nodes}
use fur_os.Vga.{Screen}
use fur_os.Shell.State.{Shell, booted, say}
use fur_os.Shell.Packages.{
  package_is_installed, sync_state_with_packages, set_installed, network_manager, cmd_apt,
}
use fur_os.Shell.Network.Closed.{IsClosed, keeps_cmd_apt, keeps_cmd_networkmanager, keeps_cmd_nmcli}
use fur_os.Shell.Network.{network_ready, cmd_networkmanager, cmd_nmcli}

-- One command; `argv` is what the user has typed.
pub data Command : Shell → Shell → Type 0 where
  apt : (s : Shell) (argv : List (List ℕ)) → Command s (cmd_apt s argv)
  networkmanager : (s : Shell) (argv : List (List ℕ)) → Command s (cmd_networkmanager s argv)
  nmcli : (s : Shell) (argv : List (List ℕ)) → Command s (cmd_nmcli s argv)

-- The states after the shell has started.
pub data Session : Shell → Type 0 where
  start : (screen : Screen) (nodes : Nodes) → Session (booted screen nodes)
  next : {s t : Shell} → Session s → Command s t → Session t

IsSound : Shell → Type 0
IsSound s =
    s.wifi_connected ≡ true
    → (package_is_installed s network_manager ≡ true)
      × (s.network_manager_running ≡ true)
      × (s.wifi_enabled ≡ true)

unfold_sound :
    (s : Shell)
    → IsSound s
    → s.wifi_connected ≡ true
    → (s.network_manager_running ≡ true) × (s.wifi_enabled ≡ true)
unfolding IsSound
unfold_sound s h c = ((h c).1, (h c).2)

off-IsSound : (s : Shell) → s.wifi_connected ≡ false → IsSound s
unfolding IsSound
off-IsSound s h c = ground (arith, h, c)

-- After the packages have changed.
sync-IsSound :
    (s : Shell)
    → (s.wifi_connected ≡ true → (s.network_manager_running ≡ true) × (s.wifi_enabled ≡ true))
    → IsSound (sync_state_with_packages s)
unfolding sync_state_with_packages
sync-IsSound s h =
    branch IsSound (not (package_is_installed s network_manager)) (λ y. off-IsSound _ refl)
      (λ n. unfold IsSound in λ c. (ground (arith, n), (h c).0, (h c).1))

say-IsSound : (texts : List (List ℕ)) (s : Shell) → IsSound s → IsSound (say texts s)
unfolding package_is_installed IsSound
say-IsSound texts s h = h

change-IsSound :
    (i : ℕ) (value : Bool) (texts : List (List ℕ)) (s : Shell)
    → IsSound s
    → IsSound (sync_state_with_packages (set_installed i value (say texts s)))
change-IsSound i value texts s h =
    sync-IsSound (set_installed i value (say texts s)) (unfold_sound s h)

running-IsSound : (s : Shell) → IsSound s → IsSound (record s { network_manager_running = true })
unfolding IsSound package_is_installed
running-IsSound s h = λ c. ((h c).0, refl, (h c).2)

enabled-IsSound : (s : Shell) → IsSound s → IsSound (record s { wifi_enabled = true })
unfolding IsSound package_is_installed
enabled-IsSound s h = λ c. ((h c).0, (h c).1, refl)

indexed-IsSound : (s : Shell) → IsSound s → IsSound (record s { apt_index_ready = true })
unfolding IsSound package_is_installed
indexed-IsSound s h = h

joined-IsSound :
    (s : Shell) (name : List ℕ)
    → package_is_installed s network_manager ≡ true
    → s.network_manager_running ≡ true
    → s.wifi_enabled ≡ true
    → IsSound (record s { wifi_connected = true; wifi_ssid = name })
unfolding IsSound package_is_installed
joined-IsSound s name i r e = λ c. (i, r, e)

IsSound-closed : IsClosed IsSound
IsSound-closed = record {
  printed = say-IsSound;
  changed = change-IsSound;
  indexed = indexed-IsSound;
  started = running-IsSound;
  stopped = λ s h. off-IsSound _ refl;
  radio_on = enabled-IsSound;
  radio_off = λ s h. off-IsSound _ refl;
  joined = λ s name i r e h. joined-IsSound s name i r e;
}

Command-IsSound : {s t : Shell} → Command s t → IsSound s → IsSound t
Command-IsSound (apt s argv) h = keeps_cmd_apt IsSound IsSound-closed s argv h
Command-IsSound (networkmanager s argv) h = keeps_cmd_networkmanager IsSound IsSound-closed s argv h
Command-IsSound (nmcli s argv) h = keeps_cmd_nmcli IsSound IsSound-closed s argv h

booted-IsSound : (screen : Screen) (nodes : Nodes) → IsSound (booted screen nodes)
unfolding booted
booted-IsSound screen nodes = off-IsSound _ refl

Session-IsSound : {s : Shell} → Session s → IsSound s
Session-IsSound (start screen nodes) = booted-IsSound screen nodes
Session-IsSound (next r c) = Command-IsSound c (Session-IsSound r)

-- In every state that a sequence of `apt`, `networkmanager` and `nmcli` commands leads to from the
-- start of the shell, `network_ready` is the flag `wifi_connected`: there is no connection without
-- the installed package, the running service and the enabled radio.
pub network_ready-Session : (s : Shell) → Session s → network_ready s ≡ s.wifi_connected
unfolding network_ready IsSound
network_ready-Session s r = elim (Bool-cases s.wifi_connected) [
  | inl y ↦ let h = Session-IsSound r y in rw (h.0, h.1, h.2, y) refl
  | inr n ↦ ground (arith, n)
]

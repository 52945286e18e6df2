-- ===== src/Shell/Network.antt =====
-- kernel/shell.c: NetworkManager and its tools.
pub mod Closed
pub mod Connected
use fur_os.Prelude.{
  ℕ, zero, suc, Bool, true, false, ◌&&◌, not, Option, none, some, List, [], ◌∷◌, ◌++◌, codes,
  length, set, ltb, if◌then◌else◌,
}
use fur_os.KString.{str_eq, kstrncpy}
use fur_os.KString.Compare.{cstr}
use fur_os.Fs.Node.{fs_max_name}
use fur_os.Shell.State.{Shell, say, line_end, shell_println}
use fur_os.Shell.Packages.{package_is_installed, network_manager, arg}

-- `struct wifi_ap`; a null password is `none`.
pub record WifiAp : Type 0 where
  pub ssid : List ℕ
  pub password : Option (List ℕ)

unfoldable pub wifi_aps : List WifiAp
wifi_aps =
    record { ssid = codes "FurOS-Lab"; password = some (codes "furos123") }
    ∷ record { ssid = codes "DebianCafe"; password = some (codes "linuxmint") }
    ∷ record { ssid = codes "OpenGuest"; password = none }
    ∷ []

unfoldable pub find_ap : List WifiAp → List ℕ → Option WifiAp
find_ap [] ssid = none
find_ap (ap ∷ aps) ssid =
    let rest = find_ap aps ssid in if str_eq ap.ssid ssid then some ap else rest

unfoldable pub find_wifi_ap : List ℕ → Option WifiAp
unfolding find_ap wifi_aps
find_wifi_ap ssid = find_ap wifi_aps ssid

unfoldable pub network_ready : Shell → Bool
unfolding package_is_installed
network_ready s =
    package_is_installed s network_manager
    && (s.network_manager_running && (s.wifi_enabled && s.wifi_connected))

unfoldable pub cmd_networkmanager : Shell → List (List ℕ) → Shell
unfolding package_is_installed
cmd_networkmanager s argv =
    if ltb (length argv) 2
    then shell_println "networkmanager: usage networkmanager status|start|stop|restart" s
    else if not (package_is_installed s network_manager)
    then shell_println "networkmanager: not installed (try: sudo apt install network-manager)" s
    else if str_eq (arg argv 1) (codes "status")
    then say
        (codes "NetworkManager: "
          ∷ (if s.network_manager_running
              then codes "active (running)\n"
              else codes "inactive (stopped)\n")
          ∷ [])
        s
    else if str_eq (arg argv 1) (codes "start")
    then shell_println "Started NetworkManager" (record s { network_manager_running = true })
    else if str_eq (arg argv 1) (codes "stop")
    then shell_println "Stopped NetworkManager"
        (record s { network_manager_running = false; wifi_connected = false })
    else if str_eq (arg argv 1) (codes "restart")
    then shell_println "Restarted NetworkManager" (record s { network_manager_running = true })
    else shell_println "networkmanager: unknown subcommand (status|start|stop|restart)" s

-- `nmcli general`
unfoldable pub nmcli_general : Shell → Shell
nmcli_general s =
    say
      (codes "STATE      CONNECTIVITY  WIFI-HW  WIFI     WWAN-HW  WWAN\n"
        ∷ (if s.wifi_connected
            then codes "connected  full          enabled  enabled  enabled  enabled\n"
            else codes "disconnected  none       enabled  "
              ++ (if s.wifi_enabled then codes "enabled  " else codes "disabled ")
              ++ codes "enabled  enabled\n")
        ∷ [])
      s

-- `nmcli device status`
unfoldable pub nmcli_status : Shell → Shell
nmcli_status s =
    say
      (codes "DEVICE  TYPE      STATE         CONNECTION\nwlan0   wifi      "
        ∷ (if s.wifi_connected
            then codes "connected     " ++ cstr s.wifi_ssid
            else if s.wifi_enabled
            then codes "disconnected  --"
            else codes "unavailable   --")
        ∷ codes "\nlo      loopback  unmanaged     --\n"
        ∷ [])
      s

-- The line of `nmcli device wifi list` for an access point.
ap_line : Shell → WifiAp → List (List ℕ)
ap_line s ap =
    (if s.wifi_connected && str_eq s.wifi_ssid ap.ssid then codes "*  " else codes "   ")
    ∷ ap.ssid
    ∷ codes "  Infra  6     54 Mbit/s  75      ***   "
    ∷ elim ap.password [ none ↦ codes "--" | some p ↦ codes "WPA2" ]
    ∷ line_end
    ∷ []

unfoldable pub ap_lines : Shell → List WifiAp → List (List ℕ)
unfolding ap_line
ap_lines s [] = []
ap_lines s (ap ∷ aps) = ap_line s ap ++ ap_lines s aps

-- `nmcli device wifi list`
unfoldable pub nmcli_list : Shell → Shell
unfolding ap_lines wifi_aps
nmcli_list s =
    say
      (codes "IN-USE  SSID         MODE   CHAN  RATE       SIGNAL  BARS  SECURITY\n"
        ∷ ap_lines s wifi_aps)
      s

-- The end of `nmcli device wifi connect`, past its checks.
unfoldable pub join_ap : Shell → List ℕ → Shell
join_ap s ssid =
    let name = set (kstrncpy s.wifi_ssid ssid fs_max_name) fs_max_name 0 in
    say (codes "Device 'wlan0' successfully activated with network '" ∷ name ∷ codes "'\n" ∷ [])
      (record s { wifi_connected = true; wifi_ssid = name })

-- Whether the password is given after `password`.
unfoldable pub psk_given : List (List ℕ) → Bool
psk_given argv = not (ltb (length argv) 7) && str_eq (arg argv 5) (codes "password")

unfoldable pub nmcli_connect : Shell → List (List ℕ) → Shell
unfolding find_wifi_ap join_ap psk_given
nmcli_connect s argv =
    if ltb (length argv) 5
    then shell_println "nmcli: usage nmcli device wifi connect <ssid> [password <pw>]" s
    else elim (find_wifi_ap (arg argv 4)) [
      | none ↦ shell_println "Error: No network with SSID found." s
      | some ap ↦
          if not s.wifi_enabled
          then shell_println "Error: wifi radio is disabled." s
          else elim ap.password [
            | none ↦ join_ap s (arg argv 4)
            | some password ↦
                if not (psk_given argv)
                then shell_println "Error: 802-11-wireless-security.psk: password required." s
                else if not (str_eq (arg argv 6) password)
                then shell_println "Error: Secrets were required, but not provided." s
                else join_ap s (arg argv 4)
          ]
    ]

-- `nmcli device`
unfoldable pub nmcli_device : Shell → List (List ℕ) → Shell
unfolding nmcli_status nmcli_list nmcli_connect
nmcli_device s argv =
    if ltb (length argv) 3
    then nmcli_status s
    else if str_eq (arg argv 2) (codes "status")
    then nmcli_status s
    else if str_eq (arg argv 2) (codes "wifi")
    then (if ltb (length argv) 4
        then nmcli_list s
        else if str_eq (arg argv 3) (codes "list")
        then nmcli_list s
        else if str_eq (arg argv 3) (codes "connect")
        then nmcli_connect s argv
        else shell_println "nmcli device wifi: unknown subcommand (list|connect)" s)
    else shell_println "nmcli device: unknown subcommand (status|wifi)" s

-- `nmcli connection`
unfoldable pub nmcli_connection : Shell → Shell
nmcli_connection s =
    if s.wifi_connected
    then say
        (codes "NAME     UUID                                  TYPE  DEVICE\n"
          ∷ s.wifi_ssid
          ∷ codes "  a1b2c3d4-e5f6-7890-abcd-ef1234567890  wifi  wlan0\n"
          ∷ [])
        s
    else shell_println "(no active connections)" s

-- `nmcli radio`
unfoldable pub nmcli_radio : Shell → List (List ℕ) → Shell
nmcli_radio s argv =
    if ltb (length argv) 3
    then say
        (codes "WIFI-HW  WIFI     WWAN-HW  WWAN\nenabled  "
          ∷ (if s.wifi_enabled then codes "enabled  " else codes "disabled ")
          ∷ codes "enabled  enabled\n"
          ∷ [])
        s
    else if str_eq (arg argv 2) (codes "wifi")
    then (if ltb (length argv) 4
        then say
            (codes "wifi: "
              ∷ (if s.wifi_enabled then codes "enabled\n" else codes "disabled\n")
              ∷ [])
            s
        else if str_eq (arg argv 3) (codes "on")
        then shell_println "wifi radio enabled" (record s { wifi_enabled = true })
        else if str_eq (arg argv 3) (codes "off")
        then shell_println "wifi radio disabled"
            (record s { wifi_enabled = false; wifi_connected = false })
        else shell_println "nmcli radio wifi: usage on|off" s)
    else shell_println "nmcli radio: unknown subcommand (wifi)" s

-- `nmcli networking`
unfoldable pub nmcli_networking : Shell → List (List ℕ) → Shell
nmcli_networking s argv =
    if ltb (length argv) 3
    then say
        (codes "networking: "
          ∷ (if s.network_manager_running then codes "enabled\n" else codes "disabled\n")
          ∷ [])
        s
    else if str_eq (arg argv 2) (codes "on")
    then shell_println "Networking enabled" (record s { network_manager_running = true })
    else if str_eq (arg argv 2) (codes "off")
    then shell_println "Networking disabled"
        (record s { network_manager_running = false; wifi_connected = false })
    else shell_println "nmcli networking: usage on|off" s

unfoldable pub cmd_nmcli : Shell → List (List ℕ) → Shell
unfolding package_is_installed nmcli_general nmcli_device nmcli_connection nmcli_radio
    nmcli_networking
cmd_nmcli s argv =
    if ltb (length argv) 2
    then shell_println "nmcli: usage nmcli general|device|connection|radio|networking ..." s
    else if not (package_is_installed s network_manager)
    then shell_println "nmcli: NetworkManager not installed" s
    else if not s.network_manager_running
    then shell_println "Error: NetworkManager is not running." s
    else if str_eq (arg argv 1) (codes "general")
    then nmcli_general s
    else if str_eq (arg argv 1) (codes "device")
    then nmcli_device s argv
    else if str_eq (arg argv 1) (codes "connection")
    then nmcli_connection s
    else if str_eq (arg argv 1) (codes "radio")
    then nmcli_radio s argv
    else if str_eq (arg argv 1) (codes "networking")
    then nmcli_networking s argv
    else shell_println "nmcli: unknown subcommand (general|device|connection|radio|networking)" s

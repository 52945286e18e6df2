-- ===== src/Shell/Network/Closed.antt =====
-- kernel/shell.c: what holds whatever `apt`, `networkmanager` and `nmcli` do.
use fur_os.Prelude.{
  ℕ, ◌≡◌, Bool, true, false, not, List, String, codes, length, ltb, branch, option_branch, arith,
}
use fur_os.KString.{str_eq}
use fur_os.Shell.State.{Shell, say}
use fur_os.Shell.Packages.{
  package_is_installed, package_find, package_at, sync_state_with_packages, set_installed,
  network_manager, arg, apt_update, apt_install, apt_remove, cmd_apt,
}
use fur_os.Shell.Network.{
  cmd_networkmanager, find_wifi_ap, join_ap, psk_given, nmcli_general, nmcli_status, nmcli_list,
  nmcli_connect, nmcli_device, nmcli_connection, nmcli_radio, nmcli_networking, cmd_nmcli,
}

-- A property of the shell that each thing which the three commands do to its state keeps.
pub record IsClosed (P : Shell → Type 0) : Type 0 where
  pub printed : (texts : List (List ℕ)) (s : Shell) → P s → P (say texts s)
  pub changed :
      (i : ℕ) (value : Bool) (texts : List (List ℕ)) (s : Shell)
      → P s
      → P (sync_state_with_packages (set_installed i value (say texts s)))
  pub indexed : (s : Shell) → P s → P (record s { apt_index_ready = true })
  pub started : (s : Shell) → P s → P (record s { network_manager_running = true })
  pub stopped :
      (s : Shell) → P s → P (record s { network_manager_running = false; wifi_connected = false })
  pub radio_on : (s : Shell) → P s → P (record s { wifi_enabled = true })
  pub radio_off : (s : Shell) → P s → P (record s { wifi_enabled = false; wifi_connected = false })
  pub joined :
      (s : Shell) (name : List ℕ)
      → package_is_installed s network_manager ≡ true
      → s.network_manager_running ≡ true
      → s.wifi_enabled ≡ true
      → P s
      → P (record s { wifi_connected = true; wifi_ssid = name })

module _ (P : Shell → Type 0) (c : IsClosed P) where
  keeps_apt_update : (s : Shell) → P s → P (apt_update s)
  unfolding apt_update
  keeps_apt_update s h = c.indexed _ (c.printed _ s h)

  keeps_join_ap :
      (s : Shell) (ssid : List ℕ)
      → package_is_installed s network_manager ≡ true
      → s.network_manager_running ≡ true
      → s.wifi_enabled ≡ true
      → P s
      → P (join_ap s ssid)
  unfolding join_ap
  keeps_join_ap s ssid i r e h = c.printed _ _ (c.joined s _ i r e h)

  keeps_apt_install : (s : Shell) (name : List ℕ) → P s → P (apt_install s name)
  unfolding apt_install
  keeps_apt_install s name h =
      option_branch P (package_find s name) (λ e. c.printed _ s h)
        (λ i e.
          branch P (package_at s i).installed (λ y. c.printed _ s h) (λ n. c.changed i true _ s h))

  keeps_apt_remove : (s : Shell) (name : List ℕ) → P s → P (apt_remove s name)
  unfolding apt_remove
  keeps_apt_remove s name h =
      option_branch P (package_find s name) (λ e. c.printed _ s h)
        (λ i e.
          branch P (package_at s i).essential (λ y. c.printed _ s h)
            (λ n.
              branch P (not (package_at s i).installed) (λ y. c.printed _ s h)
                (λ m. c.changed i false _ s h)))

  pub keeps_cmd_apt : (s : Shell) (argv : List (List ℕ)) → P s → P (cmd_apt s argv)
  unfolding cmd_apt
  keeps_cmd_apt s argv h =
      branch P (ltb (length argv) 2) (λ y. c.printed _ s h)
        (λ n.
          branch P (str_eq (arg argv 1) (codes "update")) (λ y. keeps_apt_update s h)
            (λ n.
              branch P (str_eq (arg argv 1) (codes "list")) (λ y. c.printed _ _ (c.printed _ s h))
                (λ n.
                  branch P (ltb (length argv) 3) (λ y. c.printed _ s h)
                    (λ n.
                      branch P (str_eq (arg argv 1) (codes "install"))
                        (λ y. keeps_apt_install s (arg argv 2) h)
                        (λ n.
                          branch P (str_eq (arg argv 1) (codes "remove"))
                            (λ y. keeps_apt_remove s (arg argv 2) h) (λ n. c.printed _ s h))))))

  -- The test of a branch on an argument.
  is_arg : List (List ℕ) → ℕ → String → Bool
  is_arg argv i text = str_eq (arg argv i) (codes text)

  pub keeps_cmd_networkmanager :
      (s : Shell) (argv : List (List ℕ)) → P s → P (cmd_networkmanager s argv)
  unfolding cmd_networkmanager is_arg
  keeps_cmd_networkmanager s argv h =
      branch P (ltb (length argv) 2) (λ y. c.printed _ s h)
        (λ n.
          branch P (not (package_is_installed s network_manager)) (λ y. c.printed _ s h)
            (λ n.
              branch P (is_arg argv 1 "status") (λ y. c.printed _ s h)
                (λ n.
                  branch P (is_arg argv 1 "start") (λ y. c.printed _ _ (c.started s h))
                    (λ n.
                      branch P (is_arg argv 1 "stop") (λ y. c.printed _ _ (c.stopped s h))
                        (λ n.
                          branch P (is_arg argv 1 "restart") (λ y. c.printed _ _ (c.started s h))
                            (λ n. c.printed _ s h))))))

  keeps_nmcli_connect :
      (s : Shell) (argv : List (List ℕ))
      → P s
      → package_is_installed s network_manager ≡ true
      → s.network_manager_running ≡ true
      → P (nmcli_connect s argv)
  unfolding nmcli_connect
  keeps_nmcli_connect s argv h i r =
      branch P (ltb (length argv) 5) (λ y. c.printed _ s h)
        (λ n.
          option_branch P (find_wifi_ap (arg argv 4)) (λ e. c.printed _ s h)
            (λ ap e.
              branch P (not s.wifi_enabled) (λ y. c.printed _ s h)
                (λ n.
                  let on : s.wifi_enabled ≡ true = ground arith in
                  option_branch P ap.password (λ e. keeps_join_ap s (arg argv 4) i r on h)
                    (λ password e.
                      branch P (not (psk_given argv)) (λ y. c.printed _ s h)
                        (λ n.
                          branch P (not (str_eq (arg argv 6) password)) (λ y. c.printed _ s h)
                            (λ n. keeps_join_ap s (arg argv 4) i r on h))))))

  keeps_nmcli_device :
      (s : Shell) (argv : List (List ℕ))
      → P s
      → package_is_installed s network_manager ≡ true
      → s.network_manager_running ≡ true
      → P (nmcli_device s argv)
  unfolding nmcli_device nmcli_status nmcli_list is_arg
  keeps_nmcli_device s argv h i r =
      branch P (ltb (length argv) 3) (λ y. c.printed _ s h)
        (λ n.
          branch P (is_arg argv 2 "status") (λ y. c.printed _ s h)
            (λ n.
              branch P (is_arg argv 2 "wifi")
                (λ y.
                  branch P (ltb (length argv) 4) (λ y. c.printed _ s h)
                    (λ n.
                      branch P (is_arg argv 3 "list") (λ y. c.printed _ s h)
                        (λ n.
                          branch P (is_arg argv 3 "connect") (λ y. keeps_nmcli_connect s argv h i r)
                            (λ n. c.printed _ s h))))
                (λ n. c.printed _ s h)))

  keeps_nmcli_radio : (s : Shell) (argv : List (List ℕ)) → P s → P (nmcli_radio s argv)
  unfolding nmcli_radio is_arg
  keeps_nmcli_radio s argv h =
      branch P (ltb (length argv) 3) (λ y. c.printed _ s h)
        (λ n.
          branch P (is_arg argv 2 "wifi")
            (λ y.
              branch P (ltb (length argv) 4) (λ y. c.printed _ s h)
                (λ n.
                  branch P (is_arg argv 3 "on") (λ y. c.printed _ _ (c.radio_on s h))
                    (λ n.
                      branch P (is_arg argv 3 "off") (λ y. c.printed _ _ (c.radio_off s h))
                        (λ n. c.printed _ s h))))
            (λ n. c.printed _ s h))

  keeps_nmcli_networking : (s : Shell) (argv : List (List ℕ)) → P s → P (nmcli_networking s argv)
  unfolding nmcli_networking is_arg
  keeps_nmcli_networking s argv h =
      branch P (ltb (length argv) 3) (λ y. c.printed _ s h)
        (λ n.
          branch P (is_arg argv 2 "on") (λ y. c.printed _ _ (c.started s h))
            (λ n.
              branch P (is_arg argv 2 "off") (λ y. c.printed _ _ (c.stopped s h))
                (λ n. c.printed _ s h)))

  keeps_nmcli_connection : (s : Shell) → P s → P (nmcli_connection s)
  unfolding nmcli_connection
  keeps_nmcli_connection s h =
      branch P s.wifi_connected (λ y. c.printed _ s h) (λ n. c.printed _ s h)

  pub keeps_cmd_nmcli : (s : Shell) (argv : List (List ℕ)) → P s → P (cmd_nmcli s argv)
  unfolding cmd_nmcli nmcli_general is_arg
  keeps_cmd_nmcli s argv h =
      branch P (ltb (length argv) 2) (λ y. c.printed _ s h)
        (λ n.
          branch P (not (package_is_installed s network_manager)) (λ y. c.printed _ s h)
            (λ a.
              branch P (not s.network_manager_running) (λ y. c.printed _ s h)
                (λ b.
                  branch P (is_arg argv 1 "general") (λ y. c.printed _ s h)
                    (λ n.
                      branch P (is_arg argv 1 "device")
                        (λ y. keeps_nmcli_device s argv h (ground (arith, a)) (ground (arith, b)))
                        (λ n.
                          branch P (is_arg argv 1 "connection") (λ y. keeps_nmcli_connection s h)
                            (λ n.
                              branch P (is_arg argv 1 "radio") (λ y. keeps_nmcli_radio s argv h)
                                (λ n.
                                  branch P (is_arg argv 1 "networking")
                                    (λ y. keeps_nmcli_networking s argv h)
                                    (λ n. c.printed _ s h))))))))

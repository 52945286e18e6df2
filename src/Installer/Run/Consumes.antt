-- ===== src/Installer/Run/Consumes.antt =====
-- kernel/installer.c: what a stage before the installation takes of the keys and leaves of the drives.
use fur_os.Prelude.{
  ℕ, ◌-◌, ◌<◌, ◌≤◌, ◌≢◌, refl, Bool, true, false, ◌&&◌, ◌||◌, not, Option, none, some, List, [],
  ◌∷◌, codes, length, arith, ltb, subst, ◌==◌, if◌then◌else◌, branch, bool_branch, option_branch,
}
use fur_os.KString.{str_eq}
use fur_os.Fs.Node.{Status, status_branch}
use fur_os.Disk.Drive.{Drive}
use fur_os.Disk.Store.{Disk, disk_count, disk_select}
use fur_os.Installer.Widgets.{is_enter, is_quit, run_menu, run_input}
use fur_os.Installer.Wizard.{
  Wiz, Turn, next, back, cancel, retry, halt, Setup, key_then, ask, pick, or_default, tzones,
  index_of, show_hostname, after_hostname, stage_hostname, show_timezone, after_timezone,
  stage_timezone, show_root_pw, after_root_pw, confirm_root_pw, stage_root_pw, show_user,
  after_username, after_user_pw, confirm_user_pw, stage_user,
}
use fur_os.Installer.Stages.{
  welcome_key, show_welcome, stage_welcome, disk_lines, choose_disk, initial, show_disks,
  stage_disk, draw_summary, after_confirm, stage_summary,
}
use fur_os.Installer.Draw.{scr_w}
use fur_os.Installer.Run.{run_stage}
use fur_os.Installer.Run.Keys.{MenuUses, InputUses, run_input-InputUses, run_menu-MenuUses}

-- With a property of the drives that the choice of a disk keeps.
module _ (a : Drive) (D : a.State → Type 0)
    (chooses : (s : a.State) (i : ℕ) → D s → D (a.select_device s i).1) where
  -- Fewer than `n` keys are left, and the drives have the property.
  abbrev pub Left : ℕ → Setup a → Type 0
  Left n m = (length m.keys < n) × D m.disk.drive

  -- A stage that cancels leaves the drives with the property, and one that does not takes a key too.
  abbrev pub Uses : ℕ → Option (Turn × Wiz × Setup a) → Type 0
  Uses n none = Unit {0}
  Uses n (some (next, w, m)) = Left n m
  Uses n (some (back, w, m)) = Left n m
  Uses n (some (retry, w, m)) = Left n m
  Uses n (some (halt, w, m)) = Left n m
  Uses n (some (cancel, w, m)) = D m.disk.drive

  ask-Uses :
      (n y w : ℕ) (masked : Bool) (max_len : ℕ) (buf : List ℕ) (m : Setup a)
      (then_do : Bool → List ℕ → Setup a → Option (Turn × Wiz × Setup a))
      → length m.keys ≤ n
      → D m.disk.drive
      → ((b : Bool) (text : List ℕ) (o : Setup a) → Left n o → Uses n (then_do b text o))
      → Uses n (ask a y w masked max_len buf m then_do)
  ask-Uses n y w masked max_len buf m then_do le d h =
      let u = run_input-InputUses 2 y w masked max_len buf m.screen m.keys in
      option_branch (Uses n) (run_input 2 y w masked max_len buf m.screen m.keys) (λ e. tt)
        (λ r e.
          h r.0 r.1 (record m { screen = r.2; keys = r.3 })
            (let lt : length r.3 < length m.keys = subst (InputUses (length m.keys)) e u in
              (omega (arith, lt, le), d)))

  pick-Uses :
      (n y_top : ℕ) (items : List (List ℕ)) (init : ℕ) (w : Wiz) (m : Setup a)
      (then_do : ℕ → Setup a → Option (Turn × Wiz × Setup a))
      → length m.keys ≤ n
      → D m.disk.drive
      → ((sel : ℕ) (o : Setup a) → Left n o → Uses n (then_do sel o))
      → Uses n (pick a y_top items init w m then_do)
  pick-Uses n y_top items init w m then_do le d h =
      let u = run_menu-MenuUses 2 y_top (scr_w - 4) items init m.screen m.keys in
      option_branch (Uses n) (run_menu 2 y_top (scr_w - 4) items init m.screen m.keys) (λ e. tt)
        (λ r e.
          let lt : length r.2 < length m.keys = subst (MenuUses (length m.keys)) e u in
          let o : Setup a = record m { screen = r.1; keys = r.2 } in
          let left : Left n o = (omega (arith, lt, le), d) in
          option_branch (Uses n) r.0 (λ z. left) (λ sel z. h sel o left))

  key_then-Uses :
      (n : ℕ) (t : Turn) (w : Wiz) (m : Setup a) (keys : List ℕ)
      → length keys ≤ n
      → D m.disk.drive
      → Uses n (key_then a t w m keys)
  unfolding key_then
  key_then-Uses n t w m [] le d = tt
  key_then-Uses n next w m (_ ∷ rest) le d = (omega (arith, le), d)
  key_then-Uses n back w m (_ ∷ rest) le d = (omega (arith, le), d)
  key_then-Uses n retry w m (_ ∷ rest) le d = (omega (arith, le), d)
  key_then-Uses n halt w m (_ ∷ rest) le d = (omega (arith, le), d)
  key_then-Uses n cancel w m (_ ∷ rest) le d = d

  stage_hostname-Uses :
      (w : Wiz) (m : Setup a) → D m.disk.drive → Uses (length m.keys) (stage_hostname a w m)
  unfolding stage_hostname show_hostname after_hostname
  stage_hostname-Uses w m d =
      ask-Uses (length m.keys) 8 40 false 32 (or_default w.hostname "furos") (show_hostname a m)
        (after_hostname a w) (omega arith) d
        (λ entered buf o lt. branch (Uses (length m.keys)) entered (λ e. lt) (λ e. lt))

  stage_timezone-Uses :
      (w : Wiz) (m : Setup a) → D m.disk.drive → Uses (length m.keys) (stage_timezone a w m)
  unfolding stage_timezone show_timezone after_timezone
  stage_timezone-Uses w m d =
      pick-Uses (length m.keys) 4 tzones (index_of w.timezone 0 tzones) w (show_timezone a m)
        (after_timezone a w) (omega arith) d (λ sel o lt. lt)

  stage_root_pw-Uses :
      (w : Wiz) (m : Setup a) → D m.disk.drive → Uses (length m.keys) (stage_root_pw a w m)
  unfolding stage_root_pw show_root_pw after_root_pw confirm_root_pw
  stage_root_pw-Uses w m d =
      let n : ℕ = length m.keys in
      ask-Uses n 7 44 true 64 w.root_pw (show_root_pw a m) (after_root_pw a w) (omega arith) d
        (λ entered pw o lt.
          let v : Wiz = record w { root_pw = pw } in
          branch (Uses n) (not entered) (λ e. lt)
            (λ e.
              ask-Uses n 11 44 true 64 [] o (confirm_root_pw a v) (omega (arith, lt.0)) lt.1
                (λ entered confirm q lt.
                  branch (Uses n) (not entered) (λ e. lt)
                    (λ e.
                      branch (Uses n) (str_eq pw confirm) (λ y. lt)
                        (λ y.
                          key_then-Uses n retry (record v { root_pw = [] }) _ q.keys
                            (omega (arith, lt.0)) lt.1)))))

  stage_user-Uses :
      (w : Wiz) (m : Setup a) → D m.disk.drive → Uses (length m.keys) (stage_user a w m)
  unfolding stage_user show_user after_username after_user_pw confirm_user_pw
  stage_user-Uses w m d =
      let n : ℕ = length m.keys in
      ask-Uses n 7 30 false 32 (or_default w.username "debian") (show_user a m) (after_username a w)
        (omega arith) d
        (λ entered name o lt.
          let u : Wiz = record w {
            username = if ltb (length name) 2 then codes "debian" else name;
          } in
          branch (Uses n) (not entered) (λ e. lt)
            (λ e.
              ask-Uses n 11 44 true 64 w.user_pw o (after_user_pw a u) (omega (arith, lt.0)) lt.1
                (λ entered pw o lt.
                  let v : Wiz = record u { user_pw = pw } in
                  branch (Uses n) (not entered) (λ e. lt)
                    (λ e.
                      ask-Uses n 15 44 true 64 [] o (confirm_user_pw a v) (omega (arith, lt.0)) lt.1
                        (λ entered confirm q lt.
                          branch (Uses n) (not entered) (λ e. lt)
                            (λ e.
                              branch (Uses n) (str_eq pw confirm) (λ y. lt)
                                (λ y.
                                  key_then-Uses n retry (record v { user_pw = [] }) _ q.keys
                                    (omega (arith, lt.0)) lt.1)))))))

  welcome_key-Uses :
      (disks : Bool) (keys : List ℕ) (n : ℕ) (w : Wiz) (m : Setup a)
      → length keys ≤ n
      → D m.disk.drive
      → Uses n (elim (welcome_key disks keys) [
        | none ↦ none
        | some r ↦ some (r.0, w, record m { keys = r.1 })
      ])
  unfolding welcome_key
  welcome_key-Uses disks [] n w m le d = tt
  welcome_key-Uses disks (key ∷ rest) n w m le d =
      let P : Option (Turn × List ℕ) → Type 0 =
        λ o. Uses n (elim o [ none ↦ none | some r ↦ some (r.0, w, record m { keys = r.1 }) ]) in
      bool_branch P (is_enter key && disks) (λ e. (omega (arith, le), d))
        (λ e.
          bool_branch P (is_quit key) (λ q. d)
            (λ q. welcome_key-Uses disks rest n w m (omega (arith, le)) d))

  stage_welcome-Uses :
      (w : Wiz) (m : Setup a) → D m.disk.drive → Uses (length m.keys) (stage_welcome a w m)
  unfolding stage_welcome show_welcome
  stage_welcome-Uses w m d =
      welcome_key-Uses (not (disk_count a m.disk == 0)) m.keys (length m.keys) w (show_welcome a m)
        (omega arith) d

  disk_select-keeps : (m : Setup a) (i : ℕ) → D m.disk.drive → D (disk_select a m.disk i).1.drive
  unfolding disk_select
  disk_select-keeps m i d =
      status_branch (λ (r : Status × Disk a). D r.1.drive) (a.select_device m.disk.drive i).0
        (λ e. chooses m.disk.drive i d) (λ e. chooses m.disk.drive i d)

  stage_disk-Uses :
      (w : Wiz) (m : Setup a) → D m.disk.drive → Uses (length m.keys) (stage_disk a w m)
  unfolding stage_disk show_disks choose_disk
  stage_disk-Uses w m d =
      let n : ℕ = length m.keys in
      let count : ℕ = disk_count a m.disk in
      branch (Uses n) (count == 0 || ltb 16 count) (λ e. d)
        (λ e.
          pick-Uses n 5 (disk_lines a count 0 m) (initial a count w.disk_index) w (show_disks a m)
            (λ sel o. choose_disk a count sel w o) (omega arith) d
            (λ sel o lt.
              status_branch (Uses n) (disk_select a o.disk sel).0
                (λ e. (lt.0, disk_select-keeps o sel lt.1))
                (λ e.
                  key_then-Uses n back w _ o.keys (omega (arith, lt.0))
                    (disk_select-keeps o sel lt.1))))

  stage_summary-Uses :
      (w : Wiz) (m : Setup a) → D m.disk.drive → Uses (length m.keys) (stage_summary a w m)
  unfolding stage_summary draw_summary after_confirm
  stage_summary-Uses w m d =
      let n : ℕ = length m.keys in
      ask-Uses n 15 12 false 8 [] (draw_summary a w m) (after_confirm a w) (omega arith) d
        (λ entered confirm o lt.
          branch (Uses n) (not entered) (λ e. lt)
            (λ e.
              branch (Uses n) (str_eq confirm (codes "YES") || str_eq confirm (codes "yes"))
                (λ y. lt) (λ y. lt)))

  -- The stages before the installation.
  pub run_stage-Uses :
      (bootsect kernel : List ℕ) (entry_offset stage : ℕ) (w : Wiz) (m : Setup a)
      → stage < 7
      → D m.disk.drive
      → Uses (length m.keys) (run_stage a bootsect kernel entry_offset stage w m)
  unfolding run_stage
  run_stage-Uses bootsect kernel entry_offset stage w m lt d =
      let P = Uses (length m.keys) in
      branch P (stage == 0) (λ e. stage_welcome-Uses w m d)
        (λ n0.
          branch P (stage == 1) (λ e. stage_disk-Uses w m d)
            (λ n1.
              branch P (stage == 2) (λ e. stage_hostname-Uses w m d)
                (λ n2.
                  branch P (stage == 3) (λ e. stage_timezone-Uses w m d)
                    (λ n3.
                      branch P (stage == 4) (λ e. stage_root_pw-Uses w m d)
                        (λ n4.
                          branch P (stage == 5) (λ e. stage_user-Uses w m d)
                            (λ n5.
                              branch P (stage == 6) (λ e. stage_summary-Uses w m d)
                                (λ n6.
                                  absurd (ground (arith, lt, n0, n1, n2, n3, n4, n5, n6)))))))))

  -- What a stage leaves that does not cancel, and what one leaves that does.
  pub Uses-Left : (n : ℕ) (r : Turn × Wiz × Setup a) → r.0 ≢ cancel → Uses n (some r) → Left n r.2
  Uses-Left n (next, w, m) c h = h
  Uses-Left n (back, w, m) c h = h
  Uses-Left n (retry, w, m) c h = h
  Uses-Left n (halt, w, m) c h = h
  Uses-Left n (cancel, w, m) c h = absurd (c refl)

  pub Uses-drive : (n : ℕ) (r : Turn × Wiz × Setup a) → Uses n (some r) → D (r.2).disk.drive
  Uses-drive n (next, w, m) h = h.1
  Uses-drive n (back, w, m) h = h.1
  Uses-drive n (retry, w, m) h = h.1
  Uses-drive n (halt, w, m) h = h.1
  Uses-drive n (cancel, w, m) h = h

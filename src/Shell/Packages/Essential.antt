-- ===== src/Shell/Packages/Essential.antt =====
-- kernel/shell.c: the essential packages stay installed.
use fur_os.Prelude.{
  ℕ, ◌≡◌, ◌≢◌, refl, Bool, true, false, not, List, codes, length, ltb, ◌==◌, Bool-cases, inl, inr,
  arith, branch, option_branch, get_or, set, get_or-set_self, get_or-set_ne, set_past,
}
use fur_os.KString.{str_eq}
use fur_os.Shell.State.{Package, Shell, say}
use fur_os.Shell.Packages.{
  package_is_installed, package_find, package_at, no_package, sync_state_with_packages,
  set_installed, network_manager, arg, apt_update, apt_install, apt_remove, cmd_apt,
}

-- What a package is after a command, by what it was.
pub record IsKept (p q : Package) : Type 0 where
  name : q.name ≡ p.name
  essential : q.essential ≡ p.essential
  installed : p.essential ≡ true → p.installed ≡ true → q.installed ≡ true

-- The package at `i` is kept from `s` to `t`.
abbrev At : ℕ → Shell → Shell → Type 0
At i s t = IsKept (package_at s i) (package_at t i)

same-At : (i : ℕ) (s : Shell) → At i s s
same-At i s = record { name = refl; essential = refl; installed = λ e h. h }

sync-At : (i : ℕ) (s t : Shell) → At i s t → At i s (sync_state_with_packages t)
unfolding sync_state_with_packages
sync-At i s t h = branch (At i s) (not (package_is_installed t network_manager)) (λ y. h) (λ n. h)

-- A package that is no essential one, or is set to installed, may change.
set-At :
    (i j : ℕ) (value : Bool) (texts : List (List ℕ)) (s : Shell)
    → ((package_at s j).essential ≡ true → value ≡ true)
    → At i s (set_installed j value (say texts s))
set-At i j value texts s h = elim (Bool-cases (j == i)) [
  | inl y ↦
      let e : j ≡ i = ground (arith, y) in
      elim (Bool-cases (ltb i (length s.package_repo))) [
        | inl l ↦
            let q : get_or (set s.package_repo i (record (package_at s i) { installed = value })) i
                  no_package
                ≡ record (package_at s i) { installed = value } =
              get_or-set_self s.package_repo i _ no_package (ground (arith, l)) in
            rw (e, q) (record { name = refl; essential = refl; installed = λ c d. h (rw e c) })
        | inr m ↦
            rw
              (
                e,
                set_past s.package_repo i (record (package_at s i) { installed = value })
                    (ground (arith, m)),
              )
              (same-At i s)
      ]
  | inr n ↦
      let ne : j ≢ i = λ e. ground (arith, n, e) in
      rw
        (get_or-set_ne s.package_repo j i (record (package_at s j) { installed = value }) no_package
          ne)
        (same-At i s)
]

change-At :
    (i j : ℕ) (value : Bool) (texts : List (List ℕ)) (s : Shell)
    → ((package_at s j).essential ≡ true → value ≡ true)
    → At i s (sync_state_with_packages (set_installed j value (say texts s)))
change-At i j value texts s h = sync-At i s _ (set-At i j value texts s h)

apt_install-At : (i : ℕ) (s : Shell) (name : List ℕ) → At i s (apt_install s name)
unfolding apt_install
apt_install-At i s name =
    option_branch (At i s) (package_find s name) (λ e. same-At i s)
      (λ j e.
        branch (At i s) (package_at s j).installed (λ y. same-At i s)
          (λ n. change-At i j true _ s (λ c. refl)))

apt_remove-At : (i : ℕ) (s : Shell) (name : List ℕ) → At i s (apt_remove s name)
unfolding apt_remove
apt_remove-At i s name =
    option_branch (At i s) (package_find s name) (λ e. same-At i s)
      (λ j e.
        branch (At i s) (package_at s j).essential (λ y. same-At i s)
          (λ n.
            branch (At i s) (not (package_at s j).installed) (λ y. same-At i s)
              (λ m. change-At i j false _ s (λ c. ground (arith, c, n)))))

-- `apt` renames no package and changes no package's `essential`, and a package that is essential
-- and installed is installed afterwards, whatever the arguments are.
pub cmd_apt-IsKept :
    (s : Shell) (argv : List (List ℕ)) (i : ℕ)
    → IsKept (package_at s i) (package_at (cmd_apt s argv) i)
unfolding cmd_apt apt_update
cmd_apt-IsKept s argv i =
    branch (At i s) (ltb (length argv) 2) (λ y. same-At i s)
      (λ n.
        branch (At i s) (str_eq (arg argv 1) (codes "update")) (λ y. same-At i s)
          (λ n.
            branch (At i s) (str_eq (arg argv 1) (codes "list")) (λ y. same-At i s)
              (λ n.
                branch (At i s) (ltb (length argv) 3) (λ y. same-At i s)
                  (λ n.
                    branch (At i s) (str_eq (arg argv 1) (codes "install"))
                      (λ y. apt_install-At i s (arg argv 2))
                      (λ n.
                        branch (At i s) (str_eq (arg argv 1) (codes "remove"))
                          (λ y. apt_remove-At i s (arg argv 2)) (λ n. same-At i s))))))

-- ===== src/Ata/Scan/Listed.antt =====
-- kernel/ata.c: what the entries of the table of disks stand for.
use fur_os.Prelude.{
  ℕ, zero, suc, ◌<◌, ◌≤◌, ◌≡◌, ◌≢◌, ◌⊎◌, inl, inr, refl, sym, ap, ◌∙◌, true, List, length, arith,
  leb, ◌==◌, if◌then◌else◌, subst, get_or, set, branch, length-set, get_or-set_self, get_or-set_ne,
  Bool-cases,
}
use fur_os.KString.{kstrcpy}
use fur_os.Ata.Ide.{IdeDevice, ide_device}
use fur_os.Ata.Ahci.{AhciDevice}
use fur_os.Ata.Scan.Controllers.{no_device}
use fur_os.Ata.Scan.{
  dev_ide, dev_ahci, DeviceMap, blank_entry, Devices, add_device_map, ide_entry, ahci_entry,
  add_ahci_devices,
}

-- An entry of the table whose device is there, for the first `n` IDE devices.
unfoldable pub IsFound : List IdeDevice → List AhciDevice → ℕ → DeviceMap → Type 0
IsFound ides ahcis n e =
    (e.present ≡ true)
    × (((e.kind ≡ dev_ide)
          × (e.source_index < n)
          × ((get_or ides e.source_index (ide_device 0 0)).present ≡ true))
        ⊎ ((e.kind ≡ dev_ahci) × ((get_or ahcis e.source_index no_device).present ≡ true)))

-- The entries that count are at most 16, and each is one of a device.
pub record IsListed (ides : List IdeDevice) (ahcis : List AhciDevice) (n : ℕ) (t : Devices)
    : Type 0 where
  pub room : length t.g_devices ≡ 16
  pub bounded : t.g_device_count ≤ 16
  pub entries :
      (i : ℕ) → i < t.g_device_count → IsFound ides ahcis n (get_or t.g_devices i blank_entry)

-- The device of the next IDE disk is written, and its number joins.
set-IsFound :
    (ides : List IdeDevice) (ahcis : List AhciDevice) (n : ℕ) (dev : IdeDevice) (e : DeviceMap)
    → IsFound ides ahcis n e
    → IsFound (set ides n dev) ahcis (suc n) e
unfolding IsFound
set-IsFound ides ahcis n dev e (there, inl (k, lt, q)) =
    let ne : n ≢ e.source_index = λ r. absurd (omega (arith, lt, r)) in
    (
      there,
      inl (
        k,
        omega (arith, lt),
        ap (λ d. d.present) (get_or-set_ne ides n e.source_index dev (ide_device 0 0) ne) ∙ q,
      ),
    )
set-IsFound ides ahcis n dev e (there, inr q) = (there, inr q)

set-IsListed :
    (ides : List IdeDevice) (ahcis : List AhciDevice) (n : ℕ) (dev : IdeDevice) (t : Devices)
    → IsListed ides ahcis n t
    → IsListed (set ides n dev) ahcis (suc n) t
set-IsListed ides ahcis n dev t l = record {
  room = l.room;
  bounded = l.bounded;
  entries = λ i h. set-IsFound ides ahcis n dev (get_or t.g_devices i blank_entry) (l.entries i h);
}

add_device_map-IsListed :
    (ides : List IdeDevice) (ahcis : List AhciDevice) (n : ℕ) (e : DeviceMap) (t : Devices)
    → IsListed ides ahcis n t
    → IsFound ides ahcis n e
    → IsListed ides ahcis n (add_device_map e t)
unfolding add_device_map IsFound
add_device_map-IsListed ides ahcis n e t l f =
    let c : ℕ = t.g_device_count in
    let new : DeviceMap = record e {
      present = true;
      model = kstrcpy (get_or t.g_devices c blank_entry).model e.model;
    } in
    branch (IsListed ides ahcis n) (leb 16 c) (λ full. l)
      (λ free. record {
        room = length-set t.g_devices c new ∙ l.room;
        bounded = ground (arith, free);
        entries = λ i h. elim (Bool-cases (i == c)) [
          | inl q ↦
              let r : c < length t.g_devices = ground (arith, free, l.room) in
              let s : i ≡ c = ground (arith, q) in
              subst (λ e. IsFound ides ahcis n e)
                (sym (
                  ap (λ j. get_or (set t.g_devices c new) j blank_entry) s
                  ∙ get_or-set_self t.g_devices c new blank_entry r))
                (refl, f.1)
          | inr q ↦
              let s : c ≢ i = λ z. absurd (ground (arith, q, z)) in
              subst (λ e. IsFound ides ahcis n e)
                (sym (get_or-set_ne t.g_devices c i new blank_entry s))
                (l.entries i (ground (arith, h, q)))
        ];
      })

pub add_ahci_devices-IsListed :
    (ides : List IdeDevice) (ahcis : List AhciDevice) (n k i : ℕ) (t : Devices)
    → IsListed ides ahcis n t
    → IsListed ides ahcis n (add_ahci_devices k i ahcis t)
unfolding add_ahci_devices IsFound
add_ahci_devices-IsListed ides ahcis n zero i t l = l
add_ahci_devices-IsListed ides ahcis n (suc k) i t l =
    let dev : AhciDevice = get_or ahcis i no_device in
    add_ahci_devices-IsListed ides ahcis n k (suc i)
      (if dev.present then add_device_map (ahci_entry i dev) t else t)
      (branch (IsListed ides ahcis n) dev.present
        (λ e. add_device_map-IsListed ides ahcis n (ahci_entry i dev) t l (refl, inr (refl, e)))
        (λ e. l))

pub ide_round :
    (ahcis : List AhciDevice) (i : ℕ) (dev : IdeDevice) (ides : List IdeDevice) (t : Devices)
    → i < length ides
    → IsListed ides ahcis i t
    → IsListed
        (set ides i dev)
        ahcis
        (suc i)
        (if dev.present then add_device_map (ide_entry i dev) t else t)
unfolding IsFound
ide_round ahcis i dev ides t lt l =
    let l' = set-IsListed ides ahcis i dev t l in
    branch (IsListed (set ides i dev) ahcis (suc i)) dev.present
      (λ e. add_device_map-IsListed (set ides i dev) ahcis (suc i) (ide_entry i dev) t l' (
        refl,
        inl (
          refl,
          omega arith,
          ap (λ d. d.present) (get_or-set_self ides i dev (ide_device 0 0) lt) ∙ e,
        ),
      ))
      (λ e. l')

pub selected_still :
    (ahcis : List AhciDevice) (k i : ℕ) (t : Devices)
    → (add_ahci_devices k i ahcis t).g_selected_device ≡ t.g_selected_device
unfolding add_ahci_devices add_device_map
selected_still ahcis zero i t = refl
selected_still ahcis (suc k) i t =
    let dev : AhciDevice = get_or ahcis i no_device in
    let next : Devices = if dev.present then add_device_map (ahci_entry i dev) t else t in
    let P : Devices → Type 0 = λ u. u.g_selected_device ≡ t.g_selected_device in
    selected_still ahcis k (suc i) next
    ∙ branch P dev.present (λ e. branch P (leb 16 t.g_device_count) (λ f. refl) (λ f. refl))
        (λ e. refl)

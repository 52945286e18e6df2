-- ===== src/Fs/Access/Rights.antt =====
-- `fs_check_access`: which users are granted which accesses; the setters keep the tree.
use Prim.Native.Nat.{bit_and}
use fur_os.Prelude.{
  ℕ, ◌/◌, ◌%◌, ◌≤◌, ◌<◌, ◌≡◌, ◌≢◌, refl, sym, ◌∙◌, ◌↔◌, Bool, true, false, ◌&&◌, arith, set, ◌==◌,
  leb, Bool-cases, inl, inr,
}
use fur_os.Prelude.Table.{passes_below, passes_below_sound}
use fur_os.Fs.Node.{Node, Nodes, node_at, is_node, mode_bits}
use fur_os.Fs.Create.Outcome.{IsFileTree}
use fur_os.Fs.Files.Keeps.{set_same-IsFileTree}
use fur_os.Fs.Access.{allowed_bits, fs_check_access, fs_set_owner, fs_set_mode}

-- Each right that `mask` asks for (4 read, 2 write, 1 execute) is among those of `bits`.
abbrev Covers : ℕ → ℕ → Type 0
Covers bits mask =
    (mask / 4 % 2 ≤ bits / 4 % 2) × (mask / 2 % 2 ≤ bits / 2 % 2) × (mask % 2 ≤ bits % 2)

covers : ℕ → ℕ → Bool
covers bits mask =
    leb (mask / 4 % 2) (bits / 4 % 2)
    && (leb (mask / 2 % 2) (bits / 2 % 2) && leb (mask % 2) (bits % 2))

abbrev bool_eq : Bool → Bool → Bool
bool_eq true b = b
bool_eq false true = false
bool_eq false false = true

table : passes_below 8 (λ b. passes_below 8 (λ m. bool_eq (bit_and b m == m) (covers b m))) ≡ true
unfolding passes_below covers
table = refl

bit_and-covers : (b m : ℕ) → b < 8 → m < 8 → (bit_and b m == m) ≡ covers b m
bit_and-covers b m hb hm =
    let row : passes_below 8 (λ k. bool_eq (bit_and b k == k) (covers b k)) ≡ true =
      passes_below_sound 8 (λ j. passes_below 8 (λ k. bool_eq (bit_and j k == k) (covers j k))) b hb
        table in
    let cell : bool_eq (bit_and b m == m) (covers b m) ≡ true =
      passes_below_sound 8 (λ k. bool_eq (bit_and b k == k) (covers b k)) m hm row in
    ground arith

covers_iff : (b m : ℕ) → (covers b m ≡ true) ↔ Covers b m
unfolding covers
covers_iff b m = (λ h. ground arith, λ h. ground arith)

allowed_bits-lt : (t : Nodes) (node user : ℕ) → allowed_bits t node user < 8
allowed_bits-lt t node user = ground arith

covers_none : (b : ℕ) → covers b 0 ≡ true
unfolding covers
covers_none b = ground arith

access_covers :
    (t : Nodes) (node user mask : ℕ)
    → is_node t node ≡ true
    → user ≢ 0
    → mask < 8
    → fs_check_access t node user mask ≡ covers (allowed_bits t node user) mask
unfolding fs_check_access
access_covers t node user mask live plain small = elim (Bool-cases (mask == 0)) [
  | inl z ↦
      let e : mask ≡ 0 = ground arith in rw (live, e) (sym (covers_none (allowed_bits t node user)))
  | inr z ↦
      let e : (user == 0) ≡ false = ground arith in
      rw (live, z, e)
        (bit_and-covers (allowed_bits t node user) mask (allowed_bits-lt t node user) small)
]

-- What the mode of a node grants: the owner the bits of 256, 128 and 64 for reading, writing and
-- executing, anyone else those of 4, 2 and 1.
pub data Grants (n : Node) (user mask : ℕ) : Type 0 where
  to_owner :
      user ≡ n.owner
      → mask / 4 % 2 ≤ n.mode / 256 % 2
      → mask / 2 % 2 ≤ n.mode / 128 % 2
      → mask % 2 ≤ n.mode / 64 % 2
      → Grants n user mask
  to_other :
      user ≢ n.owner
      → mask / 4 % 2 ≤ n.mode / 4 % 2
      → mask / 2 % 2 ≤ n.mode / 2 % 2
      → mask % 2 ≤ n.mode % 2
      → Grants n user mask

module _ (t : Nodes) (node user : ℕ) where
  allowed_bits_owner :
      user ≡ (node_at t node).owner → allowed_bits t node user ≡ (node_at t node).mode / 64 % 8
  allowed_bits_owner e = ground (arith, e)

  allowed_bits_other :
      user ≢ (node_at t node).owner → allowed_bits t node user ≡ (node_at t node).mode % 8
  allowed_bits_other e = ground (arith, e)

  Covers-Grants :
      (mask : ℕ) → Covers (allowed_bits t node user) mask → Grants (node_at t node) user mask
  Covers-Grants mask (r, w, x) = elim (Bool-cases (user == (node_at t node).owner)) [
    | inl y ↦
        let e : user ≡ (node_at t node).owner = ground (arith, y) in
        let q = allowed_bits_owner e in
        to_owner e (omega (arith, r, q)) (omega (arith, w, q)) (omega (arith, x, q))
    | inr y ↦
        let e : user ≢ (node_at t node).owner = ground (arith, y) in
        let q = allowed_bits_other e in
        to_other e (omega (arith, r, q)) (omega (arith, w, q)) (omega (arith, x, q))
  ]

  Grants-Covers :
      (mask : ℕ) → Grants (node_at t node) user mask → Covers (allowed_bits t node user) mask
  Grants-Covers mask (to_owner e r w x) =
      let q = allowed_bits_owner e in
      (omega (arith, r, q), omega (arith, w, q), omega (arith, x, q))
  Grants-Covers mask (to_other e r w x) =
      let q = allowed_bits_other e in
      (omega (arith, r, q), omega (arith, w, q), omega (arith, x, q))

-- On a node in use, a user other than root is granted a mask of three bits (4 read, 2 write,
-- 1 execute) exactly if the mode has the bit of each right in it: 256, 128 and 64 for the owner of
-- the node, 4, 2 and 1 for anyone else.
pub fs_check_access_iff :
    (t : Nodes) (node user mask : ℕ)
    → is_node t node ≡ true
    → user ≢ 0
    → mask < 8
    → (fs_check_access t node user mask ≡ true) ↔ Grants (node_at t node) user mask
fs_check_access_iff t node user mask live plain small =
    let e = access_covers t node user mask live plain small in
    let (sound, full) = covers_iff (allowed_bits t node user) mask in
    (
      λ h. Covers-Grants t node user mask (sound (sym e ∙ h)),
      λ g. e ∙ full (Grants-Covers t node user mask g),
    )

module _ (t : Nodes) (node value : ℕ) (v : IsFileTree t) where
  pub fs_set_owner-IsFileTree : IsFileTree (fs_set_owner t node value).1
  fs_set_owner-IsFileTree = elim (Bool-cases (is_node t node)) [
    | inr e ↦
        let q : (fs_set_owner t node value).1 ≡ t = unfold fs_set_owner in ground (arith, e) in
        rw q v
    | inl e ↦
        let n : Node = record (node_at t node) { owner = value } in
        let q : (fs_set_owner t node value).1 ≡ set t node n =
          unfold fs_set_owner in ground (arith, e) in
        rw q (set_same-IsFileTree t node n v (record { used = refl; is_dir = refl; parent = refl }))
  ]

  pub fs_set_mode-IsFileTree : IsFileTree (fs_set_mode t node value).1
  fs_set_mode-IsFileTree = elim (Bool-cases (is_node t node)) [
    | inr e ↦
        let q : (fs_set_mode t node value).1 ≡ t = unfold fs_set_mode in ground (arith, e) in rw q v
    | inl e ↦
        let n : Node = record (node_at t node) { mode = mode_bits value } in
        let q : (fs_set_mode t node value).1 ≡ set t node n =
          unfold fs_set_mode in ground (arith, e) in
        rw q (set_same-IsFileTree t node n v (record { used = refl; is_dir = refl; parent = refl }))
  ]

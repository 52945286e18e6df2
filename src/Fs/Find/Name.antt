-- ===== src/Fs/Find/Name.antt =====
-- `is_valid_name`: what a name that it accepts holds.
use fur_os.Prelude.{ℕ, ◌+◌, ◌≤◌, ◌≡◌, ◌≢◌, true, List, [], ◌∷◌, arith}
use fur_os.KString.{kstrlen, byte_at}
use fur_os.Fs.Find.{valid_from, is_valid_name}
use fur_os.Fs.Node.{fs_max_name}

valid_from-le :
    (s : List ℕ) (i : ℕ) → i ≤ fs_max_name → valid_from i s ≡ true → i + kstrlen s ≤ fs_max_name
unfolding valid_from kstrlen
valid_from-le [] i b h = omega arith
valid_from-le (c ∷ s) i b h = ground (arith, valid_from-le s (i + 1))

-- An accepted name fits into the array with its terminator, and it is not empty.
pub is_valid_name-le : (s : List ℕ) → is_valid_name s ≡ true → kstrlen s ≤ fs_max_name
unfolding is_valid_name
is_valid_name-le s h = ground (arith, valid_from-le s 0)

pub is_valid_name-nonempty : (s : List ℕ) → is_valid_name s ≡ true → byte_at s 0 ≢ 0
unfolding is_valid_name
is_valid_name-nonempty s h = ground arith

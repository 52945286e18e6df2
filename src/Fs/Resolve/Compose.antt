-- ===== src/Fs/Resolve/Compose.antt =====
-- `fs_resolve` follows a path of two parts in two steps.
use fur_os.Prelude.{
  ℕ, ◌≡◌, ◌≢◌, refl, sym, ◌∙◌, ap, Option, none, some, List, [], ◌∷◌, ◌++◌, arith, ◌>>=◌,
  Option-cases, inl, inr,
}
use fur_os.KString.{byte_at}
use fur_os.Fs.Node.{Nodes}
use fur_os.Fs.Tree.{IsUsed, IsTree}
use fur_os.Fs.Resolve.{fs_resolve}
use fur_os.Fs.Resolve.Walk.{
  components, walk, step, start, start-IsUsed, walk-IsUsed, fs_resolve-eq-walk,
}
use fur_os.Fs.Resolve.Leaf.{HasNo, components-append}

walk-append :
    (t : Nodes) (xs ys : List (List ℕ)) (c : ℕ)
    → walk t c (xs ++ ys) ≡ (walk t c xs >>= λ d. walk t d ys)
unfolding walk
walk-append t [] ys c = refl
walk-append t (x ∷ xs) ys c = elim (Option-cases (step t c x)) [
  | inl e ↦ ground (arith, e)
  | inr (d, e) ↦ ground (arith, e, walk-append t xs ys d)
]

start-append : (cwd : ℕ) (p q : List ℕ) → byte_at p 0 ≢ 0 → start cwd (p ++ q) ≡ start cwd p
start-append cwd [] q h = absurd (h refl)
start-append cwd (c ∷ s) q h = refl

-- In a tree, a path `p/q`, with `p` not empty and `q` not beginning with a slash, leads to where
-- `q` leads from what `p` leads to, and nowhere if `p` leads nowhere.
pub fs_resolve-append :
    (t : Nodes) (cwd : ℕ) (p q : List ℕ)
    → IsTree t
    → IsUsed t cwd
    → byte_at p 0 ≢ 0
    → HasNo 0 p
    → byte_at q 0 ≢ b'/'
    → fs_resolve t cwd (p ++ b'/' ∷ q) ≡ (fs_resolve t cwd p >>= λ c. fs_resolve t c q)
fs_resolve-append t cwd p q v u h z r =
    fs_resolve-eq-walk t cwd (p ++ b'/' ∷ q) v u
    ∙ rw (start-append cwd p (b'/' ∷ q) h, components-append p q z, walk-append)
        (sym
          (rw (fs_resolve-eq-walk t cwd p v u) (second (walk t (start cwd p) (components p)) refl)))
  where
    second :
        (o : Option ℕ)
        → walk t (start cwd p) (components p) ≡ o
        → (o >>= λ c. fs_resolve t c q) ≡ (o >>= λ c. walk t c (components q))
    second none e = refl
    second (some c) e =
        fs_resolve-eq-walk t c q v
          (walk-IsUsed t (components p) (start cwd p) c v (start-IsUsed t cwd p v u) e)
        ∙ ap (λ b. walk t b (components q)) (ground arith)

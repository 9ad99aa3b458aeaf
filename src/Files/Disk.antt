-- ===== src/Files/Disk.antt =====
-- The disk that the tools of tools/filesystem work on: what stands at each resolved path. The
-- operations are those of `pathlib.Path` and `shutil` that the tools call. The directory `/` is
-- always there; permissions and a full disk are left out.
use kanna_pa.Prelude.{
  ℕ, String, ◌≡◌, refl, sym, ap, Bool, true, false, ◌&&◌, Option, none, some, List, [], ◌∷◌, ◌++◌,
  length, arith, eq_iff, ◌=ₛ◌, if◌then◌else◌,
}
use kanna_pa.Permissions.Sandbox.{is_under}

-- A file holds its bytes. The time is that of the last change, as a text.
pub data Node : Type 0 where
  folder : (modified_at : String) → Node
  file : (contents : List ℕ) (modified_at : String) → Node

abbrev pub Disk : Type 0
Disk = List (List String × Node)

unfoldable pub same_path : List String → List String → Bool
same_path [] [] = true
same_path [] (y ∷ q) = false
same_path (x ∷ p) [] = false
same_path (x ∷ p) (y ∷ q) = x =ₛ y && same_path p q

unfoldable pub find_node : List String → Disk → Option Node
unfolding same_path
find_node q [] = none
find_node q ((p, n) ∷ d) = if same_path p q then some n else find_node q d

-- path.exists(), path.is_dir(), path.is_file()
abbrev pub is_folder : Option Node → Bool
is_folder (some (folder t)) = true
is_folder _ = false

abbrev pub is_file : Option Node → Bool
is_file (some (file bytes t)) = true
is_file _ = false

abbrev pub exists_as : Option Node → Bool
exists_as none = false
exists_as (some n) = true

abbrev pub size_of : Option Node → ℕ
size_of (some (file bytes t)) = length bytes
size_of _ = 0

abbrev pub modified_of : Option Node → String
modified_of (some (file bytes t)) = t
modified_of (some (folder t)) = t
modified_of none = ""

unfoldable pub put_node : List String → Node → Disk → Disk
unfolding same_path
put_node p n [] = (p, n) ∷ []
put_node p n ((q, m) ∷ d) =
    let rest = put_node p n d in if same_path q p then (p, n) ∷ d else (q, m) ∷ rest

-- unlink, or rmtree of a directory
unfoldable pub erase : List String → Disk → Disk
unfolding is_under
erase p [] = []
erase p ((q, m) ∷ d) = let rest = erase p d in if is_under p q then rest else (q, m) ∷ rest

-- `mkdir(parents=True, exist_ok=True)` below the directory `base`; none where a file stands in the
-- way.
unfoldable pub make_dirs : String → List String → List String → Disk → Option Disk
unfolding put_node find_node
make_dirs now base [] d = some d
make_dirs now base (x ∷ rest) d =
    let p = base ++ x ∷ [] in
    elim (find_node p d) [
      | none ↦ make_dirs now p rest (put_node p (folder now) d)
      | some (folder t) ↦ make_dirs now p rest d
      | some (file bytes t) ↦ none
    ]

-- path.parent.parts
unfoldable pub parent : List String → List String
parent [] = []
parent (x ∷ []) = []
parent (x ∷ y ∷ p) = x ∷ parent (y ∷ p)

pub same_path_refl : (p : List String) → same_path p p ≡ true
unfolding same_path
same_path_refl [] = refl
same_path_refl (x ∷ p) = ground (arith, same_path_refl p, eq_iff x x)

pub eq_of_same_path : (p q : List String) → same_path p q ≡ true → p ≡ q
unfolding same_path
eq_of_same_path [] [] h = refl
eq_of_same_path [] (y ∷ q) h = cc
eq_of_same_path (x ∷ p) [] h = cc
eq_of_same_path (x ∷ p) (y ∷ q) h = ground (arith, eq_of_same_path p q, eq_iff x y)

under_of_same : (p a q : List String) → same_path a q ≡ true → is_under p a ≡ is_under p q
under_of_same p a q h = ap (is_under p) (eq_of_same_path a q h)

same_trans : (a p q : List String) → same_path a p ≡ true → same_path a q ≡ same_path p q
same_trans a p q h = ap (λ x. same_path x q) (eq_of_same_path a p h)

same_cotrans : (a p q : List String) → same_path p q ≡ true → same_path a q ≡ same_path a p
same_cotrans a p q h = ap (same_path a) (sym (eq_of_same_path p q h))

-- What a write leaves at each path.
pub find_node-put_node :
    (q p : List String) (n : Node) (d : Disk)
    → find_node q (put_node p n d) ≡ (if same_path p q then some n else find_node q d)
unfolding find_node put_node
find_node-put_node q p n [] = refl
find_node-put_node q p n ((a, m) ∷ d) =
    ground (arith, find_node-put_node q p n d, same_trans a p q, same_cotrans a p q)

-- A deletion takes everything at and below the path, and nothing else.
pub find_node-erase :
    (q p : List String) (d : Disk)
    → find_node q (erase p d) ≡ (if is_under p q then none else find_node q d)
unfolding find_node erase
find_node-erase q p [] = ground arith
find_node-erase q p ((a, m) ∷ d) = ground (arith, find_node-erase q p d, under_of_same p a q)

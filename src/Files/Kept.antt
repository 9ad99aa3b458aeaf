-- ===== src/Files/Kept.antt =====
-- What the file tools can change on the disk once the path is resolved.
pub mod Roots
use mathlib.Core.List.{Memᴰ, append_assoc, append-nil}
use kanna_pa.Prelude.{
  ℕ, String, ◌≡◌, ◌≢◌, ◌⊎◌, refl, sym, ap, subst, ◌∙◌, Bool, true, false, not, ◌&&◌, Option, none,
  some, List, [], ◌∷◌, ◌++◌, arith, eq_iff, if◌then◌else◌, Bool-cases, Option-cases, if_ind, inl,
  inr,
}
use kanna_pa.Value.{Value, str, Fields, get}
use kanna_pa.Permissions.Sandbox.{Sandbox, roots, resolve, ok, is_under}
use kanna_pa.Permissions.Sandbox.Containment.{Under, is_under_iff, resolve-ok_iff}
use kanna_pa.Tools.Registry.{Attempt, Tool}
use kanna_pa.Files.Disk.{
  Node, folder, file, Disk, same_path, find_node, is_folder, exists_as, put_node, erase, make_dirs,
  parent, eq_of_same_path, find_node-put_node, find_node-erase,
}
use kanna_pa.Files.Os.{Os, path_of, with_path, with_path_ind}
use kanna_pa.Files.Read.{read_file, file_info, list_directory}
use kanna_pa.Files.Write.{
  asked, write_content, into_parent, write_at, write_file, made, make_at, create_directory,
  delete_node, delete_file,
}
use kanna_pa.Files.Search.{search_files}
use kanna_pa.Files.Tools.{all_tools}

-- What becomes of the path `q` where the tool works at `p`.
pub data Change (allowed : Type 0) (p : List String) (d d' : Disk) (q : List String) : Type 0 where
  same : find_node q d' ≡ find_node q d → Change allowed p d d' q
  -- `p` or a directory above it was missing and is there
  new : find_node q d ≡ none → Under q p → Change allowed p d d' q
  -- what stood at `p` or below it is replaced or removed
  lost : allowed → Under p q → Change allowed p d d' q

Under-refl : (p : List String) → Under p p
Under-refl p = ([], sym (append-nil p))

pub Under-trans : (a b c : List String) → Under a b → Under b c → Under a c
Under-trans a b c (r, e) (t, f) = (r ++ t, f ∙ ap (λ x. x ++ t) e ∙ append_assoc a r t)

Under-parent : (p : List String) → Under (parent p) p
unfolding parent
Under-parent [] = ([], refl)
Under-parent (x ∷ []) = (x ∷ [], refl)
Under-parent (x ∷ y ∷ p) = let (r, e) = Under-parent (y ∷ p) in (r, ap (◌∷◌ x) e)

new_one :
    {allowed : Type 0} (p q : List String) (n : Node) (d : Disk)
    → find_node p d ≡ none
    → Change allowed p d (put_node p n d) q
new_one p q n d missing = elim (Bool-cases (same_path p q)) [
  | inl h ↦
      let e = eq_of_same_path p q h in
      new (subst (λ x. find_node x d ≡ none) e missing) (subst (λ x. Under x p) e (Under-refl p))
  | inr h ↦ same (find_node-put_node q p n d ∙ rw h refl)
]

module _ {allowed : Type 0} where
  -- First the one change, then the other further below.
  further :
      {a p : List String} (d d₁ d₂ : Disk) (q : List String)
      → Under a p
      → Change ⊥ a d d₁ q
      → Change allowed p d₁ d₂ q
      → Change allowed p d d₂ q
  further d d₁ d₂ q above (same e) (same f) = same (f ∙ e)
  further d d₁ d₂ q above (same e) (new f u) = new (sym e ∙ f) u
  further d d₁ d₂ q above c (lost x u) = lost x u
  further {a} {p} d d₁ d₂ q above (new e u) c = new e (Under-trans q a p u above)
  further d d₁ d₂ q above (lost x u) c = absurd x

  make_dirs-Change :
      (now : String) (base rest : List String) (d d' : Disk) (q : List String)
      → make_dirs now base rest d ≡ some d'
      → Change allowed (base ++ rest) d d' q
  unfolding make_dirs
  make_dirs-Change now base [] d d' q h = same (ap (find_node q) (sym (cc)))
  make_dirs-Change now base (x ∷ rest) d d' q h =
      let p = base ++ x ∷ [] in
      let whole = append_assoc base (x ∷ []) rest in
      let at_whole = subst (λ a. Change allowed a d d' q) whole in
      elim (Option-cases (find_node p d)) [
        | inl missing ↦
            let d₁ = put_node p (folder now) d in
            let h' : make_dirs now p rest d₁ ≡ some d' = sym (rw (missing, make_dirs) refl) ∙ h in
            at_whole (
              further d d₁ d' q (rest, refl) (new_one p q (folder now) d missing)
                (make_dirs-Change now p rest d₁ d' q h'))
        | inr (folder t, e) ↦
            let h' : make_dirs now p rest d ≡ some d' = sym (rw (e, make_dirs) refl) ∙ h in
            at_whole (make_dirs-Change now p rest d d' q h')
        | inr (file b t, e) ↦
            let h' : none ≡ some d' = sym (rw (e, make_dirs) refl) ∙ h in absurd (cc)
      ]

  put_node-Change :
      (p q : List String) (n : Node) (d d₁ : Disk)
      → (find_node p d ≡ none) ⊎ allowed
      → Change ⊥ (parent p) d d₁ q
      → Change allowed p d (put_node p n d₁) q
  put_node-Change p q n d d₁ may c = elim (Bool-cases (same_path p q)) [
    | inl h ↦
        let e = eq_of_same_path p q h in
        elim may [
          | inl missing ↦
              new (subst (λ x. find_node x d ≡ none) e missing)
                (subst (λ x. Under x p) e (Under-refl p))
          | inr a ↦ lost a (subst (Under p) e (Under-refl p))
        ]
    | inr h ↦
        further d d₁ (put_node p n d₁) q (Under-parent p) c
          (same (find_node-put_node q p n d₁ ∙ rw h refl))
  ]

  erase-Change : (p q : List String) (d : Disk) → allowed → Change allowed p d (erase p d) q
  erase-Change p q d a = elim (Bool-cases (is_under p q)) [
    | inl h ↦ lost a ((is_under_iff p q).0 h)
    | inr h ↦ same (find_node-erase q p d ∙ rw h refl)
  ]

-- The call asks to overwrite.
abbrev pub Overwrites : Fields → Type 0
Overwrites args = asked "overwrite" args ≡ true

module _ (os : Os) where
  write_content-Change :
      {allowed : Type 0} (p q : List String) (existed : Bool) (content : Option Value) (d d₁ : Disk)
      → (find_node p d ≡ none) ⊎ allowed
      → Change ⊥ (parent p) d d₁ q
      → Change allowed p d (write_content os p existed content d₁).1 q
  unfolding write_content
  write_content-Change p q existed (some (str t)) d d₁ may c =
      put_node-Change p q (file (os.encode t) os.now) d d₁ may c
  write_content-Change p q existed none d d₁ may c =
      further d d₁ d₁ q (Under-parent p) c (same refl)
  write_content-Change p q existed (some Value.null) d d₁ may c =
      further d d₁ d₁ q (Under-parent p) c (same refl)
  write_content-Change p q existed (some (Value.bool b)) d d₁ may c =
      further d d₁ d₁ q (Under-parent p) c (same refl)
  write_content-Change p q existed (some (Value.int n)) d d₁ may c =
      further d d₁ d₁ q (Under-parent p) c (same refl)
  write_content-Change p q existed (some (Value.float m k)) d d₁ may c =
      further d d₁ d₁ q (Under-parent p) c (same refl)
  write_content-Change p q existed (some (Value.obj fs)) d d₁ may c =
      further d d₁ d₁ q (Under-parent p) c (same refl)
  write_content-Change p q existed (some (Value.arr xs)) d d₁ may c =
      further d d₁ d₁ q (Under-parent p) c (same refl)

  into_parent-Change :
      (args : Fields) (p q : List String) (existed : Bool) (d : Disk)
      → (find_node p d ≡ none) ⊎ Overwrites args
      → Change
          (Overwrites args)
          p
          d
          (into_parent os p existed (get "content" args) d (make_dirs os.now [] (parent p) d)).1
          q
  into_parent-Change args p q existed d may =
      elim (Option-cases (make_dirs os.now [] (parent p) d)) [
        | inl e ↦ rw e (same refl)
        | inr (d₁, e) ↦ rw e (
            write_content-Change p q existed (get "content" args) d d₁ may
              (make_dirs-Change os.now [] (parent p) d d₁ q e))
      ]

  missing_or :
      (args : Fields) (p : List String) (d : Disk)
      → (exists_as (find_node p d) && not (asked "overwrite" args)) ≡ false
      → (find_node p d ≡ none) ⊎ Overwrites args
  missing_or args p d h = elim (Option-cases (find_node p d)) [
    | inl e ↦ inl e
    | inr (n, e) ↦ inr (ground arith)
  ]

  pub write_at-Change :
      (args : Fields) (p q : List String) (d : Disk)
      → Change (Overwrites args) p d (write_at os args p d).1 q
  unfolding write_at
  write_at-Change args p q d =
      elim (Bool-cases (exists_as (find_node p d) && is_folder (find_node p d))) [
        | inl e ↦ rw (e, write_at) (same refl)
        | inr e ↦ elim (Bool-cases (exists_as (find_node p d) && not (asked "overwrite" args))) [
          | inl f ↦ rw (e, f, write_at) (same refl)
          | inr f ↦ rw (e, f, write_at) (into_parent-Change args p q _ d (missing_or args p d f))
        ]
      ]

  pub make_at-Change : (p q : List String) (d : Disk) → Change ⊥ p d (make_at os p d).1 q
  unfolding make_at
  make_at-Change p q d =
      elim (Bool-cases (exists_as (find_node p d) && not (is_folder (find_node p d)))) [
        | inl e ↦ rw (e, make_at) (same refl)
        | inr e ↦ elim (Option-cases (make_dirs os.now [] p d)) [
          | inl f ↦ rw (e, make_at, f) (same refl)
          | inr (d₁, f) ↦ rw (e, make_at, f) (make_dirs-Change os.now [] p d d₁ q f)
        ]
      ]

pub delete_node-Change :
    (recursive : Bool) (p q : List String) (n : Option Node) (d : Disk)
    → Change Unit p d (delete_node recursive p n d).1 q
unfolding delete_node
delete_node-Change recursive p q none d = same refl
delete_node-Change recursive p q (some (folder t)) d =
    if_ind (λ (r : Attempt × Disk). Change Unit p d r.1 q) recursive (λ _. erase-Change p q d tt)
      (λ _. same refl)
delete_node-Change recursive p q (some (file b t)) d = erase-Change p q d tt

-- ===== src/Permissions/Sandbox/Containment.antt =====
-- What `Sandbox.resolve` lets through.
use mathlib.Core.List.{Memᴰ}
use kanna_pa.Prelude.{
  ◌≡◌, refl, sym, ◌∙◌, ◌↔◌, String, true, Option, none, some, List, [], ◌∷◌, ◌++◌, arith, eq_iff,
  Bool-cases, inl, inr,
}
use kanna_pa.Permissions.Sandbox.{
  FilePath, ok, is_under, Sandbox, roots, candidate, contained, resolve,
}

-- `p` is `root` with further parts behind it.
abbrev pub Under : List String → List String → Type 0
Under root p = (rest : List String) × (p ≡ root ++ rest)

is_under→Under : (root p : List String) → is_under root p ≡ true → Under root p
unfolding is_under
is_under→Under [] p h = (p, refl)
is_under→Under (r ∷ root) [] h = absurd (ground arith)
is_under→Under (r ∷ root) (q ∷ p) h =
    let (rest, e) = is_under→Under root p (ground arith) in
    (rest, cc (e, (eq_iff r q).0 (ground arith)))

is_under-append : (root rest : List String) → is_under root (root ++ rest) ≡ true
unfolding is_under
is_under-append [] rest = refl
is_under-append (r ∷ root) rest = ground (arith, is_under-append root rest, eq_iff r r)

pub is_under_iff : (root p : List String) → (is_under root p ≡ true) ↔ Under root p
is_under_iff root p = (is_under→Under root p, λ (rest, e). rw e (is_under-append root rest))

contained-ok :
    (rs : List (List String)) (p q : List String)
    → contained rs p ≡ ok q
    → (q ≡ p) × ((root : List String) × Memᴰ root rs × Under root p)
unfolding contained
contained-ok [] p q h = absurd (cc)
contained-ok (r ∷ rs) p q h = elim (Bool-cases (is_under r p)) [
  | inl u ↦ (ground arith, (r, Memᴰ.head refl, is_under→Under r p u))
  | inr n ↦
      let (e, (root, m, u)) = contained-ok rs p q (ground arith) in (e, (root, Memᴰ.tail m, u))
]

contained-mem :
    (rs : List (List String)) (root p : List String)
    → Memᴰ root rs
    → is_under root p ≡ true
    → contained rs p ≡ ok p
unfolding contained
contained-mem [] root p m u = elim m [ ]
contained-mem (r ∷ rs) root p (Memᴰ.head e) u = ground arith
contained-mem (r ∷ rs) root p (Memᴰ.tail m) u = ground (arith, contained-mem rs root p m u)

module _ (os_resolve : List String → Option (List String)) where
  resolve-some :
      (s : Sandbox) (p : FilePath) {r : List String}
      → os_resolve (candidate s p) ≡ some r
      → resolve os_resolve s p ≡ contained (roots s) r
  unfolding resolve
  resolve-some s p e = rw (e, resolve)

  -- A path is let through exactly when the operating system resolves it to a path below one of the
  -- roots, and what comes back is the resolved path.
  pub resolve-ok_iff :
      (s : Sandbox) (p : FilePath) (q : List String)
      → (resolve os_resolve s p ≡ ok q) ↔ (
          (os_resolve (candidate s p) ≡ some q)
          × ((root : List String) × Memᴰ root (roots s) × Under root q))
  unfolding resolve
  resolve-ok_iff s p q = (forward (os_resolve (candidate s p)) refl, backward)
    where
      forward :
          (o : Option (List String))
          → os_resolve (candidate s p) ≡ o
          → resolve os_resolve s p ≡ ok q
          → (os_resolve (candidate s p) ≡ some q)
            × ((root : List String) × Memᴰ root (roots s) × Under root q)
      forward none e h = absurd (ground arith)
      forward (some r) e h =
          let (same, inside) = contained-ok (roots s) r q (sym (resolve-some s p e) ∙ h) in
          (rw same e, rw same inside)

      backward :
          (os_resolve (candidate s p) ≡ some q)
            × ((root : List String) × Memᴰ root (roots s) × Under root q)
          → resolve os_resolve s p ≡ ok q
      backward (e, (root, m, u)) =
          resolve-some s p e ∙ contained-mem (roots s) root q m ((is_under_iff root q).1 u)

  -- Resolving an absolute path that came back once more gives the same path, where the operating
  -- system resolves a path without links to itself.
  pub resolve-resolve :
      (s : Sandbox) (p : FilePath) (q : List String)
      → ((a b : List String) → os_resolve a ≡ some b → os_resolve b ≡ some b)
      → resolve os_resolve s p ≡ ok q
      → resolve os_resolve s (record { is_absolute = true; parts = q }) ≡ ok q
  resolve-resolve s p q idem h =
      let (e, inside) = (resolve-ok_iff s p q).0 h in
      (resolve-ok_iff s (record { is_absolute = true; parts = q }) q).1 (idem _ q e, inside)

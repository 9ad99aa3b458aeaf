-- ===== src/Permissions/Sandbox.antt =====
-- core/permissions/sandbox.py. `Path.resolve`, which follows links and `..`, is a parameter: the
-- operating system's view of the file tree, with none where it raises.
pub mod Containment
use kanna_pa.Prelude.{
  String, Bool, true, false, ◌&&◌, Option, none, some, List, [], ◌∷◌, ◌++◌, ◌=ₛ◌, if◌then◌else◌,
}

-- A path by its parts.
pub record FilePath : Type 0 where
  pub is_absolute : Bool
  pub parts : List String

pub data SandboxError : Type 0 where
  no_roots could_not_resolve outside : SandboxError

pub data Result {ℓ} (A : Type ℓ) : Type ℓ where
  ok : A → Result A
  violation : SandboxError → Result A
  os_error : Result A

-- `resolved.relative_to(root)` does not raise
unfoldable pub is_under : List String → List String → Bool
is_under [] p = true
is_under (r ∷ root) [] = false
is_under (r ∷ root) (q ∷ p) = r =ₛ q && is_under root p

pub record Sandbox : Type 0 where
  pub first_root : List String
  pub other_roots : List (List String)

abbrev pub roots : Sandbox → List (List String)
roots s = s.first_root ∷ s.other_roots

abbrev pub candidate : Sandbox → FilePath → List String
candidate s p = if p.is_absolute then p.parts else s.first_root ++ p.parts

unfoldable pub contained : List (List String) → List String → Result (List String)
unfolding is_under
contained [] p = violation outside
contained (r ∷ rs) p = if is_under r p then ok p else contained rs p

module _ (os_resolve : List String → Option (List String)) where
  unfoldable pub resolve_roots : List (List String) → Option (List (List String))
  resolve_roots [] = some []
  resolve_roots (r ∷ rs) = elim (os_resolve r) [
    | none ↦ none
    | some p ↦ elim (resolve_roots rs) [ none ↦ none | some ps ↦ some (p ∷ ps) ]
  ]

  -- `Sandbox.__init__`, over absolute roots
  unfoldable pub configure : List (List String) → Result Sandbox
  unfolding resolve_roots
  configure rs = elim (resolve_roots rs) [
    | none ↦ os_error
    | some [] ↦ violation no_roots
    | some (p ∷ ps) ↦ ok (record { first_root = p; other_roots = ps })
  ]

  unfoldable pub resolve : Sandbox → FilePath → Result (List String)
  unfolding contained
  resolve s p = elim (os_resolve (candidate s p)) [
    | none ↦ violation could_not_resolve
    | some r ↦ contained (roots s) r
  ]

  unfoldable pub is_within : Sandbox → FilePath → Bool
  unfolding resolve
  is_within s p = elim (resolve s p) [ ok _ ↦ true | _ ↦ false ]

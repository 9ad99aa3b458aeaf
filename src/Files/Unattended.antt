-- ===== src/Files/Unattended.antt =====
-- The file tools behind the registry of core/tools/registry.py, wired as in core/bootstrap.py.
use mathlib.Core.List.{Memᴰ}
use kanna_pa.Prelude.{
  String, ◌≡◌, refl, ap, ◌∙◌, true, false, some, List, [], arith, inl, inr, All, All-mem,
  Bool-cases, if◌then◌else◌, ◌||◌, ◌=ₛ◌,
}
use kanna_pa.Value.{Value, Fields}
use kanna_pa.Permissions.{review}
use kanna_pa.Permissions.Sandbox.{Sandbox}
use kanna_pa.Tools.Result.{ToolResult}
use kanna_pa.Tools.Registry.{Tool, Registry, Context, Services, ok, as_dict, get_tool, invoke}
use kanna_pa.Tools.Registry.Authority.{
  authorised, invoke-world, IsUnattended, creates_new, unattended_review,
}
use kanna_pa.Files.Disk.{Node, Disk, find_node}
use kanna_pa.Files.Os.{Os}
use kanna_pa.Files.Tools.{all_tools, read_tool, list_tool, search_tool, mkdir_tool, info_tool}
use kanna_pa.Files.Kept.{same, new, lost}
use kanna_pa.Files.Kept.Roots.{Loses, overwrites, deletes, ToolWorks, execute-ToolWorks}

Loses-named :
    (name : String) (args : Fields)
    → Loses name args
    → (name =ₛ "fs_write_file" || name =ₛ "fs_delete") ≡ true
Loses-named name args (overwrites e o) = rw e refl
Loses-named name args (deletes e) = rw e refl

not_new : (name : String) (args : Fields) → Loses name args → creates_new name args ≡ false
not_new name args (overwrites e o) = rw e (ground arith)
not_new name args (deletes e) = rw e refl

module _ (os : Os) (s : Sandbox) (args : Fields) where
  -- A tool that can lose something wants an approval.
  abbrev IsReviewed : Tool Disk → Type 0
  IsReviewed t = Loses t.name args → t.permission ≡ review

  harmless :
      (t : Tool Disk) → (t.name =ₛ "fs_write_file" || t.name =ₛ "fs_delete") ≡ false → IsReviewed t
  harmless t h l = absurd (cc (Loses-named t.name args l))

  all_tools-IsReviewed : All IsReviewed (all_tools os s)
  all_tools-IsReviewed = (
    harmless (read_tool os s) refl,
    (
      λ _. refl,
      (
        harmless (list_tool os s) refl,
        (
          harmless (search_tool os s) refl,
          (harmless (mkdir_tool os s) refl, (harmless (info_tool os s) refl, (λ _. refl, tt))),
        ),
      ),
    ),
  )

-- Where nobody is asked and there is no standing approval, no call of a file tool changes or
-- removes a file or directory that is there, whatever its arguments.
pub invoke-keeps :
    (os : Os) (s : Sandbox) (sv : Services Disk) (r : Registry Disk) (t : Tool Disk) (args : Value)
    (c : Context Disk) (after : ToolResult × Context Disk)
    → IsUnattended r []
    → Memᴰ t (all_tools os s)
    → get_tool r t.name ≡ ok t
    → invoke sv r t.name args c ≡ ok after
    → (q : List String) (n : Node) → find_node q c.world ≡ some n
    → find_node q after.1.world ≡ some n
invoke-keeps os s sv r t args c after wiring m found called q n there =
    elim (Bool-cases (authorised sv r t args)) [
      | inr refused ↦ world ∙ rw refused there
      | inl granted ↦
          world ∙ rw granted (kept granted (execute-ToolWorks os s (as_dict args) c.world q t m))
    ]
  where
    world :
        find_node q after.1.world
        ≡ find_node q
            (if authorised sv r t args then (t.execute (as_dict args) c.world).1 else c.world)
    world = ap (find_node q) (invoke-world sv r t.name args c t after found called)

    unapproved : Loses t.name (as_dict args) → authorised sv r t args ≡ true → ⊥
    unapproved l granted =
        elim (unattended_review sv r t args [] wiring
          (All-mem (IsReviewed os s (as_dict args)) (all_tools os s)
            (all_tools-IsReviewed os s (as_dict args)) m l)
          granted) [
            | inl new_one ↦ absurd (cc (not_new t.name (as_dict args) l))
            | inr (rule, standing, covered) ↦ elim standing [ ]
          ]

    kept :
        authorised sv r t args ≡ true
        → ToolWorks os s (as_dict args) c.world q t
        → find_node q (t.execute (as_dict args) c.world).1 ≡ some n
    kept granted (inl e) = e ∙ there
    kept granted (inr (f, p, e, same same_node)) = same_node ∙ there
    kept granted (inr (f, p, e, new missing u)) = absurd (cc)
    kept granted (inr (f, p, e, lost l u)) = absurd (unapproved l granted)

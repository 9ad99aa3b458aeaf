-- ===== src/Files/Results.antt =====
-- What the results of the file tools say, and what a later call sees of an earlier one.
use kanna_pa.Prelude.{
  ℕ, String, ◌≡◌, ◌≤◌, refl, ap, ◌∙◌, Bool, true, false, not, ◌&&◌, Option, none, some, List, [],
  length, arith, ltb, ltb→lt, subst, Bool-cases, inl, inr,
}
use kanna_pa.Value.{str, Fields, get}
use kanna_pa.Permissions.Sandbox.{Sandbox, resolve, ok}
use kanna_pa.Tools.Registry.{Attempt, returned, raised}
use kanna_pa.Files.Disk.{
  file, Disk, find_node, is_folder, exists_as, make_dirs, parent, same_path_refl,
  find_node-put_node,
}
use kanna_pa.Files.Os.{Os, path_of, with_path-resolve}
use kanna_pa.Files.Read.{max_bytes, decoded, read_node, read_file}
use kanna_pa.Files.Write.{asked, write_content, into_parent, write_at, write_file}

-- The attempt returned a result that reports success.
abbrev pub Succeeds : Attempt → Type 0
Succeeds (returned r) = r.success ≡ true
Succeeds (raised kind message) = ⊥

module _ (os : Os) where
  -- If the call succeeds, `p` holds the encoded content behind it.
  abbrev Writes : List String → String → Attempt × Disk → Type 0
  Writes p content r = Succeeds r.0 → find_node p r.1 ≡ some (file (os.encode content) os.now)

  into_parent-Writes :
      (p : List String) (existed : Bool) (content : String) (d : Disk) (o : Option Disk)
      → Writes p content (into_parent os p existed (some (str content)) d o)
  unfolding write_content
  into_parent-Writes p existed content d none h = absurd h
  into_parent-Writes p existed content d (some d₁) h =
      find_node-put_node p p (file (os.encode content) os.now) d₁ ∙ rw (same_path_refl p) refl

  write_at-Writes :
      (args : Fields) (p : List String) (content : String) (d : Disk)
      → get "content" args ≡ some (str content)
      → Writes p content (write_at os args p d)
  unfolding write_at
  write_at-Writes args p content d given =
      elim (Bool-cases (exists_as (find_node p d) && is_folder (find_node p d))) [
        | inl e ↦ rw (e, write_at) (λ h. absurd (cc))
        | inr e ↦ elim (Bool-cases (exists_as (find_node p d) && not (asked "overwrite" args))) [
          | inl f ↦ rw (e, f, write_at) (λ h. absurd (cc))
          | inr f ↦
              rw (e, f, write_at, given)
                (into_parent-Writes p _ content d (make_dirs os.now [] (parent p) d))
        ]
      ]

  read_node-file :
      (p : List String) (bytes : List ℕ) (t : String)
      → length bytes ≤ max_bytes
      → read_node os p (some (file bytes t)) ≡ decoded p (os.decode bytes) (length bytes) false
  unfolding read_node
  read_node-file p bytes t small = elim (Bool-cases (ltb max_bytes (length bytes))) [
    | inl long ↦ absurd (omega (arith, ltb→lt _ _ long))
    | inr short ↦ rw short refl
  ]

  -- After a write that succeeds, reading the same path gives back the content, whole, where decoding
  -- undoes encoding and the content is within the limit of five megabytes.
  pub read_file-write_file :
      (s : Sandbox) (args : Fields) (d : Disk) (t content : String) (p : List String)
      → get "path" args ≡ some (str t)
      → get "content" args ≡ some (str content)
      → resolve os.os_resolve s (path_of t) ≡ ok p
      → os.decode (os.encode content) ≡ some content
      → length (os.encode content) ≤ max_bytes
      → Succeeds (write_file os s args d).0
      → read_file os s args (write_file os s args d).1
        ≡ (decoded p (some content) (length (os.encode content)) false, (write_file os s args d).1)
  unfolding write_file read_file
  read_file-write_file s args d t content p path given inside codec small success =
      let run = with_path-resolve os s (write_at os args) args d t p path inside in
      let d' = (write_file os s args d).1 in
      let here : find_node p d' ≡ some (file (os.encode content) os.now) =
        ap (λ (r : Attempt × Disk). find_node p r.1) run
        ∙ write_at-Writes args p content d given
            (subst (λ (r : Attempt × Disk). Succeeds r.0) run success) in
      with_path-resolve os s (λ p d. (read_node os p (find_node p d), d)) args d' t p path inside
      ∙ ap (λ (a : Attempt). (a, d'))
          (ap (read_node os p) here
            ∙ read_node-file p (os.encode content) os.now small
            ∙ ap (λ (o : Option String). decoded p o (length (os.encode content)) false) codec)

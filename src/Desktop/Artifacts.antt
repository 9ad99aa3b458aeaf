-- ===== src/Desktop/Artifacts.antt =====
-- `verified_artifacts` of interfaces/desktop/worker.py, over the disk of the file tools. The result
-- of a run is given by its outcomes.
use mathlib.Core.List.{Memᴰ}
use kanna_pa.Prelude.{
  String, ◌≡◌, ◌↔◌, ◌⊎◌, refl, sym, true, false, ◌&&◌, not, List, [], ◌∷◌, ◌++◌, arith, eq_iff,
  any_of, ◌=ₛ◌, if◌then◌else◌, Bool-cases, if_ind, mem_last, mem_front, mem_end, inl, inr, subst,
  ◌∙◌, ◌||◌,
}
use kanna_pa.Permissions.Sandbox.{Sandbox, resolve, Result, ok, violation, os_error}
use kanna_pa.Agent.Loop.{StepOutcome}
use kanna_pa.Files.Disk.{Disk, find_node, is_file}
use kanna_pa.Files.Os.{Os, path_of, render}

module _ (os : Os) (s : Sandbox) (d : Disk) where
  abbrev add_file : List String → List String → List String
  add_file p paths =
      if is_file (find_node p d) && not (any_of (λ q. q =ₛ render p) paths)
      then paths ++ render p ∷ []
      else paths

  abbrev add_resolved : Result (List String) → List String → List String
  add_resolved (ok p) paths = add_file p paths
  add_resolved (violation e) paths = paths
  add_resolved os_error paths = paths

  -- The loop over the files of one result.
  unfoldable pub offer_each : List String → List String → List String
  unfolding resolve path_of render find_node
  offer_each [] paths = paths
  offer_each (raw ∷ raws) paths =
      offer_each raws (add_resolved (resolve os.os_resolve s (path_of raw)) paths)

  unfoldable pub artifacts_from : List StepOutcome → List String → List String
  unfolding offer_each
  artifacts_from [] paths = paths
  artifacts_from (o ∷ outcomes) paths = artifacts_from outcomes (
      if o.result.success
      then offer_each (o.result.files_created ++ o.result.files_modified) paths
      else paths)

  unfoldable pub verified_artifacts : List StepOutcome → List String
  unfolding artifacts_from
  verified_artifacts outcomes = artifacts_from outcomes []

  -- `x` is the path of a file that the sandbox lets `raw` through to.
  abbrev pub IsFileOf : String → String → Type 0
  IsFileOf raw x =
      (p : List String) × (resolve os.os_resolve s (path_of raw) ≡ ok p)
      × (is_file (find_node p d) ≡ true)
      × (x ≡ render p)

  -- A successful step says that it wrote `x`.
  abbrev pub Reported : String → List StepOutcome → Type 0
  Reported x outcomes =
      (o : StepOutcome) × Memᴰ o outcomes
      × (o.result.success ≡ true)
      × ((raw : String) × Memᴰ raw (o.result.files_created ++ o.result.files_modified)
          × IsFileOf raw x)

any_of→mem : (x : String) (ys : List String) → any_of (λ q. q =ₛ x) ys ≡ true → Memᴰ x ys
any_of→mem x [] h = absurd (cc)
any_of→mem x (y ∷ ys) h = elim (Bool-cases (y =ₛ x)) [
  | inl e ↦ Memᴰ.head (sym ((eq_iff y x).0 e))
  | inr n ↦ Memᴰ.tail (any_of→mem x ys (ground arith))
]

-- No text stands twice.
abbrev pub IsDistinct : List String → Type 0
IsDistinct [] = Unit
IsDistinct (x ∷ xs) = (any_of (λ q. q =ₛ x) xs ≡ false) × IsDistinct xs

any_of-last :
    (x y : String) (ys : List String)
    → any_of (λ q. q =ₛ x) (ys ++ y ∷ []) ≡ (any_of (λ q. q =ₛ x) ys || y =ₛ x)
any_of-last x y [] = ground arith
any_of-last x y (z ∷ ys) = ground (arith, any_of-last x y ys)

last-IsDistinct :
    (y : String) (ys : List String)
    → IsDistinct ys
    → any_of (λ q. q =ₛ y) ys ≡ false
    → IsDistinct (ys ++ y ∷ [])
last-IsDistinct y [] v h = (refl, tt)
last-IsDistinct y (x ∷ ys) v h = (
  any_of-last x y ys ∙ ground (arith, eq_iff x y, eq_iff y x),
  last-IsDistinct y ys v.1 (ground arith),
)

module _ (os : Os) (s : Sandbox) (d : Disk) where
  -- What one path adds.
  add_file-cases :
      (p paths : List String)
      → ((add_file os s d p paths ≡ paths)
          × (is_file (find_node p d) ≡ true → Memᴰ (render p) paths))
        ⊎ ((add_file os s d p paths ≡ paths ++ render p ∷ [])
            × (is_file (find_node p d) ≡ true)
            × (any_of (λ q. q =ₛ render p) paths ≡ false))
  add_file-cases p paths = elim (Bool-cases (is_file (find_node p d))) [
    | inr other ↦ inl (rw other refl, λ h. absurd (cc))
    | inl there ↦ elim (Bool-cases (any_of (λ q. q =ₛ render p) paths)) [
      | inl seen ↦ inl (rw (there, seen) refl, λ _. any_of→mem (render p) paths seen)
      | inr fresh ↦ inr (rw (there, fresh) refl, there, fresh)
    ]
  ]

  module _ (x : String) where
    -- From the raw path `raw`, `x` is what is offered.
    abbrev From : Result (List String) → Type 0
    From r = (p : List String) × (r ≡ ok p) × (is_file (find_node p d) ≡ true) × (x ≡ render p)

    resolved_sound :
        (r : Result (List String)) (paths : List String)
        → Memᴰ x (add_resolved os s d r paths)
        → Memᴰ x paths ⊎ From r
    resolved_sound (violation e) paths m = inl m
    resolved_sound os_error paths m = inl m
    resolved_sound (ok p) paths m = elim (add_file-cases p paths) [
      | inl (e, _) ↦ inl (subst (Memᴰ x) e m)
      | inr (e, there, _) ↦ elim (mem_last x (render p) paths (subst (Memᴰ x) e m)) [
        | inl old ↦ inl old
        | inr f ↦ inr (p, refl, there, f)
      ]
    ]

    resolved-keeps :
        (r : Result (List String)) (paths : List String)
        → Memᴰ x paths
        → Memᴰ x (add_resolved os s d r paths)
    resolved-keeps (violation e) paths m = m
    resolved-keeps os_error paths m = m
    resolved-keeps (ok p) paths m = elim (add_file-cases p paths) [
      | inl (e, _) ↦ subst (Memᴰ x) (sym e) m
      | inr (e, _, _) ↦ subst (Memᴰ x) (sym e) (mem_front x paths _ m)
    ]

    resolved-offers :
        (r : Result (List String)) (paths : List String)
        → From r
        → Memᴰ x (add_resolved os s d r paths)
    resolved-offers r paths (p, e, there, f) =
        subst (λ y. Memᴰ y (add_resolved os s d r paths)) (sym f)
          (subst (λ q. Memᴰ (render p) (add_resolved os s d q paths)) (sym e)
            (elim (add_file-cases p paths) [
              | inl (g, seen) ↦ subst (Memᴰ (render p)) (sym g) (seen there)
              | inr (g, _, _) ↦ subst (Memᴰ (render p)) (sym g) (mem_end (render p) paths)
            ]))

    abbrev Given : List String → Type 0
    Given raws = (raw : String) × Memᴰ raw raws × IsFileOf os s d raw x

    offer_each-mem :
        (raws paths : List String)
        → Memᴰ x (offer_each os s d raws paths) ↔ (Memᴰ x paths ⊎ Given raws)
    unfolding offer_each
    offer_each-mem [] paths = (λ m. inl m, λ h. elim h [ inl m ↦ m | inr (raw, m, _) ↦ elim m [ ] ])
    offer_each-mem (raw ∷ raws) paths =
        let r = resolve os.os_resolve s (path_of raw) in
        let ih = offer_each-mem raws (add_resolved os s d r paths) in
        (
          λ m. elim (ih.0 m) [
            | inl old ↦ elim (resolved_sound r paths old) [
              | inl older ↦ inl older
              | inr f ↦ inr (raw, Memᴰ.head refl, f)
            ]
            | inr (q, mq, f) ↦ inr (q, Memᴰ.tail mq, f)
          ],
          λ h. elim h [
            | inl old ↦ ih.1 (inl (resolved-keeps r paths old))
            | inr (q, Memᴰ.head e, f) ↦
                ih.1 (inl (resolved-offers r paths (subst (λ t. IsFileOf os s d t x) e f)))
            | inr (q, Memᴰ.tail mq, f) ↦ ih.1 (inr (q, mq, f))
          ],
        )

    artifacts_from-mem :
        (outcomes : List StepOutcome) (paths : List String)
        → Memᴰ x (artifacts_from os s d outcomes paths)
          ↔ (Memᴰ x paths ⊎ Reported os s d x outcomes)
    unfolding artifacts_from
    artifacts_from-mem [] paths =
        (λ m. inl m, λ h. elim h [ inl m ↦ m | inr (o, m, _, _) ↦ elim m [ ] ])
    artifacts_from-mem (o ∷ outcomes) paths = elim (Bool-cases o.result.success) [
      | inl good ↦
          let raws = o.result.files_created ++ o.result.files_modified in
          let step : artifacts_from os s d (o ∷ outcomes) paths
              ≡ artifacts_from os s d outcomes (offer_each os s d raws paths) =
            rw (good, artifacts_from) refl in
          let ih = artifacts_from-mem outcomes (offer_each os s d raws paths) in
          (
            λ m. elim (ih.0 (subst (Memᴰ x) step m)) [
              | inl old ↦ elim ((offer_each-mem raws paths).0 old) [
                | inl older ↦ inl older
                | inr given ↦ inr (o, Memᴰ.head refl, good, given)
              ]
              | inr (q, mq, success, given) ↦ inr (q, Memᴰ.tail mq, success, given)
            ],
            λ h. subst (Memᴰ x) (sym step) (
                ih.1 (elim h [
                  | inl old ↦ inl ((offer_each-mem raws paths).1 (inl old))
                  | inr (q, Memᴰ.head e, success, given) ↦ inl (
                      (offer_each-mem raws paths).1 (
                        inr (
                          subst
                            (λ (y : StepOutcome).
                              Given (y.result.files_created ++ y.result.files_modified))
                            e given)))
                  | inr (q, Memᴰ.tail mq, success, given) ↦ inr (q, mq, success, given)
                ])),
          )
      | inr bad ↦
          let step : artifacts_from os s d (o ∷ outcomes) paths
              ≡ artifacts_from os s d outcomes paths =
            rw (bad, artifacts_from) refl in
          let ih = artifacts_from-mem outcomes paths in
          (
            λ m. elim (ih.0 (subst (Memᴰ x) step m)) [
              | inl old ↦ inl old
              | inr (q, mq, success, given) ↦ inr (q, Memᴰ.tail mq, success, given)
            ],
            λ h. subst (Memᴰ x) (sym step) (
                ih.1 (elim h [
                  | inl old ↦ inl old
                  | inr (q, Memᴰ.head e, success, given) ↦
                      let wrong : o.result.success ≡ true =
                        subst (λ (y : StepOutcome). y.result.success ≡ true) e success in
                      absurd (cc)
                  | inr (q, Memᴰ.tail mq, success, given) ↦ inr (q, mq, success, given)
                ])),
          )
    ]

  resolved-IsDistinct :
      (r : Result (List String)) (paths : List String)
      → IsDistinct paths
      → IsDistinct (add_resolved os s d r paths)
  resolved-IsDistinct (violation e) paths v = v
  resolved-IsDistinct os_error paths v = v
  resolved-IsDistinct (ok p) paths v = elim (add_file-cases p paths) [
    | inl (e, _) ↦ subst IsDistinct (sym e) v
    | inr (e, _, fresh) ↦ subst IsDistinct (sym e) (last-IsDistinct (render p) paths v fresh)
  ]

  offer_each-IsDistinct :
      (raws paths : List String) → IsDistinct paths → IsDistinct (offer_each os s d raws paths)
  unfolding offer_each
  offer_each-IsDistinct [] paths v = v
  offer_each-IsDistinct (raw ∷ raws) paths v =
      offer_each-IsDistinct raws _
        (resolved-IsDistinct (resolve os.os_resolve s (path_of raw)) paths v)

  artifacts_from-IsDistinct :
      (outcomes : List StepOutcome) (paths : List String)
      → IsDistinct paths
      → IsDistinct (artifacts_from os s d outcomes paths)
  unfolding artifacts_from
  artifacts_from-IsDistinct [] paths v = v
  artifacts_from-IsDistinct (o ∷ outcomes) paths v = artifacts_from-IsDistinct outcomes _ (
      if_ind IsDistinct o.result.success
        (λ _. offer_each-IsDistinct (o.result.files_created ++ o.result.files_modified) paths v)
        (λ _. v))

  -- The files that are offered are exactly the existing ones, as the sandbox resolves them, that a
  -- successful step reports as created or modified; none is offered twice.
  pub verified_artifacts_lem :
      (outcomes : List StepOutcome)
      → IsDistinct (verified_artifacts os s d outcomes)
        × ((x : String) → Memᴰ x (verified_artifacts os s d outcomes) ↔ Reported os s d x outcomes)
  unfolding verified_artifacts
  verified_artifacts_lem outcomes = (
    artifacts_from-IsDistinct outcomes [] tt,
    λ x. (
      λ m. elim ((artifacts_from-mem x outcomes []).0 m) [ inl n ↦ elim n [ ] | inr r ↦ r ],
      λ r. (artifacts_from-mem x outcomes []).1 (inr r),
    ),
  )

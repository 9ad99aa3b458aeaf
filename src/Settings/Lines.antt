-- ===== src/Settings/Lines.antt =====
-- What `update_config_file` makes of the lines of a file: core/config/settings.py.
use kanna_pa.Prelude.{
  String, ◌≡◌, refl, sym, ap, ◌∙◌, subst, Bool, false, Option, none, some, List, [], ◌∷◌, arith,
  eq_iff, ◌=ₛ◌, if◌then◌else◌, Option-cases, Bool-cases, inl, inr, All,
}
use kanna_pa.Value.{Value}
use kanna_pa.Settings.{
  key_of, toml_scalar_line, Updates, find_update, pop, replaced, added, update_lines,
}

-- The first line that sets a key.
abbrev sets : String → Option String → Bool
sets k none = false
sets k (some j) = j =ₛ k

unfoldable pub find_line : String → List String → Option String
find_line k [] = none
find_line k (line ∷ lines) = if sets k (key_of line) then some line else find_line k lines

find_update-pop :
    (k j : String) (u : Updates)
    → find_update k (pop j u) ≡ (if j =ₛ k then none else find_update k u)
unfolding find_update pop
find_update-pop k j [] = ground arith
find_update-pop k j ((i, v) ∷ u) =
    ground (arith, find_update-pop k j u, eq_iff i j, eq_iff i k, eq_iff j k)

-- The pattern finds the key of the line that is written for it.
abbrev pub IsKey : (Value → String) → String × Value → Type 0
IsKey show (k, v) = key_of (toml_scalar_line show k v) ≡ some k

abbrev pub updated : (Value → String) → String → Option Value → Option String → Option String
updated show k none old = old
updated show k (some v) old = some (toml_scalar_line show k v)

All-pop :
    (show : Value → String) (j : String) (u : Updates)
    → All (IsKey show) u
    → All (IsKey show) (pop j u)
unfolding pop
All-pop show j [] h = tt
All-pop show j ((i, v) ∷ u) (e, h) = ground (arith, All-pop show j u h)

found-IsKey :
    (show : Value → String) (j : String) (v : Value) (u : Updates)
    → All (IsKey show) u
    → find_update j u ≡ some v
    → IsKey show (j, v)
unfolding find_update
found-IsKey show j v [] h e = cc
found-IsKey show j v ((i, w) ∷ u) (here, h) e = elim (Bool-cases (i =ₛ j)) [
  | inl same ↦
      let k : i ≡ j = (eq_iff i j).0 same in
      let value : w ≡ v = grind (arith, e, same) in
      subst (λ x. key_of (toml_scalar_line show j x) ≡ some j) value
        (subst (λ x. key_of (toml_scalar_line show x w) ≡ some x) k here)
  | inr other ↦ found-IsKey show j v u h (sym (rw other refl) ∙ e)
]

module _ (show : Value → String) (k : String) where
  find_line-added :
      (u : Updates)
      → All (IsKey show) u
      → find_line k (added show u) ≡ updated show k (find_update k u) none
  unfolding find_line added find_update
  find_line-added [] h = refl
  find_line-added ((i, v) ∷ u) (e, h) = elim (Bool-cases (i =ₛ k)) [
    | inl same ↦ rw (e, same) (ap (λ x. some (toml_scalar_line show x v)) ((eq_iff i k).0 same))
    | inr other ↦ rw (e, other) (find_line-added u h)
  ]

  kept :
      (line j : String) (u : Updates) (rest old : Option String)
      → find_update j u ≡ none
      → rest ≡ updated show k (find_update k u) old
      → (if j =ₛ k then some line else rest)
        ≡ updated show k (find_update k u) (if j =ₛ k then some line else old)
  kept line j u rest old missing same = elim (Bool-cases (j =ₛ k)) [
    | inl here ↦ rw here (
        sym (
          ap (λ x. updated show k x (some line))
            (subst (λ x. find_update x u ≡ none) ((eq_iff j k).0 here) missing)))
    | inr other ↦ rw other same
  ]

  taken :
      (line j : String) (v : Value) (u : Updates) (rest old : Option String)
      → find_update j u ≡ some v
      → rest ≡ updated show k (find_update k (pop j u)) old
      → (if j =ₛ k then some (toml_scalar_line show j v) else rest)
        ≡ updated show k (find_update k u) (if j =ₛ k then some line else old)
  taken line j v u rest old asked same = elim (Bool-cases (j =ₛ k)) [
    | inl here ↦ rw here (
        ap (λ x. some (toml_scalar_line show x v)) ((eq_iff j k).0 here)
        ∙ sym (
            ap (λ x. updated show k x (some line))
              (subst (λ x. find_update x u ≡ some v) ((eq_iff j k).0 here) asked)))
    | inr other ↦
        rw other (same ∙ ap (λ x. updated show k x old) (find_update-pop k j u ∙ rw other refl))
  ]

  -- Each key is set by the line that an update asks for, and else by the line that set it before.
  pub find_line-update_lines :
      (u : Updates) (lines : List String)
      → All (IsKey show) u
      → find_line k (update_lines show u lines)
        ≡ updated show k (find_update k u) (find_line k lines)
  unfolding find_line update_lines replaced
  find_line-update_lines u [] h = find_line-added u h
  find_line-update_lines u (line ∷ lines) h = elim (Option-cases (key_of line)) [
    | inl e ↦ rw (e, replaced, e) (find_line-update_lines u lines h)
    | inr (j, e) ↦ elim (Option-cases (find_update j u)) [
      | inl missing ↦
          rw (e, replaced, missing, e)
            (kept line j u _ _ missing (find_line-update_lines u lines h))
      | inr (v, asked) ↦
          rw (e, replaced, asked, found-IsKey show j v u h asked)
            (taken line j v u _ _ asked
              (find_line-update_lines (pop j u) lines (All-pop show j u h)))
    ]
  ]

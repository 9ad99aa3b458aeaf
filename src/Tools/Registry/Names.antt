-- ===== src/Tools/Registry/Names.antt =====
-- Registration: `register`, `get` and `has` of core/tools/registry.py.
use kanna_pa.Prelude.{
  String, ◌≡◌, ◌⊎◌, refl, true, none, some, List, [], ◌∷◌, ◌++◌, arith, ◌=ₛ◌, eq_iff, if◌then◌else◌,
  Option-cases, inl, inr,
}
use kanna_pa.Tools.Registry.{
  Tool, Registry, ok, duplicate_name, find_tool, has_tool, get_tool, register,
}

module _ {W : Type 0} where
  find_tool-snoc :
      (ts : List (Tool W)) (t : Tool W) (n : String)
      → find_tool n (ts ++ t ∷ [])
        ≡ elim (find_tool n ts) [ some q ↦ some q | none ↦ if t.name =ₛ n then some t else none ]
  unfolding find_tool
  find_tool-snoc [] t n = refl
  find_tool-snoc (q ∷ ts) t n = ground (arith, find_tool-snoc ts t n)

  -- Registering fails exactly when the name is taken. Otherwise the name finds the new tool, and
  -- every other name what it found before.
  pub get_tool-register :
      (r : Registry W) (t : Tool W)
      → ((has_tool r t.name ≡ true) × (register r t ≡ duplicate_name))
        ⊎ ((r' : Registry W) × (register r t ≡ ok r')
            × ((n : String) → get_tool r' n ≡ (if t.name =ₛ n then ok t else get_tool r n)))
  unfolding get_tool register has_tool
  get_tool-register r t = elim (Option-cases (find_tool t.name r.tools)) [
    | inr (q, taken) ↦ inl (rw (taken, has_tool) refl, rw (taken, has_tool, register) refl)
    | inl free ↦ inr (
      record r { tools = r.tools ++ t ∷ [] },
      rw (free, has_tool, register) refl,
      λ n. ground (arith, find_tool-snoc r.tools t n, free, eq_iff t.name n),
    )
  ]

-- ===== src/Permissions/Gate/Standing.antt =====
-- What a standing approval grants, and what its removal takes back.
use mathlib.Core.List.{Memᴰ}
use kanna_pa.Prelude.{
  ℕ, ◌≡◌, ◌≢◌, ◌↔◌, refl, String, Bool, true, ◌||◌, List, [], ◌∷◌, ◌++◌, any_of, arith, ◌==◌,
  Bool-cases, inl, inr,
}
use kanna_pa.Value.{Fields}
use kanna_pa.Permissions.Trust.{TrustRule, TrustTable, add, list_all, without, remove}
use kanna_pa.Permissions.Gate.{Gate, deny_all, trust_store, covers, approve}

any-mem :
    (name : String) (args : Fields) (rules : List TrustRule)
    → any_of (covers name args) rules ≡ true
    → (r : TrustRule) × Memᴰ r rules × (covers name args r ≡ true)
any-mem name args [] h = absurd (ground arith)
any-mem name args (r ∷ rules) h = elim (Bool-cases (covers name args r)) [
  | inl c ↦ (r, Memᴰ.head refl, c)
  | inr n ↦ let (q, m, c) = any-mem name args rules (ground arith) in (q, Memᴰ.tail m, c)
]

mem-any :
    (name : String) (args : Fields) (rules : List TrustRule) (r : TrustRule)
    → Memᴰ r rules
    → covers name args r ≡ true
    → any_of (covers name args) rules ≡ true
mem-any name args [] r m c = elim m [ ]
mem-any name args (q ∷ rules) r (Memᴰ.head e) c = ground arith
mem-any name args (q ∷ rules) r (Memᴰ.tail m) c = ground (arith, mem-any name args rules r m c)

-- With nobody to ask, exactly the calls that some standing rule covers are approved.
pub approve-trust_store_iff :
    (rules : List TrustRule) (name : String) (args : Fields)
    → (approve (trust_store rules deny_all) name args ≡ true)
      ↔ ((r : TrustRule) × Memᴰ r rules × (covers name args r ≡ true))
unfolding approve
approve-trust_store_iff rules name args = (
  λ h. any-mem name args rules (ground arith),
  λ (r, m, c). ground (arith, mem-any name args rules r m c),
)

any_of-snoc :
    (p : TrustRule → Bool) (rules : List TrustRule) (r : TrustRule)
    → any_of p (rules ++ r ∷ []) ≡ (any_of p rules || p r)
any_of-snoc p [] r = ground arith
any_of-snoc p (q ∷ rules) r = ground (arith, any_of-snoc p rules r)

-- A rule that is added approves the calls that it covers, and no call loses or gains an approval
-- otherwise.
pub approve-add :
    (t : TrustTable) (tool : String) (pattern : Fields) (note : String) (fallback : Gate)
    (name : String) (args : Fields)
    → approve (trust_store (list_all (add t tool pattern note).1) fallback) name args ≡ (
        approve (trust_store (list_all t) fallback) name args
        || covers name args (add t tool pattern note).0)
unfolding approve list_all add
approve-add t tool pattern note fallback name args =
    ground (arith, any_of-snoc (covers name args) t.rows (add t tool pattern note).0)

covered-without :
    (name : String) (args : Fields) (rules : List TrustRule) (i : ℕ)
    → any_of (covers name args) (without rules i) ≡ true
    → (r : TrustRule) × Memᴰ r rules × (r.id ≢ i) × (covers name args r ≡ true)
unfolding without
covered-without name args [] i h = absurd (ground arith)
covered-without name args (r ∷ rules) i h = elim (Bool-cases (r.id == i)) [
  | inl same ↦
      let (q, m, other, c) = covered-without name args rules i (ground arith) in
      (q, Memᴰ.tail m, other, c)
  | inr other ↦ elim (Bool-cases (covers name args r)) [
    | inl c ↦ (r, Memᴰ.head refl, ground arith, c)
    | inr n ↦
        let (q, m, other', c) = covered-without name args rules i (ground arith) in
        (q, Memᴰ.tail m, other', c)
  ]
]

-- After a removal, a call that is still approved although nobody is asked is covered by a rule with
-- another id that was in the table before.
pub approve-remove :
    (t : TrustTable) (i : ℕ) (name : String) (args : Fields)
    → approve (trust_store (list_all (remove t i).1) deny_all) name args ≡ true
    → (r : TrustRule) × Memᴰ r (list_all t) × (r.id ≢ i) × (covers name args r ≡ true)
unfolding approve list_all remove
approve-remove t i name args h = covered-without name args t.rows i (ground arith)

-- ===== src/Planner/Bindings/Stability.antt =====
-- References look backward only: what has been resolved stays as it is when later steps add results.
use kanna_pa.Prelude.{
  ℕ, zero, suc, ◌≤◌, ◌≡◌, some, List, [], ◌∷◌, ◌++◌, length, get_elem?, arith, inl, inr, Bool-cases,
  Option-cases, length-append,
}
use kanna_pa.Value.{
  Value, null, bool, int, float, str, arr, obj, Items, nil, cons, Fields, end, field,
}
use kanna_pa.Planner.Plan.{ok, ◌>>=◌, >>=-eq-ok}
use kanna_pa.Planner.Bindings.{
  Reference, reference_parts, is_reference, fetch, resolve, resolve_items, resolve_fields,
}

get_elem?-append {ℓ} :
    {A : Type ℓ} (xs ys : List A) (i : ℕ) (a : A)
    → get_elem? xs i ≡ some a
    → get_elem? (xs ++ ys) i ≡ some a
get_elem?-append [] ys i a h = cc
get_elem?-append (x ∷ xs) ys zero a h = h
get_elem?-append (x ∷ xs) ys (suc i) a h = get_elem?-append xs ys i a h

fetch-append :
    (r : Reference) (rs more : List Fields) (w : Value)
    → fetch r rs ≡ ok w
    → fetch r (rs ++ more) ≡ ok w
unfolding fetch
fetch-append r rs more w h = elim (Option-cases (get_elem? rs r.step)) [
  | inl absent ↦ absurd (ground (arith, absent, h))
  | inr (v, found) ↦ ground (arith, found, get_elem?-append rs more r.step v found, h)
]

reference_parts-later :
    (fs : Fields) (i j : ℕ) (r : Reference)
    → i ≤ j
    → reference_parts fs i ≡ ok r
    → reference_parts fs j ≡ ok r
unfolding reference_parts
reference_parts-later fs i j r le h = ground arith

ok-injective {ℓ} : {A : Type ℓ} {a b : A} → ok a ≡ ok b → a ≡ b
ok-injective e = cc

stable_reference :
    (fs : Fields) (rs more : List Fields) (w : Value)
    → (reference_parts fs (length rs) >>= λ r. fetch r rs) ≡ ok w
    → (reference_parts fs (length (rs ++ more)) >>= λ r. fetch r (rs ++ more)) ≡ ok w
stable_reference fs rs more w h =
    let (r, e, found) = >>=-eq-ok (reference_parts fs (length rs)) (λ r. fetch r rs) h in
    rw
      (reference_parts-later fs (length rs) (length (rs ++ more)) r
        (omega (arith, length-append rs more)) e)
      (fetch-append r rs more w found)

mutual
  unfolding resolve

  stable :
      (v : Value) (rs more : List Fields) (w : Value)
      → resolve v rs ≡ ok w
      → resolve v (rs ++ more) ≡ ok w
  stable null rs more w h = h
  stable (bool b) rs more w h = h
  stable (int n) rs more w h = h
  stable (float m k) rs more w h = h
  stable (str s) rs more w h = h
  stable (arr xs) rs more w h =
      let (ys, e, done) = >>=-eq-ok (resolve_items xs rs) (λ ys. ok (arr ys)) h in
      rw (stable_items xs rs more ys e) done
  stable (obj fs) rs more w h = elim (Bool-cases (is_reference fs)) [
    | inl ref ↦ rw ref (stable_reference fs rs more w (rw ref at h))
    | inr plain ↦
        let (gs, e, done) = >>=-eq-ok (resolve_fields fs rs) (λ gs. ok (obj gs)) (rw plain at h) in
        rw (plain, stable_fields fs rs more gs e) done
  ]

  stable_items :
      (xs : Items) (rs more : List Fields) (ys : Items)
      → resolve_items xs rs ≡ ok ys
      → resolve_items xs (rs ++ more) ≡ ok ys
  stable_items nil rs more ys h = h
  stable_items (cons v xs) rs more ys h =
      let (w, e, rest) =
        >>=-eq-ok (resolve v rs) (λ w. resolve_items xs rs >>= λ zs. ok (cons w zs)) h in
      let (zs, e', done) = >>=-eq-ok (resolve_items xs rs) (λ zs. ok (cons w zs)) rest in
      rw (stable v rs more w e, stable_items xs rs more zs e') done

  stable_fields :
      (fs : Fields) (rs more : List Fields) (gs : Fields)
      → resolve_fields fs rs ≡ ok gs
      → resolve_fields fs (rs ++ more) ≡ ok gs
  stable_fields end rs more gs h = h
  stable_fields (field k v fs) rs more gs h =
      let (w, e, rest) =
        >>=-eq-ok (resolve v rs) (λ w. resolve_fields fs rs >>= λ hs. ok (field k w hs)) h in
      let (hs, e', done) = >>=-eq-ok (resolve_fields fs rs) (λ hs. ok (field k w hs)) rest in
      rw (stable v rs more w e, stable_fields fs rs more hs e') done

-- What resolves against the results of the earlier steps resolves to the same value when there are
-- further results behind them.
pub resolve-append :
    (v : Value) (rs more : List Fields) (w : Value)
    → resolve v rs ≡ ok w
    → resolve v (rs ++ more) ≡ ok w
resolve-append v rs more w h = stable v rs more w h
